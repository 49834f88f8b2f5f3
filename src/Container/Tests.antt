-- ===== src/Container/Tests.antt =====
-- Runs of the functions of plugins/beiran_package_container, and the theorems at concrete inputs.
use beiran.Base.{[], codes, member, none, refl, same, some, ℕ, ◌∷◌, ◌≡◌}
use beiran.Container.ListTable.{list_table, put}
use beiran.Container.Model.{Row, filter, find, is_null, null, unset, unset_available_at}
use beiran.Container.Reset.{get-reset_info_of_node}
use beiran.Container.Rows.{write_rows}
use beiran.Container.Store.{delete_unavailable, delete_unavailable_objects}
use beiran.Container.Store.{is_unavailable, reset_info_of_node, reset_rows}
use beiran.Container.Table.{Table}

abbrev busybox : Row ℕ
busybox = record {
  key = codes "sha256:b";
  available_at = codes "n1" ∷ codes "n2" ∷ [];
  download_progress = unset;
  rest = 1;
}

abbrev alpine : Row ℕ
alpine = record {
  key = codes "sha256:a";
  available_at = codes "n1" ∷ [];
  download_progress = null;
  rest = 2;
}

abbrev images : Table.State (list_table ℕ)
unfolding find same
images = (busybox ∷ alpine ∷ [], (refl, (refl, tt)))

abbrev table : Table ℕ
table = list_table ℕ

-- Once n1 is reset, the image that only it has is gone; the other one is left with n2.
reset_alpine :
    find (codes "sha256:a") (reset_info_of_node table table (codes "n1") (images, images)).0.0
    ≡ none
unfolding reset_info_of_node delete_unavailable_objects delete_unavailable reset_rows write_rows put
    filter find same is_unavailable is_null unset_available_at member
reset_alpine = refl

-- A row whose progress was never written stays, with no node.
reset_unset :
    (reset_info_of_node table table
      (codes "n2")
      (reset_info_of_node table table (codes "n1") (images, images))).0.0
    ≡ record busybox { available_at = [] } ∷ []
unfolding reset_info_of_node delete_unavailable_objects delete_unavailable reset_rows write_rows put
    filter find same is_unavailable is_null unset_available_at member
reset_unset = refl

get-reset_info_of_node_example :
    (find (codes "sha256:b") (reset_info_of_node table table (codes "n1") (images, images)).0.0
      ≡ some (record busybox { available_at = codes "n2" ∷ [] }))
    × (find (codes "sha256:b") (reset_info_of_node table table (codes "n1") (images, images)).1.0
        ≡ some (record busybox { available_at = codes "n2" ∷ [] }))
unfolding find same
get-reset_info_of_node_example =
    get-reset_info_of_node table table (codes "n1") (codes "sha256:b") images images
