-- ===== src/Docker/LayerTable.antt =====
-- The table of layers of plugins/beiran_package_container/models.py (ContainerLayer), as peewee
-- documents it. Its key is an id that the database gives out when a row is inserted.
pub mod Held
pub mod ListLayers
use beiran.Base.{Bool, List, Option, Text, [], if◌then◌else◌, member, none, not, same, some, ℤ}
use beiran.Base.{◌++◌, ◌∷◌, ◌≡◌}
use beiran.Container.Model.{Row, without}
use beiran.Container.Rows.{first_where}
use beiran.Container.Table.{Table}

pub record LayerColumns : Type 0 where
  pub digest : Option Text
  pub diff_id : Text
  pub chain_id : Text
  pub size : ℤ
  pub local_image_refs : List Text
  pub cache_path : Option Text
  pub cache_gz_path : Option Text
  pub docker_path : Option Text

abbrev pub Layer : Type 0
Layer = Row LayerColumns

pub record LayerTable : Type 1 where
  pub table : Table LayerColumns
  -- `save` of a row that was not read from the table, and the id that it gets
  pub insert : Layer → Table.State table → Table.State table
  pub fresh : Table.State table → Text
  pub get-fresh : (s : Table.State table) → Table.get table (fresh s) s ≡ none
  pub get-insert :
      (k : Text) (r : Layer) (s : Table.State table)
      → Table.get table k (insert r s)
        ≡ (if same (fresh s) k then some (record r { key = fresh s }) else Table.get table k s)

unfoldable pub has_diff_id : Text → Layer → Bool
has_diff_id d r = same r.rest.diff_id d

-- `ContainerLayer.get(ContainerLayer.diff_id == diff_id)`; `none` is DoesNotExist.
module _ (T : LayerTable) where
  unfoldable pub get_by_diff_id : Text → Table.State T.table → Option Layer
  get_by_diff_id d s = first_where (has_diff_id d) (Table.select T.table s)

unfoldable pub set_local_image_refs : Text → Layer → Layer
set_local_image_refs image_id r = if member image_id r.rest.local_image_refs then r else record r {
  rest = record r.rest { local_image_refs = r.rest.local_image_refs ++ (image_id ∷ []) };
}

unfoldable pub unset_local_image_refs : Text → Layer → Layer
unfolding without
unset_local_image_refs image_id r =
    if not (member image_id r.rest.local_image_refs) then r else record r {
      rest = record r.rest { local_image_refs = without image_id r.rest.local_image_refs };
    }
