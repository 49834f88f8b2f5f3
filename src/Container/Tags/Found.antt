-- ===== src/Container/Tags/Found.antt =====
-- The image that get_image_data of plugins/beiran_package_container/models.py finds.
use beiran.Base.{Bool, List, Option, Text, [], ap, arith, false, if◌then◌else◌, none, refl}
use beiran.Base.{same_refl, some, sym, true, ◌∙◌, ◌∷◌, ◌≡◌}
use beiran.Container.Model.{IsUnique, filter, find, find-filter, keep}
use beiran.Container.Rows.{first_where, first_where-find}
use beiran.Container.Table.{Table}
use beiran.Container.Tags.{Image, ImageColumns, Like, get_image_data, only_one, or_else}
use beiran.ImageRef.{add_default_tag, add_idpref, is_digest}

module _ (L : Like) (T : Table ImageColumns) where
  only_one-find :
      (p : Image → Bool) (rs : List Image) (r : Image)
      → IsUnique rs
      → only_one (filter p rs) ≡ some r
      → find r.key rs ≡ some r
  unfolding only_one
  only_one-find p rs r u e =
      kept (find r.key rs) (sym (find-filter r.key p rs u) ∙ alone (filter p rs) e)
    where
      alone : (qs : List Image) → only_one qs ≡ some r → find r.key qs ≡ some r
      alone [] f = unfold only_one in cc
      alone (q ∷ []) f =
          let same_row : q ≡ r = ground arith in
          ap (λ x. find x.key (q ∷ [])) (sym same_row)
          ∙ (unfold find in rw (same_refl) (ap some same_row))
      alone (q ∷ q' ∷ qs) f = unfold only_one in cc

      kept : (o : Option Image) → keep p o ≡ some r → o ≡ some r
      kept none f = unfold keep in f
      kept (some q) f = unfold keep in ground arith

  pub get_image_data-get :
      (image_id : Text) (s : T.State) (r : Image)
      → get_image_data L T image_id s ≡ some r
      → T.get r.key s ≡ some r
  unfolding get_image_data
  get_image_data-get image_id s r e = T.get-select r.key s ∙ go (is_digest image_id) e
    where
      rs : List Image
      rs = T.select s

      tagged : Image → Bool
      tagged q = L.has_item (add_default_tag image_id) q.rest.tags

      named : Image → Bool
      named q = L.has_prefix (add_idpref image_id) q.key

      either :
          (o : Option Image)
          → first_where tagged rs ≡ o
          → or_else o (only_one (filter named rs)) ≡ some r
          → find r.key rs ≡ some r
      either none f h = unfold or_else in only_one-find named rs r (T.select-IsUnique s) h
      either (some q) f h =
          (first_where-find tagged rs r (T.select-IsUnique s) (unfold or_else in f ∙ h)).0

      go :
          (b : Bool)
          → (if b
              then first_where (λ q. L.has_item image_id q.rest.repo_digests) rs
              else or_else (first_where tagged rs) (only_one (filter named rs)))
            ≡ some r
          → find r.key rs ≡ some r
      go true h =
          (first_where-find (λ q. L.has_item image_id q.rest.repo_digests) rs r
            (T.select-IsUnique s) h).0
      go false h = either (first_where tagged rs) refl h
