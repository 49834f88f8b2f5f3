-- ===== src/Container/Tags.antt =====
-- The images of plugins/beiran_package_container: how one is found (get_image_data and
-- get_available_nodes of models.py) and tagged (tag_image of container.py).
-- The columns that no function here looks at are left out.
pub mod Found
pub mod Kept
pub mod Moved
mod Tests
use beiran.Base.{Bool, List, Option, Text, [], false, if◌then◌else◌, member, none, not, same}
use beiran.Base.{some, true, ℕ, ◌∷◌}
use beiran.Container.Model.{Row, filter}
use beiran.Container.Rows.{first_where}
use beiran.Container.Table.{Table}
use beiran.ImageRef.{add_default_tag, add_idpref, is_digest}

pub record ImageColumns : Type 0 where
  pub created_at : ℕ
  pub parent_hash_id : Option Text
  pub size : ℕ
  pub tags : List Text
  pub repo_digests : List Text
  pub layers : List Text
  pub config : Text

abbrev pub Image : Type 0
Image = Row ImageColumns

-- The comparisons of the database: `LIKE '%"x"%'` on the JSON text of a list, and `LIKE 'x%'`.
pub record Like : Type 0 where
  pub has_item : Text → List Text → Bool
  pub has_prefix : Text → Text → Bool

only_one : List Image → Option Image
only_one [] = none
only_one (r ∷ []) = some r
only_one (r ∷ q ∷ rs) = none

or_else : Option Image → Option Image → Option Image
or_else none other = other
or_else (some r) other = some r

unfoldable pub set_tags : List Text → Image → Image
set_tags tags r = record r { rest = record r.rest { tags = tags } }

-- `tags.remove(tag)`, for a tag that is there
unfoldable pub remove : Text → List Text → List Text
remove tag [] = []
remove tag (t ∷ ts) = let rest = remove tag ts in if same t tag then ts else t ∷ rest

module _ (L : Like) (T : Table ImageColumns) where
  -- `none` is DoesNotExist.
  unfoldable pub get_image_data : Text → T.State → Option Image
  unfolding only_one or_else
  get_image_data image_identifier s =
      if is_digest image_identifier
      then first_where (λ r. L.has_item image_identifier r.rest.repo_digests) (T.select s)
      else or_else
          (first_where (λ r. L.has_item (add_default_tag image_identifier) r.rest.tags)
            (T.select s))
          (only_one (filter (λ r. L.has_prefix (add_idpref image_identifier) r.key) (T.select s)))

  nodes_of : Option Image → List Text
  nodes_of none = []
  nodes_of (some r) = r.available_at

  unfoldable pub get_available_nodes : Text → T.State → List Text
  unfolding nodes_of
  get_available_nodes image_identifier s = nodes_of (get_image_data image_identifier s)

  unfoldable pub set_tag : Text → Image → T.State → T.State
  set_tag tag target s =
      if not (member tag target.rest.tags) then T.save (set_tags (tag ∷ []) target) s else s

  -- The loop over the images whose tags fit; `remove` raises a ValueError where the tag is missing.
  untag_others : Text → Text → List Image → T.State → T.State × Bool
  untag_others tag target_id [] s = (s, true)
  untag_others tag target_id (r ∷ rs) s =
      let skipped = untag_others tag target_id rs s in
      let untagged =
        untag_others tag target_id rs (T.save (set_tags (remove tag r.rest.tags) r) s) in
      if same r.key target_id
      then skipped
      else if member tag r.rest.tags
      then untagged
      else (s, false)

  tag_target : Text → Option Image → T.State → T.State × Bool
  tag_target tag none s = (s, false)
  tag_target tag (some target) s =
      let t = set_tag tag target s in
      untag_others tag target.key (filter (λ r. L.has_item tag r.rest.tags) (T.select t)) t

  -- The flag is false if DoesNotExist or ValueError is raised.
  unfoldable pub tag_image : Text → Text → T.State → T.State × Bool
  unfolding set_tag untag_others tag_target
  tag_image image_id tag s = tag_target tag (get_image_data image_id s) s
