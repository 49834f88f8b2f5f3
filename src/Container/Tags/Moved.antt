-- ===== src/Container/Tags/Moved.antt =====
-- The tags of the images after tag_image of plugins/beiran_package_container/container.py.
use beiran.Base.{Bool, List, Option, Text, [], if◌then◌else◌}
use beiran.Base.{member, none, not, same, some, true}
use beiran.Base.{◌∷◌, ◌≡◌}
use beiran.Container.Table.{Table}
use beiran.Container.Tags.{Image, ImageColumns, Like, remove, set_tags}

module _ (L : Like) (T : Table ImageColumns) where
  -- The database finds just the images that have the tag.
  abbrev pub IsExact : Text → List Image → Type 0
  IsExact tag [] = Unit
  IsExact tag (r ∷ rs) = (L.has_item tag r.rest.tags ≡ member tag r.rest.tags) × IsExact tag rs

  abbrev HaveTag : Text → List Image → Type 0
  HaveTag tag [] = Unit
  HaveTag tag (r ∷ rs) = (member tag r.rest.tags ≡ true) × HaveTag tag rs

  is_other : Text → Image → Bool
  is_other target_id r = not (same r.key target_id)

  untag : Text → Image → Image
  untag tag r = set_tags (remove tag r.rest.tags) r

  -- What becomes of an image.
  unfoldable pub retagged : Text → Image → Option Image → Option Image
  unfolding untag
  retagged tag target none = none
  retagged tag target (some r) =
      if same r.key target.key
      then some (if member tag target.rest.tags then target else set_tags (tag ∷ []) target)
      else some (if member tag r.rest.tags then untag tag r else r)

  tagged_target : Text → Image → Image
  tagged_target tag target =
      if member tag target.rest.tags then target else set_tags (tag ∷ []) target
