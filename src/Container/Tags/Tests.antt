-- ===== src/Container/Tags/Tests.antt =====
-- A tag that is moved from one image to another.
use beiran.Base.{List, Text, [], codes, member, none, refl, same, starts_with}
use beiran.Base.{◌∷◌}
use beiran.Container.ListTable.{list_table}
use beiran.Container.Model.{find, unset}
use beiran.Container.Table.{Table}
use beiran.Container.Tags.{Image, ImageColumns, Like}

abbrev exact : Like
exact = record { has_item = member; has_prefix = λ p t. starts_with t p }

abbrev image_with : Text → List Text → Image
image_with hash_id tags = record {
  key = hash_id;
  available_at = codes "n1" ∷ [];
  download_progress = unset;
  rest = record {
    created_at = 0;
    parent_hash_id = none;
    size = 1;
    tags = tags;
    repo_digests = [];
    layers = [];
    config = [];
  };
}

abbrev old_image : Image
old_image = image_with (codes "sha256:a") (codes "r:1" ∷ codes "r:latest" ∷ [])

abbrev new_image : Image
new_image = image_with (codes "sha256:b") []

abbrev two : Table.State (list_table ImageColumns)
unfolding find same
two = (old_image ∷ new_image ∷ [], (refl, (refl, tt)))
