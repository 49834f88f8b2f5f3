-- ===== src/Docker/Images/Ordered.antt =====
-- What get_image_layers of plugins/beiran_interface_docker/util.py gives.
use beiran.Base.{
  Bool, List, Text, [], arith, false, inl, inr, refl, sym, true, ℕ, ◌+◌, ◌==◌, ◌∷◌, ◌≡◌, ◌⊎◌,
}
use beiran.Container.Layers.{Source}
use beiran.Container.Table.{Table}
use beiran.Docker.Images.{add_layer, get_image_layers, get_layer_by_diffid, layers_from}
use beiran.Docker.Images.{next_layer}
use beiran.Docker.Images.Chained.{IsDone, IsLocal, IsLost, Made, get_layer_by_diffid-Made}
use beiran.Docker.LayerTable.{Layer, LayerTable}
use beiran.Docker.Mappings.{Mappings}
use beiran.Docker.Mappings.Sources.{IsSourced, ReadsJson}
use beiran.Docker.Storage.{Outcome, Storage, bad_json, bad_number, cannot_find_layer_mapping}
use beiran.Docker.Storage.{daemon_failed, done, layer_metadata_not_found, layer_not_found}
use beiran.Docker.Storage.{no_attribute, no_file, no_image, no_index, no_key, no_node, no_value}
use beiran.Docker.Storage.{raises}

module _ (D : Storage) (S : Source) (T : LayerTable) (s : Table.State T.table) where
  -- The layers of an image, in its order. One is left out only if it is lost.
  abbrev pub AreLayers : Bool → Text → List Text → List Layer → Type 0
  AreLayers first image_id [] [] = Unit
  AreLayers first image_id [] (r ∷ rs) = ⊥
  AreLayers first image_id (d ∷ ds) [] = IsLost D first d × AreLayers false image_id ds []
  AreLayers first image_id (d ∷ ds) (r ∷ rs) =
      (IsLocal D first image_id r × (r.rest.diff_id ≡ d) × AreLayers false image_id ds rs)
      ⊎ (IsLost D first d × AreLayers false image_id ds (r ∷ rs))

  abbrev AllMade : Bool → Text → List Text → Mappings × Outcome (List Layer) → Type 0
  AllMade first image_id ds out = IsSourced D out.0 × IsDone (AreLayers first image_id ds) out.1

  AreLayers-skip :
      (first : Bool) (image_id d : Text) (ds : List Text) (rs : List Layer)
      → IsLost D first d
      → AreLayers false image_id ds rs
      → AreLayers first image_id (d ∷ ds) rs
  AreLayers-skip first image_id d ds [] lost h = (lost, h)
  AreLayers-skip first image_id d ds (r ∷ rs) lost h = inr (lost, h)

  skip-AllMade :
      (first : Bool) (image_id d : Text) (ds : List Text) (out : Mappings × Outcome (List Layer))
      → IsLost D first d
      → AllMade false image_id ds out
      → AllMade first image_id (d ∷ ds) out
  skip-AllMade first image_id d ds (m, done rs) lost h =
      (h.0, AreLayers-skip first image_id d ds rs lost h.1)
  skip-AllMade first image_id d ds (m, raises e) lost h = (h.0, tt)

  add_layer-AllMade :
      (first : Bool) (image_id d : Text) (ds : List Text) (r : Layer)
      (out : Mappings × Outcome (List Layer))
      → IsLocal D first image_id r × (r.rest.diff_id ≡ d)
      → AllMade false image_id ds out
      → AllMade first image_id (d ∷ ds) (add_layer D S T s r out)
  unfolding add_layer
  add_layer-AllMade first image_id d ds r (m, done rs) k h = (h.0, inl (k.0, k.1, h.1))
  add_layer-AllMade first image_id d ds r (m, raises e) k h = (h.0, tt)

  next_layer-AllMade :
      (first : Bool) (image_id d : Text) (ds : List Text)
      → (rest : Mappings → Mappings × Outcome (List Layer)) (out : Mappings × Outcome Layer)
      → Made D first d image_id out
      → ((m : Mappings) → IsSourced D m → AllMade false image_id ds (rest m))
      → AllMade first image_id (d ∷ ds) (next_layer D S T s rest out)
  unfolding next_layer
  next_layer-AllMade first image_id d ds rest (m, done r) h k =
      add_layer-AllMade first image_id d ds r (rest m) h.1 (k m h.0)
  next_layer-AllMade first image_id d ds rest (m, raises no_file) h k =
      skip-AllMade first image_id d ds (rest m) (h.2 refl) (k m h.0)
  next_layer-AllMade first image_id d ds rest (m, raises no_key) h k = (h.0, tt)
  next_layer-AllMade first image_id d ds rest (m, raises no_index) h k = (h.0, tt)
  next_layer-AllMade first image_id d ds rest (m, raises bad_number) h k = (h.0, tt)
  next_layer-AllMade first image_id d ds rest (m, raises bad_json) h k = (h.0, tt)
  next_layer-AllMade first image_id d ds rest (m, raises no_attribute) h k = (h.0, tt)
  next_layer-AllMade first image_id d ds rest (m, raises no_value) h k = (h.0, tt)
  next_layer-AllMade first image_id d ds rest (m, raises no_node) h k = (h.0, tt)
  next_layer-AllMade first image_id d ds rest (m, raises no_image) h k = (h.0, tt)
  next_layer-AllMade first image_id d ds rest (m, raises daemon_failed) h k = (h.0, tt)
  next_layer-AllMade first image_id d ds rest (m, raises cannot_find_layer_mapping) h k = (h.0, tt)
  next_layer-AllMade first image_id d ds rest (m, raises layer_not_found) h k = (h.0, tt)
  next_layer-AllMade first image_id d ds rest (m, raises layer_metadata_not_found) h k = (h.0, tt)

  module _ (json_reads : ReadsJson D) where
    layers_from-AllMade :
        (first : Bool) (ds : List Text) (idx : ℕ) (image_id : Text) (m : Mappings)
        → (idx == 0) ≡ first
        → IsSourced D m
        → AllMade first image_id ds (layers_from D S T s idx ds image_id m)
    unfolding layers_from
    layers_from-AllMade first [] idx image_id m e h = (h, tt)
    layers_from-AllMade first (d ∷ ds) idx image_id m e h =
        next_layer-AllMade first image_id d ds (λ n. layers_from D S T s (idx + 1) ds image_id n)
          (get_layer_by_diffid D S T s d idx image_id m)
          (rw (sym e) (get_layer_by_diffid-Made D json_reads S T s d idx image_id m h))
          (λ n k. layers_from-AllMade false ds (idx + 1) image_id n (ground arith) k)

    -- If the entries of the mappings come from docker's files, they still do after get_image_layers.
    -- The layers that it returns are those of the diff ids, in the order of these: the image refers to
    -- each of them, the chain id of the first layer is its diff id and that of another one the one
    -- that docker's layer database has for the diff id, and its directory is the one that docker's
    -- `cache-id` names. A diff id is left out only if docker has no `size` or no `cache-id` for its
    -- chain id. What is JSON in docker's files is read without a FileNotFoundError.
    pub get_image_layers-AreLayers :
        (ds : List Text) (image_id : Text) (m : Mappings)
        → IsSourced D m
        → IsSourced D (get_image_layers D S T s ds image_id m).0
          × IsDone (AreLayers true image_id ds) (get_image_layers D S T s ds image_id m).1
    unfolding get_image_layers
    get_image_layers-AreLayers ds image_id m h = layers_from-AllMade true ds 0 image_id m refl h
