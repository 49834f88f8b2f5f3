-- ===== src/Docker/Images/Chained.antt =====
-- What get_layer_by_diffid of plugins/beiran_interface_docker/util.py gives.
use beiran.Base.{Bool, Option, Text, [], ap, arith, false, inl, member, none, refl}
use beiran.Base.{same_refl, some, true, ℕ, ◌==◌, ◌∙◌, ◌∷◌, ◌≡◌, ◌⊎◌}
use beiran.Base.Dict.{lookup}
use beiran.Container.Layers.{Source}
use beiran.Container.Model.{member-append}
use beiran.Container.Table.{Table}
use beiran.Docker.Images.{chain_id_at, chain_id_of_key, fill_layer, get_layer_by_diffid}
use beiran.Docker.Images.{known_digest}
use beiran.Docker.Images.{or_new}
use beiran.Docker.Images.{size_path}
use beiran.Docker.Images.{stored_digest}
use beiran.Docker.Images.{with_chain_id, with_digest}
use beiran.Docker.Images.Filled.{fill_layer-IsFilled, fill_layer-no_file}
use beiran.Docker.LayerTable.{Layer, LayerTable, get_by_diff_id, set_local_image_refs}
use beiran.Docker.Mappings.{Mappings, get_digest_by_diffid, get_layerdb_mappings}
use beiran.Docker.Mappings.Sources.{HasChainId}
use beiran.Docker.Mappings.Sources.{IsSourced}
use beiran.Docker.Mappings.Sources.{ReadsJson}
use beiran.Docker.Mappings.Sources.{get_layerdb_mappings-IsSourced}
use beiran.Docker.Mappings.Sources.{get_digest_by_diffid-no_file, insert_digest-IsSourced}
use beiran.Docker.Storage.{Outcome}
use beiran.Docker.Storage.{Storage}
use beiran.Docker.Storage.{cache_id_file}
use beiran.Docker.Storage.{done}
use beiran.Docker.Storage.{layerdir_path}
use beiran.Docker.Storage.{no_file}
use beiran.Docker.Storage.{no_key}
use beiran.Docker.Storage.{no_key-no_file}
use beiran.Docker.Storage.{or_raise, raises}

abbrev pub IsDone {ℓ} : {A : Type 0} → (A → Type ℓ) → Outcome A → Type ℓ
IsDone P (done a) = P a
IsDone P (raises e) = Unit

module _ (D : Storage) where
  -- The chain id of a layer: the diff id for the first one of an image, and that of docker for others.
  abbrev pub IsChain : Bool → Text → Text → Type 0
  IsChain true diffid chain_id = chain_id ≡ diffid
  IsChain false diffid chain_id = HasChainId D diffid chain_id

  -- The layer has its chain id, the image refers to it, and its directory is the one that docker's
  -- `cache-id` names.
  abbrev pub IsLocal : Bool → Text → Layer → Type 0
  IsLocal first image_id r =
      (member image_id r.rest.local_image_refs ≡ true)
      × IsChain first r.rest.diff_id r.rest.chain_id
      × ((cache : Text) × (D.file (cache_id_file D r.rest.chain_id) ≡ some cache)
          × (r.rest.docker_path ≡ some (layerdir_path D cache)))

  -- Docker has no file `size` or no file `cache-id` for the chain id of the layer.
  abbrev pub IsLost : Bool → Text → Type 0
  IsLost first diffid =
      (c : Text) × IsChain first diffid c
      × ((D.file (size_path D c) ≡ none) ⊎ (D.file (cache_id_file D c) ≡ none))

  abbrev pub Made : Bool → Text → Text → Mappings × Outcome Layer → Type 0
  Made first diffid image_id out =
      IsSourced D out.0
      × IsDone (λ r. IsLocal first image_id r × (r.rest.diff_id ≡ diffid)) out.1
      × (out.1 ≡ raises no_file → IsLost first diffid)

  known_digest-IsSourced :
      (diffid : Text) (m : Mappings) (o : Option (Option Text))
      → IsSourced D m
      → IsSourced D (known_digest D diffid m o).0
  unfolding known_digest stored_digest
  known_digest-IsSourced diffid m (some g) h = h
  known_digest-IsSourced diffid m none h = go (get_digest_by_diffid D diffid) refl
    where
      go :
          (o : Outcome (Option Text))
          → get_digest_by_diffid D diffid ≡ o
          → IsSourced D (stored_digest D diffid m o).0
      go (done g) e = insert_digest-IsSourced D diffid g m (inl e) h
      go (raises k) e = h

  -- The chain id of the diff id.
  abbrev IsChained : Bool → Text → Mappings × Outcome Text → Type 0
  IsChained first diffid out =
      IsSourced D out.0 × IsDone (λ c. IsChain first diffid c) out.1 × ¬ (out.1 ≡ raises no_file)

  chain_id_at-IsChained :
      (first : Bool) (diffid : Text) (m : Mappings)
      → IsSourced D m
      → IsChained first diffid (chain_id_at D first diffid m)
  unfolding chain_id_at chain_id_of_key
  chain_id_at-IsChained true diffid m h = (h, refl, λ e. absurd cc)
  chain_id_at-IsChained false diffid m h = go (lookup diffid m.layerdb_mapping) refl
    where
      n : Mappings
      n = (get_layerdb_mappings D m).0

      read_again : IsSourced D n
      read_again = get_layerdb_mappings-IsSourced D m h

      found :
          (o : Option Text)
          → lookup diffid n.layerdb_mapping ≡ o
          → IsDone (λ c. HasChainId D diffid c) (or_raise no_key o)
      found none e = tt
      found (some c) e = read_again.chain_ids diffid c e

      go :
          (o : Option Text)
          → lookup diffid m.layerdb_mapping ≡ o
          → IsChained false diffid (chain_id_of_key D diffid m o)
      go none e = (
        read_again,
        found (lookup diffid n.layerdb_mapping) refl,
        no_key-no_file (lookup diffid n.layerdb_mapping),
      )
      go (some c) e = (h, h.chain_ids diffid c e, λ f. absurd cc)

  refs-set :
      (image_id : Text) (r : Layer)
      → member image_id (set_local_image_refs image_id r).rest.local_image_refs ≡ true
  unfolding set_local_image_refs member
  refs-set image_id r =
      ground
        (arith, member-append image_id r.rest.local_image_refs (image_id ∷ []), same_refl image_id)

  chained :
      (first : Bool) (diffid chain d c : Text)
      → d ≡ diffid
      → c ≡ chain
      → IsChain first diffid chain
      → IsChain first d c
  chained first diffid chain d c p q h = rw (p, q) h

  module _ (json_reads : ReadsJson D) where
    known_digest-no_file :
        (diffid : Text) (m : Mappings) (o : Option (Option Text))
        → ¬ ((known_digest D diffid m o).1 ≡ raises no_file)
    unfolding known_digest stored_digest
    known_digest-no_file diffid m (some g) h = absurd cc
    known_digest-no_file diffid m none h = go (get_digest_by_diffid D diffid) refl h
      where
        go :
            (o : Outcome (Option Text))
            → get_digest_by_diffid D diffid ≡ o
            → ¬ ((stored_digest D diffid m o).1 ≡ raises no_file)
        go (done g) e f = absurd cc
        go (raises k) e f = get_digest_by_diffid-no_file D json_reads diffid (e ∙ f)

    module _ (S : Source) (T : LayerTable) (s : Table.State T.table) where
      with_chain_id-Made :
          (diffid image_id : Text) (first : Bool) (digest : Option Text)
          (out : Mappings × Outcome Text)
          → IsChained first diffid out
          → Made first diffid image_id (with_chain_id D S T s diffid image_id digest out)
      unfolding with_chain_id
      with_chain_id-Made diffid image_id first digest (m, raises e) h =
          (h.0, tt, λ f. absurd (h.2 cc))
      with_chain_id-Made diffid image_id first digest (m, done c) h = (
        h.0,
        go (fill_layer D S diffid image_id digest layer c) refl,
        λ f. (c, h.1, fill_layer-no_file D S diffid image_id c digest layer f),
      )
        where
          layer : Layer
          layer = set_local_image_refs image_id (or_new digest (get_by_diff_id T diffid s))

          go :
              (o : Outcome Layer)
              → fill_layer D S diffid image_id digest layer c ≡ o
              → IsDone (λ r. IsLocal first image_id r × (r.rest.diff_id ≡ diffid)) o
          go (raises k) e = tt
          go (done r) e =
              let (own, chain, refs, (cache, named, path)) =
                fill_layer-IsFilled D S diffid image_id c digest layer r e in
              (
                (
                  ap (λ l. member image_id l) refs
                      ∙ refs-set image_id (or_new digest (get_by_diff_id T diffid s)),
                  chained first diffid c r.rest.diff_id r.rest.chain_id own chain h.1,
                  (cache, ap (λ x. D.file (cache_id_file D x)) chain ∙ named, path),
                ),
                own,
              )

      with_digest-Made :
          (diffid image_id : Text) (first : Bool) (out : Mappings × Outcome (Option Text))
          → IsSourced D out.0
          → ¬ (out.1 ≡ raises no_file)
          → Made first diffid image_id (with_digest D S T s diffid first image_id out)
      unfolding with_digest
      with_digest-Made diffid image_id first (m, raises e) h k = (h, tt, λ f. absurd (k cc))
      with_digest-Made diffid image_id first (m, done g) h k =
          with_chain_id-Made diffid image_id first g (chain_id_at D first diffid m)
            (chain_id_at-IsChained first diffid m h)

      pub get_layer_by_diffid-Made :
          (diffid : Text) (idx : ℕ) (image_id : Text) (m : Mappings)
          → IsSourced D m
          → Made (idx == 0) diffid image_id (get_layer_by_diffid D S T s diffid idx image_id m)
      unfolding get_layer_by_diffid
      get_layer_by_diffid-Made diffid idx image_id m h =
          let o = lookup diffid m.diffid_mapping in
          with_digest-Made diffid image_id (idx == 0) (known_digest D diffid m o)
            (known_digest-IsSourced diffid m o h) (known_digest-no_file diffid m o)
