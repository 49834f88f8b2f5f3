-- ===== src/Docker/Images/Filled.antt =====
-- The layer that get_layer_by_diffid of plugins/beiran_interface_docker/util.py fills in, and the files
-- that it cannot do without.
use beiran.Base.{List, Option, Text, arith, inl, inr, none, refl}
use beiran.Base.{some, ℤ, ◌≡◌, ◌⊎◌}
use beiran.Container.Layers.{Source, get_layer_gz_file, get_layer_tar_file}
use beiran.Docker.Images.{fill_layer}
use beiran.Docker.Images.{gz_path_of}
use beiran.Docker.Images.{keep_path}
use beiran.Docker.Images.{number}
use beiran.Docker.Images.{size_path}
use beiran.Docker.LayerTable.{Layer}
use beiran.Docker.Mappings.{strip}
use beiran.Docker.Peers.{truthy_digest}
use beiran.Docker.Storage.{>>=-eq-done}
use beiran.Docker.Storage.{>>=-eq-raises}
use beiran.Docker.Storage.{DockerError}
use beiran.Docker.Storage.{Storage}
use beiran.Docker.Storage.{cache_id_file}
use beiran.Docker.Storage.{done}
use beiran.Docker.Storage.{get_cache_id_from_chain_id}
use beiran.Docker.Storage.{layerdir_path}
use beiran.Docker.Storage.{no_file}
use beiran.Docker.Storage.{no_index}
use beiran.Docker.Storage.{no_index-no_file}
use beiran.Docker.Storage.{or_raise, raises, read}
use beiran.Subpath.{Result, err, int, ok}

module _ (D : Storage) where
  or_raise-eq-raises :
      {A : Type 0} (e : DockerError) (o : Option A) → or_raise e o ≡ raises no_file → o ≡ none
  or_raise-eq-raises e none h = refl
  or_raise-eq-raises e (some b) h = absurd cc

  number-no_file : (x : Result ℤ) → ¬ (number x ≡ raises no_file)
  unfolding number
  number-no_file (ok n) h = absurd cc
  number-no_file (err e) h = absurd cc

  or_raise-eq-done :
      {A : Type 0} (e : DockerError) (o : Option A) (a : A) → or_raise e o ≡ done a → o ≡ some a
  or_raise-eq-done e none a h = cc
  or_raise-eq-done e (some b) a h = ground arith

  module _ (S : Source) where
    abbrev pub IsFilled : Text → Text → List Text → Layer → Type 0
    IsFilled diffid chain_id refs r =
        (r.rest.diff_id ≡ diffid)
        × (r.rest.chain_id ≡ chain_id)
        × (r.rest.local_image_refs ≡ refs)
        × ((cache : Text) × (D.file (cache_id_file D chain_id) ≡ some cache)
            × (r.rest.docker_path ≡ some (layerdir_path D cache)))

    pub fill_layer-IsFilled :
        (diffid image_id chain_id : Text) (digest : Option Text) (layer r : Layer)
        → fill_layer D S diffid image_id digest layer chain_id ≡ done r
        → IsFilled diffid chain_id layer.rest.local_image_refs r
    unfolding fill_layer get_cache_id_from_chain_id
    fill_layer-IsFilled diffid image_id chain_id digest layer r h =
        let (a, _, h1) = >>=-eq-done (read D (size_path D chain_id)) _ h in
        let (n, _, h2) = >>=-eq-done (number (int (strip a))) _ h1 in
        let (cache, e, h3) = >>=-eq-done (read D (cache_id_file D chain_id)) _ h2 in
        let (tar, _, h4) = >>=-eq-done (or_raise no_index (get_layer_tar_file S diffid)) _ h3 in
        let (gz, _, h5) =
          >>=-eq-done (gz_path_of D S (truthy_digest digest) layer.rest.cache_gz_path) _ h4 in
        (
          ground arith,
          ground arith,
          ground arith,
          (
            cache,
            or_raise-eq-done no_file (D.file (cache_id_file D chain_id)) cache e,
            ground arith,
          ),
        )

    gz_path_of-no_file : (o old : Option Text) → ¬ (gz_path_of D S o old ≡ raises no_file)
    unfolding gz_path_of
    gz_path_of-no_file none old h = absurd cc
    gz_path_of-no_file (some digest) old h =
        elim (>>=-eq-raises (or_raise no_index (get_layer_gz_file S digest))
          (λ path. done (keep_path D.exists path old)) no_file h) [
            | inl e ↦ no_index-no_file _ e
            | inr (path, _, e) ↦ absurd cc
          ]

    pub fill_layer-no_file :
        (diffid image_id chain_id : Text) (digest : Option Text) (layer : Layer)
        → fill_layer D S diffid image_id digest layer chain_id ≡ raises no_file
        → (D.file (size_path D chain_id) ≡ none) ⊎ (D.file (cache_id_file D chain_id) ≡ none)
    unfolding fill_layer get_cache_id_from_chain_id
    fill_layer-no_file diffid image_id chain_id digest layer h =
        elim (>>=-eq-raises (read D (size_path D chain_id)) _ no_file h) [
          | inl e ↦ inl (or_raise-eq-raises no_file _ e)
          | inr (a, _, h1) ↦ elim (>>=-eq-raises (number (int (strip a))) _ no_file h1) [
            | inl e ↦ absurd (number-no_file _ e)
            | inr (n, _, h2) ↦
                elim (>>=-eq-raises (read D (cache_id_file D chain_id)) _ no_file h2) [
                  | inl e ↦ inr (or_raise-eq-raises no_file _ e)
                  | inr (cache, _, h3) ↦
                      elim (>>=-eq-raises (or_raise no_index (get_layer_tar_file S diffid)) _
                        no_file h3) [
                          | inl e ↦ absurd (no_index-no_file _ e)
                          | inr (tar, _, h4) ↦
                              elim (>>=-eq-raises
                                (gz_path_of D S (truthy_digest digest) layer.rest.cache_gz_path) _
                                no_file h4) [
                                  | inl e ↦ absurd (gz_path_of-no_file _ _ e)
                                  | inr (gz, _, h5) ↦ absurd cc
                                ]
                        ]
                ]
          ]
        ]
