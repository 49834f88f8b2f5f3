-- ===== src/Docker/Images.antt =====
-- plugins/beiran_interface_docker/util.py: the layers of an image that docker has
-- (get_layer_by_diffid and get_image_layers).
-- Reading the layer table does not change it; the layer is not saved here.
pub mod Chained
pub mod Filled
pub mod Ordered
use beiran.Base.{Bool, List, Option, Text, [], codes, false, if◌then◌else◌, none, pos, some, true}
use beiran.Base.{ℕ, ℤ, ◌++◌, ◌+◌, ◌==◌, ◌∷◌}
use beiran.Base.Dict.{insert, lookup}
use beiran.Container.Layers.{Source, get_layer_gz_file, get_layer_tar_file}
use beiran.Container.Model.{unset}
use beiran.Container.Table.{Table}
use beiran.Docker.LayerTable.{Layer, LayerTable, get_by_diff_id, set_local_image_refs}
use beiran.Docker.Mappings.{Mappings, get_digest_by_diffid, get_layerdb_mappings, strip}
use beiran.Docker.Peers.{truthy_digest}
use beiran.Docker.Storage.{Outcome, Storage, bad_number, done, get_cache_id_from_chain_id}
use beiran.Docker.Storage.{layerdir_path, no_file, no_index, no_key, or_raise, raises, read}
use beiran.Docker.Storage.{replace_colons, ◌>>=◌}
use beiran.Subpath.{Result, err, int, ok}

abbrev no_layer : Layer
no_layer = record {
  key = [];
  available_at = [];
  download_progress = unset;
  rest = record {
    digest = none;
    diff_id = [];
    chain_id = [];
    size = pos 0;
    local_image_refs = [];
    cache_path = none;
    cache_gz_path = none;
    docker_path = none;
  };
}

-- `ContainerLayer()` with the digest, where no row is found
or_new : Option Text → Option Layer → Layer
or_new digest none = record no_layer { rest = record no_layer.rest { digest = digest } }
or_new digest (some r) = r

keep_path : (Text → Bool) → Text → Option Text → Option Text
keep_path exists path old = if exists path then some path else old

number : Result ℤ → Outcome ℤ
number (ok n) = done n
number (err e) = raises bad_number

module _ (D : Storage) where
  -- The digest of the diff id, which is looked up and kept unless it is there.
  stored_digest : Text → Mappings → Outcome (Option Text) → Mappings × Outcome (Option Text)
  stored_digest diffid m (raises e) = (m, raises e)
  stored_digest diffid m (done digest) =
      (record m { diffid_mapping = insert diffid digest m.diffid_mapping }, done digest)

  known_digest : Text → Mappings → Option (Option Text) → Mappings × Outcome (Option Text)
  known_digest diffid m (some digest) = (m, done digest)
  known_digest diffid m none = stored_digest diffid m (get_digest_by_diffid D diffid)

  chain_id_of_key : Text → Mappings → Option Text → Mappings × Outcome Text
  chain_id_of_key diffid m (some c) = (m, done c)
  chain_id_of_key diffid m none =
      let n = (get_layerdb_mappings D m).0 in (n, or_raise no_key (lookup diffid n.layerdb_mapping))

  -- `layer.chain_id`, for the index of the layer in the image.
  chain_id_at : Bool → Text → Mappings → Mappings × Outcome Text
  chain_id_at true diffid m = (m, done diffid)
  chain_id_at false diffid m = chain_id_of_key diffid m (lookup diffid m.layerdb_mapping)

  abbrev pub size_path : Text → Text
  size_path chain_id =
      D.storage ++ (codes "/image/overlay2/layerdb/" ++ (replace_colons chain_id ++ codes "/size"))

  module _ (S : Source) where
    gz_path_of : Option Text → Option Text → Outcome (Option Text)
    gz_path_of none old = done old
    gz_path_of (some digest) old = do
      path ← or_raise no_index (get_layer_gz_file S digest)
      done (keep_path D.exists path old)

    -- Below the chain id.
    pub fill_layer : Text → Text → Option Text → Layer → Text → Outcome Layer
    fill_layer diffid image_id digest layer chain_id = do
      size_str ← read D (size_path chain_id)
      size ← number (int (strip size_str))
      cache_id ← get_cache_id_from_chain_id D chain_id
      tar ← or_raise no_index (get_layer_tar_file S diffid)
      gz ← gz_path_of (truthy_digest digest) layer.rest.cache_gz_path
      done (record layer {
        rest = record layer.rest {
          diff_id = diffid;
          chain_id = chain_id;
          size = size;
          docker_path = some (layerdir_path D cache_id);
          cache_path = keep_path D.exists tar layer.rest.cache_path;
          cache_gz_path = gz;
        };
      })

    module _ (T : LayerTable) (s : Table.State T.table) where
      with_chain_id : Text → Text → Option Text → Mappings × Outcome Text → Mappings × Outcome Layer
      with_chain_id diffid image_id digest (m, raises e) = (m, raises e)
      with_chain_id diffid image_id digest (m, done chain_id) =
          let found = or_new digest (get_by_diff_id T diffid s) in
          (m, fill_layer diffid image_id digest (set_local_image_refs image_id found) chain_id)

      with_digest : Text → Bool → Text → Mappings × Outcome (Option Text) → Mappings × Outcome Layer
      with_digest diffid first image_id (m, raises e) = (m, raises e)
      with_digest diffid first image_id (m, done digest) =
          with_chain_id diffid image_id digest (chain_id_at first diffid m)

      unfoldable pub get_layer_by_diffid : Text → ℕ → Text → Mappings → Mappings × Outcome Layer
      unfolding or_new keep_path number stored_digest known_digest chain_id_of_key chain_id_at
          gz_path_of fill_layer with_chain_id with_digest
      get_layer_by_diffid diffid idx image_id m =
          with_digest diffid (idx == 0) image_id
            (known_digest diffid m (lookup diffid m.diffid_mapping))

      add_layer : Layer → Mappings × Outcome (List Layer) → Mappings × Outcome (List Layer)
      add_layer r (m, done rs) = (m, done (r ∷ rs))
      add_layer r (m, raises e) = (m, raises e)

      -- FileNotFoundError is only logged.
      next_layer :
          (Mappings → Mappings × Outcome (List Layer))
          → Mappings × Outcome Layer
          → Mappings × Outcome (List Layer)
      next_layer rest (m, done r) = add_layer r (rest m)
      next_layer rest (m, raises no_file) = rest m
      next_layer rest (m, raises e) = (m, raises e)

      layers_from : ℕ → List Text → Text → Mappings → Mappings × Outcome (List Layer)
      layers_from idx [] image_id m = (m, done [])
      layers_from idx (diffid ∷ ds) image_id m =
          next_layer (λ n. layers_from (idx + 1) ds image_id n)
            (get_layer_by_diffid diffid idx image_id m)

      unfoldable pub get_image_layers :
          List Text → Text → Mappings → Mappings × Outcome (List Layer)
      unfolding add_layer next_layer layers_from
      get_image_layers diffid_list image_id m = layers_from 0 diffid_list image_id m
