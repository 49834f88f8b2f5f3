-- ===== src/Docker/Peers.antt =====
-- plugins/beiran_interface_docker: the layers of a peer (save_layer_at_node, fetch_layers_from_peer
-- and sync of plugin_docker.py, with save_local_paths of util.py).
-- The directories of the cache, of which the container plugin gives the paths of files.
-- The images and the layers that the peer's daemon sends are arguments; a request may also raise.
pub mod Added
pub mod Synced
use beiran.Base.{Bool, List, Option, Text, [], false, if◌then◌else◌, none, some, true, ◌∷◌}
use beiran.Container.Layers.{Source, get_layer_gz_file, get_layer_tar_file}
use beiran.Container.Model.{Row, set_available_at}
use beiran.Container.Store.{fetch_images_from_peer, reset_info_of_node}
use beiran.Container.Table.{Table}
use beiran.Docker.LayerTable.{Layer, LayerTable, get_by_diff_id}
use beiran.Docker.Storage.{Outcome, Storage, done, get_cache_id_from_chain_id, layerdir_path}
use beiran.Docker.Storage.{no_file, no_index, or_raise, raises, ◌>>=◌}

-- `x if os.path.exists(x) else None`
if_exists : (Text → Bool) → Text → Option Text
if_exists exists path = if exists path then some path else none

-- `FileNotFoundError` is caught.
docker_path_of : Storage → Outcome Text → Outcome (Option Text)
docker_path_of D (done cache_id) = done (if_exists D.exists (layerdir_path D cache_id))
docker_path_of D (raises no_file) = done none
docker_path_of D (raises e) = raises e

-- `if layer.digest`
unfoldable pub truthy_digest : Option Text → Option Text
truthy_digest none = none
truthy_digest (some []) = none
truthy_digest (some (c ∷ s)) = some (c ∷ s)

module _ (D : Storage) (S : Source) where
  cache_gz_path_of : Option Text → Option Text → Outcome (Option Text)
  cache_gz_path_of none old = done old
  cache_gz_path_of (some digest) old = do
    path ← or_raise no_index (get_layer_gz_file S digest)
    done (if_exists D.exists path)

  unfoldable pub save_local_paths : Layer → Outcome Layer
  unfolding docker_path_of truthy_digest cache_gz_path_of if_exists
  save_local_paths layer = do
    docker ← docker_path_of D (get_cache_id_from_chain_id D layer.rest.chain_id)
    tar ← or_raise no_index (get_layer_tar_file S layer.rest.diff_id)
    gz ← cache_gz_path_of (truthy_digest layer.rest.digest) layer.rest.cache_gz_path
    done (record layer {
      rest = record layer.rest {
        docker_path = docker;
        cache_path = if_exists D.exists tar;
        cache_gz_path = gz;
      };
    })

  module _ (T : LayerTable) where
    abbrev Layers : Type 0
    Layers = Table.State T.table

    abbrev saved : (Layer → Layers) → Outcome Layer → Layers → Layers × Bool
    saved save (done r) s = (save r, true)
    saved save (raises e) s = (s, false)

    -- Below the lookup of the layer.
    save_layer_found : Text → Layer → Option Layer → Layers → Layers × Bool
    save_layer_found uuid layer (some r) s =
        saved (λ q. Table.save T.table q s) (save_local_paths (set_available_at uuid r)) s
    save_layer_found uuid layer none s =
        saved (λ q. T.insert q s)
          (save_local_paths (record layer {
            available_at = uuid ∷ [];
            rest = record layer.rest { local_image_refs = [] };
          }))
          s

    -- The flag is false if an exception is raised.
    unfoldable pub save_layer_at_node : Layer → Text → Layers → Layers × Bool
    unfolding save_layer_found
    save_layer_at_node layer uuid s =
        save_layer_found uuid layer (get_by_diff_id T layer.rest.diff_id s) s

    go_on : (Layers → Layers × Bool) → Layers × Bool → Layers × Bool
    go_on rest (s, true) = rest s
    go_on rest (s, false) = (s, false)

    unfoldable pub fetch_layers_from_peer : List Layer → Text → Layers → Layers × Bool
    unfolding go_on
    fetch_layers_from_peer [] uuid s = (s, true)
    fetch_layers_from_peer (layer ∷ layers) uuid s =
        go_on (λ t. fetch_layers_from_peer layers uuid t) (save_layer_at_node layer uuid s)

    module _ {V : Type 0} (Images : Table V) where
      with_layers : Images.State → Layers × Bool → (Images.State × Layers) × Bool
      with_layers i (l, fine) = ((i, l), fine)

      -- `fetch_layers_from_peer`, where the request for the layers may raise
      sync_layers :
          Option (List Layer) → Text → Images.State × Layers → (Images.State × Layers) × Bool
      sync_layers none uuid (i, l) = ((i, l), false)
      sync_layers (some layers) uuid (i, l) = with_layers i (fetch_layers_from_peer layers uuid l)

      -- `fetch_images_from_peer`, where the request for the images may raise, and what follows it
      sync_images :
          Option (List (Row V))
          → Option (List Layer)
          → Text
          → Images.State × Layers
          → (Images.State × Layers) × Bool
      sync_images none layers uuid (i, l) = ((i, l), false)
      sync_images (some images) layers uuid (i, l) =
          sync_layers layers uuid (fetch_images_from_peer Images images uuid i, l)

      -- `DockerInterface.sync`, for the node of the peer; `none` for a request that raises.
      unfoldable pub sync :
          Option (List (Row V))
          → Option (List Layer)
          → Text
          → Images.State × Layers
          → (Images.State × Layers) × Bool
      unfolding with_layers sync_layers sync_images
      sync images layers uuid s =
          sync_images images layers uuid (reset_info_of_node Images T.table uuid s)
