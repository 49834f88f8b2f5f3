-- ===== src/Docker/Events/Tests.antt =====
-- The theorems on the plugin of docker's daemon at concrete inputs, and runs of it.
use beiran.Base.{[], arith, codes, has, member, refl, same, some, split_text}
use beiran.Base.{starts_with, true, ◌∷◌, ◌≡◌, ◌⊎◌}
use beiran.Base.Dict.{insert, lookup, values}
use beiran.Container.Fetch.{at_node}
use beiran.Container.Layers.{get_layer_gz_file, get_layer_tar_file, path_join}
use beiran.Container.ListTable.{list_table, put}
use beiran.Container.Model.{filter, find, set_available_at}
use beiran.Container.Rows.{first_where, write_rows}
use beiran.Container.Store.{delete_unavailable, delete_unavailable_objects, reset_info_of_node}
use beiran.Container.Store.{reset_rows}
use beiran.Container.Tags.{ImageColumns, get_image_data, remove, set_tag, set_tags, tag_image}
use beiran.Docker.Events.{probe_daemon, probe_images}
use beiran.Docker.Events.Probed.{probe_daemon_lem}
use beiran.Docker.Images.{get_image_layers, get_layer_by_diffid}
use beiran.Docker.Interface.{DockerPlugin, image_of, save_image, save_layer}
use beiran.Docker.LayerTable.{get_by_diff_id, set_local_image_refs}
use beiran.Docker.LayerTable.ListLayers.{list_layers}
use beiran.Docker.Mappings.{get_diffid_mappings, get_digest_by_diffid, get_layerdb_mappings}
use beiran.Docker.Mappings.{has_digest, strip}
use beiran.Docker.Peers.{truthy_digest}
use beiran.Docker.Samples.{docker_daemon, docker_source, docker_storage, exact_like}
use beiran.Docker.Samples.{none_layers, plugin_with}
use beiran.Docker.Storage.{DockerError, get_cache_id_from_chain_id}
use beiran.ImageRef.{add_default_tag, add_idpref, del_idpref, is_digest}
use beiran.Plugin.{is_status, set_status}
use beiran.Subpath.{int, is_space, strip_left}

abbrev probed :
    DockerPlugin docker_storage docker_source exact_like docker_daemon
      (list_table ImageColumns)
      list_layers
unfolding find
probed =
    probe_daemon docker_storage docker_source exact_like docker_daemon (list_table ImageColumns)
      list_layers (codes "sha256:b" ∷ []) (codes "sha256:b" ∷ []) (plugin_with ([], tt) none_layers)

probe_daemon_lem_example :
    ((probed.plugin_status.status ≡ some (codes "ready"))
      × (at_node (codes "n1") (find (codes "sha256:b") probed.images.0) ≡ true))
    ⊎ ((probed.plugin_status.status ≡ some (codes "error"))
        × ((e : DockerError) × (probed.last_error ≡ some e)))
unfolding same member find
probe_daemon_lem_example =
    probe_daemon_lem docker_storage docker_source exact_like docker_daemon (list_table ImageColumns)
      list_layers (codes "n1") (codes "sha256:b") (codes "sha256:b" ∷ []) (codes "sha256:b" ∷ [])
      (plugin_with ([], tt) none_layers) (λ d e. ground arith, tt)

-- This run ends well.
probe_daemon_ready : probed.plugin_status.status ≡ some (codes "ready")
unfolding probe_daemon probe_images save_image find same get_image_layers get_layer_by_diffid
    get_digest_by_diffid get_layerdb_mappings get_diffid_mappings lookup insert del_idpref
    split_text starts_with get_by_diff_id first_where set_local_image_refs member int strip
    strip_left is_space get_cache_id_from_chain_id get_layer_tar_file path_join get_layer_gz_file
    truthy_digest add_idpref values image_of set_available_at tag_image get_image_data is_digest has
    add_default_tag set_status is_status put save_layer filter set_tag set_tags write_rows
    reset_info_of_node delete_unavailable_objects delete_unavailable reset_rows remove has_digest
probe_daemon_ready = refl
