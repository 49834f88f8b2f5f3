-- ===== src/Docker/Tests.antt =====
-- Runs of the functions of plugins/beiran_interface_docker, and the theorems at concrete inputs.
use beiran.Base.{
  [], arith, codes, false, inr, member, none, refl, same, some, split_text, starts_with, true,
}
use beiran.Base.{ℕ, ◌&&◌, ◌↔◌, ◌∷◌, ◌≡◌, ◌⊎◌}
use beiran.Base.Dict.{insert, lookup, values}
use beiran.Container.Fetch.{at_node, keys}
use beiran.Container.Layers.{get_layer_gz_file, get_layer_tar_file, path_join}
use beiran.Container.ListTable.{list_table}
use beiran.Container.Model.{filter, find}
use beiran.Container.Rows.{write_rows}
use beiran.Container.Store.{delete_unavailable_objects, reset_info_of_node}
use beiran.Container.Rows.{first_where}
use beiran.Docker.Ensure.{assemble_layer_tar, diffid_of, ensure_docker_having_layer, is_of_digest}
use beiran.Docker.Ensure.{truthy_path}
use beiran.Docker.Ensure.Asked.{ensure_docker_having_layer-IsFound}
use beiran.Docker.Images.{get_image_layers, get_layer_by_diffid}
use beiran.Docker.Images.Chained.{IsDone}
use beiran.Docker.Images.Ordered.{AreLayers, get_image_layers-AreLayers}
use beiran.Docker.LayerTable.{Layer, get_by_diff_id, set_local_image_refs}
use beiran.Docker.LayerTable.Held.{IsHeld}
use beiran.Docker.LayerTable.ListLayers.{list_layers}
use beiran.Docker.Mappings.{get_digest_by_diffid, get_layerdb_mappings, strip}
use beiran.Docker.Mappings.Sources.{IsSourced, ReadsJson, insert_chain_id-IsSourced}
use beiran.Docker.Mappings.Sources.{insert_digest-IsSourced}
use beiran.Docker.Peers.{sync, truthy_digest}
use beiran.Docker.Peers.Added.{diff_ids}
use beiran.Docker.Peers.Synced.{sync_lem}
use beiran.Docker.Samples.{docker_source, docker_storage, layer_d, local_layers, mapped}
use beiran.Docker.Samples.{no_mappings, none_images, none_layers}
use beiran.Docker.Storage.{docker_find_layer_dir_by_digest, done, get_cache_id_from_chain_id}
use beiran.Docker.Storage.{no_key, raises}
use beiran.ImageRef.{add_idpref, del_idpref}
use beiran.Subpath.{int, is_space, strip_left}

sync_lem_example :
    let after =
      sync docker_storage docker_source list_layers
        (list_table ℕ)
        (some [])
        (some (layer_d ∷ []))
        (codes "n1")
        (none_images, none_layers) in
    (after.1 ≡ true)
    × (at_node (codes "n1") (find (codes "sha256:b") after.0.0.0) ≡ false)
    × (IsHeld list_layers (codes "n1") (codes "sha256:d") after.0.1 ↔ (
        ((same (codes "n1") (codes "n1") ≡ false)
          × IsHeld list_layers (codes "n1") (codes "sha256:d") none_layers)
        ⊎ ((same (codes "n1") (codes "n1") && member (codes "sha256:d") (diff_ids (layer_d ∷ [])))
            ≡ true)))
unfolding keys same member
sync_lem_example =
    sync_lem (list_table ℕ) docker_storage docker_source list_layers (codes "n1") (codes "n1")
      (codes "sha256:b") (codes "sha256:d") (some []) (some (layer_d ∷ [])) none_images none_layers

-- The request for the images raises after the reset.
sync_raises :
    sync docker_storage docker_source list_layers
      (list_table ℕ)
      none
      (some (layer_d ∷ []))
      (codes "n1")
      (none_images, none_layers)
    ≡ ((none_images, none_layers), false)
unfolding sync reset_info_of_node delete_unavailable_objects filter write_rows
sync_raises = refl

no_mappings-IsSourced : IsSourced docker_storage no_mappings
unfolding lookup
no_mappings-IsSourced = record {
  digests = λ k g e. absurd (ground arith);
  chain_ids = λ k c e. absurd (ground arith);
}

mapped-IsSourced : IsSourced docker_storage mapped
unfolding insert strip strip_left is_space add_idpref same
mapped-IsSourced =
    insert_chain_id-IsSourced docker_storage (codes "sha256:d") (codes "sha256:x")
      (record no_mappings { diffid_mapping = (codes "sha256:d", some (codes "sha256:g")) ∷ [] })
      (codes "x", codes "sha256:d", refl, refl, refl)
      (insert_digest-IsSourced docker_storage (codes "sha256:d") (some (codes "sha256:g"))
        no_mappings (inr (codes "g", codes "sha256:d", refl, refl, refl)) no_mappings-IsSourced)

docker_storage-ReadsJson : ReadsJson docker_storage
docker_storage-ReadsJson = λ content e. absurd cc

-- Docker has no `size` for the second layer.
get_image_layers_lost :
    (get_image_layers docker_storage docker_source list_layers none_layers
      (codes "sha256:d" ∷ codes "sha256:d" ∷ [])
      (codes "sha256:b")
      mapped).1
    ≡ (get_image_layers docker_storage docker_source list_layers none_layers
        (codes "sha256:d" ∷ [])
        (codes "sha256:b")
        mapped).1
unfolding get_image_layers get_layer_by_diffid get_digest_by_diffid get_layerdb_mappings lookup same
    insert del_idpref split_text starts_with get_by_diff_id first_where set_local_image_refs member
    int strip strip_left is_space get_cache_id_from_chain_id get_layer_tar_file path_join
    get_layer_gz_file truthy_digest add_idpref values
get_image_layers_lost = refl

get_image_layers-AreLayers_example :
    let out =
      get_image_layers docker_storage docker_source list_layers none_layers
        (codes "sha256:d" ∷ codes "sha256:d" ∷ [])
        (codes "sha256:b")
        mapped in
    IsSourced docker_storage out.0
    × IsDone
        (AreLayers docker_storage docker_source list_layers none_layers true
          (codes "sha256:b")
          (codes "sha256:d" ∷ codes "sha256:d" ∷ []))
        out.1
get_image_layers-AreLayers_example =
    get_image_layers-AreLayers docker_storage docker_source list_layers none_layers
      docker_storage-ReadsJson (codes "sha256:d" ∷ codes "sha256:d" ∷ []) (codes "sha256:b") mapped
      mapped-IsSourced

-- The second layer of an image is not in the layer database.
get_image_layers_no_key :
    (get_image_layers docker_storage docker_source list_layers none_layers
      (codes "sha256:d" ∷ codes "sha256:f" ∷ [])
      (codes "sha256:b")
      no_mappings).1
    ≡ raises no_key
unfolding get_image_layers get_layer_by_diffid get_digest_by_diffid get_layerdb_mappings lookup same
    insert del_idpref split_text starts_with get_by_diff_id first_where set_local_image_refs member
    int strip strip_left is_space get_cache_id_from_chain_id get_layer_tar_file path_join
    get_layer_gz_file truthy_digest add_idpref values
get_image_layers_no_key = refl

ensure_docker_having_layer-IsFound_example :
    ((codes "cache" ≡ []) × (codes "/c/tar/d.tar" ≡ []))
    ⊎ ((codes "cache" ≡ codes "cache")
        × ((r : Layer) × (find r.key local_layers.0 ≡ some r)
            × (r.rest.digest ≡ some (codes "sha256:g"))
            × (assemble_layer_tar docker_storage docker_source mapped r.rest.diff_id
                ≡ done (codes "/c/tar/d.tar"))))
unfolding ensure_docker_having_layer assemble_layer_tar docker_find_layer_dir_by_digest diffid_of
    same lookup del_idpref split_text starts_with first_where is_of_digest truthy_path find
    get_layer_tar_file path_join
ensure_docker_having_layer-IsFound_example =
    ensure_docker_having_layer-IsFound docker_storage docker_source list_layers (codes "n1")
      (λ n. true) (codes "sha256:g") mapped local_layers (codes "cache") (codes "/c/tar/d.tar") refl
