-- ===== src/Docker/Ensure.antt =====
-- plugins/beiran_interface_docker/util.py: a layer from docker's storage or from another node
-- (assemble_layer_tar and ensure_docker_having_layer).
-- The command that writes the tarball, whose status the code does not look at, is left out. The
-- container plugin has no method download_docker_layer_from_node (DockerUtil has it), so the call of it
-- is an AttributeError.
pub mod Asked
use beiran.Base.{Bool, List, Option, Text, [], codes, false, if◌then◌else◌, is_nil, none, not}
use beiran.Base.{same, some, ◌∷◌}
use beiran.Base.Dict.{Dict, lookup}
use beiran.Container.Layers.{Source, get_layer_tar_file, path_join}
use beiran.Container.Rows.{first_where}
use beiran.Container.Table.{Table}
use beiran.Docker.LayerTable.{Layer, LayerTable}
use beiran.Docker.Mappings.{Mappings}
use beiran.Docker.Storage.{Outcome, Storage, docker_find_layer_dir_by_digest, done}
use beiran.Docker.Storage.{layer_metadata_not_found, layer_not_found, layerdb_path, no_attribute}
use beiran.Docker.Storage.{no_index, no_key, no_node, no_value, or_raise, raises, ◌>>=◌}
use beiran.ImageRef.{del_idpref}

-- `list(d.keys())[list(d.values()).index(digest)]`; `none` is the ValueError of `index`.
unfoldable pub diffid_of : Text → Dict (Option Text) → Option Text
diffid_of digest [] = none
diffid_of digest ((k, none) ∷ d) = diffid_of digest d
diffid_of digest ((k, some v) ∷ d) = if same v digest then some k else diffid_of digest d

unfoldable pub is_of_digest : Text → Layer → Bool
is_of_digest digest r = elim r.rest.digest [ none ↦ false | some g ↦ same g digest ]

unfoldable pub truthy_path : Option Text → Bool
truthy_path none = false
truthy_path (some p) = not (is_nil p)

check_path : Option Text → Outcome (Unit {0})
check_path o = if truthy_path o then done tt else raises layer_not_found

module _ (D : Storage) (S : Source) where
  check_metadata : Text → Outcome (Unit {0})
  check_metadata name =
      if D.exists (path_join (path_join (layerdb_path D) name) (codes "tar-split.json.gz"))
      then done tt
      else raises layer_metadata_not_found

  unfoldable pub assemble_layer_tar : Mappings → Text → Outcome Text
  unfolding check_path check_metadata
  assemble_layer_tar m diff_id = do
    chain_id ← or_raise no_key (lookup diff_id m.layerdb_mapping)
    name ← or_raise no_index (del_idpref chain_id)
    _ ← check_metadata name
    known ← or_raise no_key (lookup diff_id m.diffid_mapping)
    digest ← or_raise no_attribute known
    relative_path ← docker_find_layer_dir_by_digest D digest
    _ ← check_path relative_path
    or_raise no_index (get_layer_tar_file S diff_id)

  -- The local node's uuid, and whether the table of nodes has a node.
  module _ (T : LayerTable) (here : Text) (is_node : Text → Bool) where
    -- The loop over `layer.available_at`.
    ask_nodes : List Text → Outcome (Text × Text)
    ask_nodes [] = done ([], [])
    ask_nodes (n ∷ ns) =
        let rest = ask_nodes ns in
        if same n here then rest else if is_node n then raises no_attribute else raises no_node

    abbrev Had : Type 0
    Had = Table.State T.table × Outcome (Text × Text)

    after_assembly : Layer → Table.State T.table → Outcome Text → Had
    after_assembly r s (done path) = (
      Table.save T.table (record r { rest = record r.rest { cache_path = some path } }) s,
      done (codes "cache", path),
    )
    after_assembly r s (raises layer_metadata_not_found) = (s, ask_nodes r.available_at)
    after_assembly r s (raises no_index) = (s, done ([], []))
    after_assembly r s (raises e) = (s, raises e)

    of_layer : Mappings → Table.State T.table → Option Layer → Had
    of_layer m s none = (s, done ([], []))
    of_layer m s (some r) =
        if truthy_path r.rest.docker_path
        then after_assembly r s (assemble_layer_tar m r.rest.diff_id)
        else (s, ask_nodes r.available_at)

    of_tar_path : Text → Mappings → Table.State T.table → Option Text → Had
    of_tar_path digest m s none = (s, raises no_index)
    of_tar_path digest m s (some tar_layer_path) =
        of_layer m s (first_where (is_of_digest digest) (Table.select T.table s))

    of_diff_id : Text → Mappings → Table.State T.table → Option Text → Had
    of_diff_id digest m s none = (s, raises no_value)
    of_diff_id digest m s (some diff_id) = of_tar_path digest m s (get_layer_tar_file S diff_id)

    unfoldable pub ensure_docker_having_layer : Text → Mappings → Table.State T.table → Had
    unfolding ask_nodes after_assembly of_layer of_tar_path of_diff_id
    ensure_docker_having_layer digest m s =
        of_diff_id digest m s (diffid_of digest m.diffid_mapping)
