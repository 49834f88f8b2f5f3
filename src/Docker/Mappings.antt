-- ===== src/Docker/Mappings.antt =====
-- plugins/beiran_interface_docker/util.py: the mappings of the layers that docker has
-- (get_diffid_mappings, get_layerdb_mappings and get_digest_by_diffid).
-- The two dicts are those of the container plugin. A diff id of which docker knows no digest is mapped
-- to None, so the digests are optional here. `str.strip` is modelled on ASCII text.
pub mod Sources
use beiran.Base.{Bool, List, Option, Text, [], codes, false, if◌then◌else◌, is_nil, member, none}
use beiran.Base.{not, same, some, true, ◌&&◌, ◌||◌, ◌∷◌}
use beiran.Base.Dict.{Dict, insert, lookup, values}
use beiran.Container.Layers.{path_join}
use beiran.Docker.Storage.{Outcome, Storage, digest_path, done, layerdb_path, no_index, no_key}
use beiran.Docker.Storage.{or_raise, raises, under, v2metadata_path, ◌>>=◌}
use beiran.ImageRef.{add_idpref, del_idpref}
use beiran.Subpath.{is_space, strip_left}

pub record Mappings : Type 0 where
  pub diffid_mapping : Dict (Option Text)
  pub layerdb_mapping : Dict Text

strip_right : Text → Text
strip_right [] = []
strip_right (c ∷ s) = let rest = strip_right s in if is_space c && is_nil rest then [] else c ∷ rest

-- `contents.strip()`
unfoldable pub strip : Text → Text
unfolding strip_right
strip s = strip_right (strip_left s)

-- `t in d.values()`
unfoldable pub has_digest : Text → Dict (Option Text) → Bool
has_digest t [] = false
has_digest t ((k, none) ∷ d) = has_digest t d
has_digest t ((k, some v) ∷ d) = same v t || has_digest t d

go_on : (Mappings → Mappings × Bool) → Mappings × Bool → Mappings × Bool
go_on rest (m, true) = rest m
go_on rest (m, false) = (m, false)

first_digest : List (Dict Text) → Outcome Text
first_digest [] = raises no_index
first_digest (c ∷ cs) = or_raise no_key (lookup (codes "Digest") c)

module _ (D : Storage) where
  -- `none` is a file that is missing.
  map_digest : Text → Mappings → Option Text → Mappings × Bool
  map_digest digest m none = (m, false)
  map_digest digest m (some contents) =
      (record m { diffid_mapping = insert (strip contents) (some digest) m.diffid_mapping }, true)

  -- A file of the directory; the flag is false if FileNotFoundError is raised.
  map_digest_file : Text → Mappings → Mappings × Bool
  map_digest_file filename m =
      let digest = add_idpref filename in
      let path = under D (digest_path D) filename in
      if has_digest digest m.diffid_mapping
      then (m, true)
      else if D.isdir path
      then (m, true)
      else map_digest digest m (D.file path)

  map_digest_files : List Text → Mappings → Mappings × Bool
  map_digest_files [] m = (m, true)
  map_digest_files (f ∷ fs) m = go_on (λ n. map_digest_files fs n) (map_digest_file f m)

  list_digests : Option (List Text) → Mappings → Mappings × Bool
  list_digests none m = (m, false)
  list_digests (some fs) m = map_digest_files fs m

  -- The flag is false if FileNotFoundError was raised; an empty dict is returned then.
  unfoldable pub get_diffid_mappings : Mappings → Mappings × Bool
  unfolding go_on map_digest map_digest_file map_digest_files list_digests
  get_diffid_mappings m = list_digests (D.listdir (digest_path D)) m

  map_chain_id : Text → Mappings → Option Text → Mappings × Bool
  map_chain_id chain_id m none = (m, false)
  map_chain_id chain_id m (some contents) =
      (record m { layerdb_mapping = insert (strip contents) chain_id m.layerdb_mapping }, true)

  map_layer_dir : Text → Mappings → Mappings × Bool
  map_layer_dir filename m =
      let chain_id = add_idpref filename in
      let path = under D (layerdb_path D) filename in
      if member chain_id (values m.layerdb_mapping)
      then (m, true)
      else if not (D.isdir path)
      then (m, true)
      else map_chain_id chain_id m (D.file (under D path (codes "diff")))

  map_layer_dirs : List Text → Mappings → Mappings × Bool
  map_layer_dirs [] m = (m, true)
  map_layer_dirs (f ∷ fs) m = go_on (λ n. map_layer_dirs fs n) (map_layer_dir f m)

  list_layer_dirs : Option (List Text) → Mappings → Mappings × Bool
  list_layer_dirs none m = (m, false)
  list_layer_dirs (some fs) m = map_layer_dirs fs m

  unfoldable pub get_layerdb_mappings : Mappings → Mappings × Bool
  unfolding go_on map_chain_id map_layer_dir map_layer_dirs list_layer_dirs
  get_layerdb_mappings m = list_layer_dirs (D.listdir (layerdb_path D)) m

  digest_of_file : Option Text → Outcome (Option Text)
  digest_of_file none = done none
  digest_of_file (some content) = do
    entries ← D.json_load content
    digest ← first_digest entries
    done (some digest)

  unfoldable pub get_digest_by_diffid : Text → Outcome (Option Text)
  unfolding first_digest digest_of_file
  get_digest_by_diffid diffid = do
    name ← or_raise no_index (del_idpref diffid)
    digest_of_file (D.file (path_join (v2metadata_path D) name))
