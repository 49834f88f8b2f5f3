-- ===== src/Container/Chain.antt =====
-- plugins/beiran_package_container: the mappings of diff ids (calc_chain_id of util.py; the loops of
-- fetch_config_schema_v1 and fetch_config_schema_v2 and get_diffid_by_digest of container.py).
-- The hex digest of SHA-256 is a parameter. A flag that is false says that an IndexError was raised;
-- what the loop had stored before stays.
pub mod Ids
pub mod Lookup
mod Tests
use beiran.Base.{Bool, List, Option, Text, [], false, if◌then◌else◌, none, same, some, true, ◌++◌}
use beiran.Base.{◌∷◌}
use beiran.Base.Dict.{Dict, insert}
use beiran.ImageRef.{add_idpref}

pub record Mappings : Type 0 where
  pub diffid_mapping : Dict Text
  pub layerdb_mapping : Dict Text

module _ (hexdigest : Text → Text) where
  pub calc_chain_id : Text → Text → Text
  calc_chain_id parent_chain_id diff_id =
      add_idpref (hexdigest (parent_chain_id ++ (b' ' ∷ diff_id)))

  next_chain_id : Bool → Text → Text → Text
  next_chain_id top chain_id diff_id = if top then chain_id else calc_chain_id chain_id diff_id

  store : Text → Text → Text → Mappings → Mappings
  store diff_id digest chain_id m = record {
    diffid_mapping = insert diff_id digest m.diffid_mapping;
    layerdb_mapping = insert diff_id chain_id m.layerdb_mapping;
  }

  -- The loop of schema 2: over the diff ids, with `manifest['layers'][i]['digest']`.
  map_diff_ids : Bool → Text → List Text → List Text → Mappings → Mappings × Bool
  map_diff_ids top chain_id [] digests m = (m, true)
  map_diff_ids top chain_id (d ∷ ds) [] m = (m, false)
  map_diff_ids top chain_id (d ∷ ds) (g ∷ gs) m =
      let next = next_chain_id top chain_id d in map_diff_ids false next ds gs (store d g next m)

  unfoldable pub set_mapping_v2 : List Text → List Text → Mappings → Mappings × Bool
  unfolding calc_chain_id next_chain_id store map_diff_ids
  set_mapping_v2 [] digests m = (m, false)
  set_mapping_v2 (d ∷ ds) digests m = map_diff_ids true d (d ∷ ds) digests m

  -- The loop of schema 1: over the descriptors, with `rootfs['diff_ids'][i]`.
  map_descriptors : Bool → Text → List Text → List Text → Mappings → Mappings × Bool
  map_descriptors top chain_id [] diff_ids m = (m, true)
  map_descriptors top chain_id (g ∷ gs) [] m = (m, false)
  map_descriptors top chain_id (g ∷ gs) (d ∷ ds) m =
      let next = next_chain_id top chain_id d in map_descriptors false next gs ds (store d g next m)

  unfoldable pub set_mapping_v1 : List Text → List Text → Mappings → Mappings × Bool
  unfolding calc_chain_id next_chain_id store map_descriptors
  set_mapping_v1 [] digests m = (m, false)
  set_mapping_v1 (d ∷ ds) digests m = map_descriptors true d digests (d ∷ ds) m

-- `none` is the ValueError of `index`.
unfoldable pub get_diffid_by_digest : Text → Dict Text → Option Text
get_diffid_by_digest digest [] = none
get_diffid_by_digest digest ((k, v) ∷ d) =
    if same v digest then some k else get_diffid_by_digest digest d
