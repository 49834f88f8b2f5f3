-- ===== src/Bootstrap.antt =====
-- `probe_without_discovery` of beiran/daemon/main.py: which addresses the daemon sets out to probe when
-- it starts without a discovery plugin. The connections of a node, ordered by the time they were last
-- seen, are an argument, and so are the nodes of the database and the known URLs of the settings. A
-- task is what is handed to `create_task`.
pub mod Known
mod Tests
use beiran.Address.{PeerAddress, init_peer_address, location, no_location}
use beiran.Base.{Bool, List, Option, Text, [], false, if◌then◌else◌, map, member, negsuc, none}
use beiran.Base.{pos, same, some, true, ℤ, ◌++◌, ◌∷◌}

pub record Task : Type 0 where
  pub peer_address : PeerAddress
  pub retries : ℤ

pub data Started : Type 0 where
  started no_connection bad_address : Started

-- The locations of the node, and a task for its latest connection; without one, DoesNotExist.
add_node : List PeerAddress → List Text × List Task × Bool → List Text × List Task × Bool
add_node [] rest = ([], [], false)
add_node (c ∷ cs) (locations, tasks, fine) = (
  map location (c ∷ cs) ++ locations,
  record { peer_address = c; retries = pos 60 } ∷ tasks,
  fine,
)

-- The loop over the nodes of the database.
unfoldable pub probe_db_nodes :
    Text → (Text → List PeerAddress) → List Text → List Text × List Task × Bool
unfolding add_node
probe_db_nodes local_uuid connections [] = ([], [], true)
probe_db_nodes local_uuid connections (u ∷ us) =
    let rest = probe_db_nodes local_uuid connections us in
    if same u local_uuid then rest else add_node (connections u) rest

add_known : List Text → Option PeerAddress → List Task × Bool → List Task × Bool
add_known probed_locations none rest = ([], false)
add_known probed_locations (some p) (tasks, fine) =
    if member (location p) probed_locations
    then (tasks, fine)
    else (record { peer_address = p; retries = negsuc 0 } ∷ tasks, fine)

-- The loop over the known URLs; `PeerAddress` of one may raise a ValueError.
probe_known : List Text → List Text → List Task × Bool
probe_known probed_locations [] = ([], true)
probe_known probed_locations (known_url ∷ urls) =
    add_known probed_locations (init_peer_address (some known_url) no_location none)
      (probe_known probed_locations urls)

ended : List Task → List Task × Bool → List Task × Started
ended tasks (more, true) = (tasks ++ more, started)
ended tasks (more, false) = (tasks ++ more, bad_address)

after_nodes : List Text → List Text × List Task × Bool → List Task × Started
after_nodes urls (locations, tasks, true) = ended tasks (probe_known locations urls)
after_nodes urls (locations, tasks, false) = (tasks, no_connection)

unfoldable pub probe_without_discovery :
    Text → (Text → List PeerAddress) → List Text → List Text → List Task × Started
unfolding add_known probe_known ended after_nodes
probe_without_discovery local_uuid connections db_nodes known_urls =
    after_nodes known_urls (probe_db_nodes local_uuid connections db_nodes)
