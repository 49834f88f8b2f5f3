-- ===== src/Probe/Tests.antt =====
-- A node that answers at the second fetch.
use beiran.Address.{PeerAddress}
use beiran.Address.Stable.{net_peer}
use beiran.Base.{[], arith, codes, none, refl, same, some, suc, zero, ℕ, ◌<◌, ◌∷◌, ◌≡◌}
use beiran.Base.Dict.{lookup}
use beiran.Nodes.{Node, get, has_uuid}
use beiran.Nodes.ListTable.{list_table}
use beiran.Peer.{online}
use beiran.Probe.{Fetched, World, attribute_error, got, probe_node, probed, try_probe_remote_node}
use beiran.Probe.{unreachable}
use beiran.Probe.Registered.{connecting_node, lookup-probe_node}

abbrev node_a : Node
node_a = record {
  uuid = codes "a";
  ip_address = codes "10.0.0.1";
  port = 8888;
  node_status = online;
}

abbrev second : ℕ → Fetched
second zero = unreachable
second (suc j) = got node_a

abbrev unknown_address : PeerAddress
unknown_address = net_peer none none (codes "10.0.0.1") none

abbrev known_address : PeerAddress
known_address = net_peer none (some (codes "a")) (codes "10.0.0.1") none

abbrev empty_world : World list_table
empty_world = record {
  nodes = record { all_nodes = []; local_node = codes "z"; db = [] };
  peer_registry = [];
}

first_silent : (j : ℕ) → j < 1 → second j ≡ unreachable
first_silent zero h = refl
first_silent (suc j) h = absurd (omega (arith, h))

lookup-probe_node_example :
    let (p, v, fetches) = probe_node second 3 unknown_address [] empty_world in
    (p ≡ probed (some (connecting_node node_a)))
    × (fetches ≡ 2)
    × (lookup (codes "a") v.peer_registry ≡ some (connecting_node node_a))
    × (lookup (codes "a") v.nodes.all_nodes ≡ some (connecting_node node_a))
    × (get (has_uuid (codes "a")) v.nodes.db ≡ some (connecting_node node_a))
unfolding same lookup
lookup-probe_node_example =
    lookup-probe_node second 1 3 unknown_address [] node_a empty_world (codes "a") refl refl
      first_silent refl (omega arith)

-- When no fetch of the first address succeeds, the list of the additional ones raises.
extra_raises :
    try_probe_remote_node (λ j. unreachable) 3 unknown_address (codes "10.0.0.9" ∷ [])
    ≡ (attribute_error, 3)
unfolding try_probe_remote_node
extra_raises = refl
