-- ===== src/Handlers/Tests.antt =====
-- Two requests to probe a node that answers at the second fetch.
use beiran.Address.{port_or_default, protocol_or_http}
use beiran.Address.Stable.{net_peer}
use beiran.Base.{[], all_chars, arith, codes, false, has, none, refl, same, some, suc, zero, ℕ}
use beiran.Base.{◌<◌, ◌∷◌, ◌≡◌}
use beiran.Base.Dict.{lookup, values}
use beiran.Handlers.{finished, handle_probe, http_error, is_synchronized, of_lookup, ok_body}
use beiran.Handlers.{probed_back}
use beiran.Handlers.Answered.{handle_probe-net}
use beiran.Nodes.{Node, get, get_node_by_ip_and_port}
use beiran.Nodes.ListTable.{list_table}
use beiran.Peer.{online}
use beiran.Probe.{Fetched, World, got, unreachable}
use beiran.Probe.Registered.{connecting_node}
use beiran.Url.{is_lower}
use beiran.Url.Parts.{is_name_char}

abbrev node_a : Node
node_a = record {
  uuid = codes "a";
  ip_address = codes "10.0.0.1";
  port = 8888;
  node_status = online;
}

abbrev second_try : ℕ → Fetched
second_try zero = unreachable
second_try (suc j) = got node_a

abbrev alone : World list_table
alone = record {
  nodes = record { all_nodes = []; local_node = codes "z"; db = [] };
  peer_registry = [];
}

first_is_silent : (j : ℕ) → j < 1 → second_try j ≡ unreachable
first_is_silent zero h = refl
first_is_silent (suc j) h = absurd (omega (arith, h))

handle_probe-net_example :
    let (answer, v) =
      handle_probe second_try probed_back
        (some (net_peer none none (codes "10.0.0.1") none).address)
        false
        (codes "10.0.0.9")
        alone in
    (answer ≡ finished 200 (ok_body ∷ []))
    × (lookup (codes "a") v.peer_registry ≡ some (connecting_node node_a))
unfolding all_chars is_name_char is_lower has protocol_or_http same lookup get_node_by_ip_and_port
    is_synchronized get values port_or_default of_lookup
handle_probe-net_example =
    handle_probe-net second_try probed_back none none (codes "10.0.0.1") (codes "10.0.0.9") none 1
      node_a alone (codes "a") (refl, refl) (refl, refl) (omega arith) tt refl first_is_silent refl
      (omega arith)

-- Without an address the request is bad.
no_address :
    (handle_probe second_try probed_back none false (codes "10.0.0.9") alone).0 ≡ http_error 400
unfolding handle_probe
no_address = refl
