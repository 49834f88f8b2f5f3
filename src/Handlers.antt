-- ===== src/Handlers.antt =====
-- `NodesHandler.probe` of beiran/daemon/http_ws.py with `probe_node_bidirectional` of
-- beiran/daemon/peer.py: the request to probe a node. An address in the body is a text. What the
-- fetches of node information give, and what comes of the request to be probed back, are arguments.
pub mod Answered
mod Tests
use beiran.Address.{PeerAddress, init_peer_address, is_given, no_location}
use beiran.Base.{Bool, List, Option, Text, [], codes, false, if◌then◌else◌, none, not, some, true}
use beiran.Base.{ℕ, ◌++◌, ◌∷◌}
use beiran.Nodes.{Lookup, Node, NodeTable, Nodes, does_not_exist, found, get_node_by_ip_and_port}
use beiran.Nodes.{get_node_by_uuid}
use beiran.Peer.{NodeStatus, offline}
use beiran.Probe.{Fetched, Probed, World, attribute_error, probe_node, probe_raised, probed}

pub data Answer : Type 0 where
  http_error : ℕ → Answer
  raised : Answer
  -- the status, and what was written
  finished : ℕ → List Text → Answer

-- What becomes of `request_probe_from` with the latest connection of the node.
pub data Asked : Type 0 where
  probed_back client_error ask_raised : Asked

abbrev pub already : Text
already = codes "Node is already synchronized!"

abbrev pub ok_body : Text
ok_body = codes "OK"

is_offline : NodeStatus → Bool
is_offline offline = true
is_offline _ = false

-- `existing_node and existing_node.status != 'offline'`
unfoldable pub is_synchronized : Option Node → Bool
unfolding is_offline
is_synchronized none = false
is_synchronized (some n) = not (is_offline n.node_status)

-- `none` is DoesNotExist, or None.
pub of_lookup : Lookup → Option Node
of_lookup does_not_exist = none
of_lookup (found o) = o

probe_raises : Probed → Bool
probe_raises (probed o) = false
probe_raises attribute_error = true
probe_raises probe_raised = true

-- The node is asked to probe back; None has no connection, which is an AttributeError.
back_raises : Asked → Probed → Bool
back_raises ask_raised (probed (some n)) = true
back_raises probed_back (probed (some n)) = false
back_raises client_error (probed (some n)) = false
back_raises asked (probed none) = true
back_raises asked attribute_error = true
back_raises asked probe_raised = true

respond : ℕ → List Text → Bool → Answer
respond status bodies is_raised =
    if is_raised then raised else finished status (bodies ++ (ok_body ∷ []))

module _ {T : NodeTable} where
  by_address : Option Text → Option ℕ → Nodes T → Option Node
  by_address (some host) (some port) s = of_lookup (get_node_by_ip_and_port host port false s)
  by_address none port s = none
  by_address (some host) none s = none

  -- The uuid of a peer address is an object, while the keys of the nodes in memory are texts, so that
  -- no node is found by it.
  existing_node : PeerAddress → Nodes T → Option Node
  existing_node a s = if is_given a.uuid then none else by_address a.host a.port s

  module _ (answers : ℕ → Fetched) (asked : Asked) where
    probe_back_or_not : Bool → ℕ → List Text → Probed × World T × ℕ → Answer × World T
    probe_back_or_not true status bodies (p, w, n) =
        (respond status bodies (back_raises asked p), w)
    probe_back_or_not false status bodies (p, w, n) = (respond status bodies (probe_raises p), w)

    at_address : Bool → Text → World T → PeerAddress → Answer × World T
    at_address probe_back remote_ip w a =
        let probing = probe_node answers 3 a (remote_ip ∷ []) w in
        if is_synchronized (existing_node a w.nodes)
        then (if probe_back
            then probe_back_or_not true 409 (already ∷ []) probing
            else (finished 409 (already ∷ []), w))
        else probe_back_or_not probe_back 200 [] probing

    of_peer_address : Bool → Text → World T → Option PeerAddress → Answer × World T
    of_peer_address probe_back remote_ip w none = (raised, w)
    of_peer_address probe_back remote_ip w (some a) = at_address probe_back remote_ip w a

    -- `none` is a body without an address.
    unfoldable pub handle_probe : Option Text → Bool → Text → World T → Answer × World T
    unfolding of_lookup probe_raises back_raises respond by_address existing_node probe_back_or_not
        at_address of_peer_address
    handle_probe none probe_back remote_ip w = (http_error 400, w)
    handle_probe (some node_url) probe_back remote_ip w =
        of_peer_address probe_back remote_ip w (init_peer_address (some node_url) no_location none)
