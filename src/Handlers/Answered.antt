-- ===== src/Handlers/Answered.antt =====
-- What NodesHandler.probe of beiran/daemon/http_ws.py answers to an address that PeerAddress builds.
use beiran.Address.{is_given, no_location, port_or_default, protocol_or_http}
use beiran.Address.RoundTrip.{IsName}
use beiran.Address.Stable.{IsUuid, init_peer_address-net, net_peer}
use beiran.Base.{Bool-cases, Option, Text, [], false, if◌then◌else◌, inl, inr, none, refl, same}
use beiran.Base.{some, ℕ, ◌<◌, ◌∷◌, ◌≡◌, ◌≤◌}
use beiran.Base.Dict.{lookup}
use beiran.Handlers.{Asked, already, at_address, by_address, existing_node, finished}
use beiran.Handlers.{handle_probe, is_synchronized, of_lookup, of_peer_address, ok_body}
use beiran.Handlers.{probe_back_or_not, probe_raises, respond}
use beiran.Nodes.{Node, NodeTable, get_node_by_ip_and_port}
use beiran.Probe.{Fetched, Probed, World, got, probe_node, probed, unreachable}
use beiran.Probe.Registered.{connecting_node, lookup-probe_node}

module _ {T : NodeTable} (answers : ℕ → Fetched) (asked : Asked) where
  -- The node in memory at the host and the port.
  abbrev pub known_at : Text → ℕ → World T → Option Node
  known_at host port w = of_lookup (get_node_by_ip_and_port host port false w.nodes)

  -- Which of the two ways it goes depends on the node at the address only.
  one_of :
      (known : Option Node) (q : Probed × World T × ℕ) (n : Node) (w : World T) (k : Text)
      (o : Option Node)
      → q.0 ≡ probed (some n)
      → lookup k q.1.peer_registry ≡ o
      → let (answer, v) =
          (if is_synchronized known
            then (finished 409 (already ∷ []), w)
            else probe_back_or_not answers asked false 200 [] q) in
        (answer ≡ (
          if is_synchronized known
          then finished 409 (already ∷ [])
          else finished 200 (ok_body ∷ [])))
        × (lookup k v.peer_registry
            ≡ (if is_synchronized known then lookup k w.peer_registry else o))
  unfolding probe_back_or_not probe_raises respond
  one_of known (p, v, i) n w k o e l = elim (Bool-cases (is_synchronized known)) [
    | inl b ↦ rw b (refl, refl)
    | inr b ↦ rw (b, e) (refl, l)
  ]

  at_address-net :
      (protocol : Option Text) (host remote_ip : Text) (port : Option ℕ) (waits : ℕ) (n : Node)
      (w : World T) (k : Text)
      → lookup n.uuid w.peer_registry ≡ none
      → ((j : ℕ) → j < waits → answers j ≡ unreachable)
      → answers waits ≡ got n
      → waits < 3
      → let (answer, v) =
          at_address answers asked false remote_ip w (net_peer protocol none host port) in
        (answer ≡ (
          if is_synchronized (known_at host (port_or_default port) w)
          then finished 409 (already ∷ [])
          else finished 200 (ok_body ∷ [])))
        × (lookup k v.peer_registry ≡ (
            if is_synchronized (known_at host (port_or_default port) w)
            then lookup k w.peer_registry
            else if same n.uuid k
            then some (connecting_node n)
            else lookup k w.peer_registry))
  unfolding at_address existing_node by_address is_given
  at_address-net protocol host remote_ip port waits n w k l h e lt =
      let (p, fetches, registry, memory, database) =
        lookup-probe_node answers waits 3 (net_peer protocol none host port) (remote_ip ∷ []) n w k
          refl l h e lt in
      one_of (known_at host (port_or_default port) w)
        (probe_node answers 3 (net_peer protocol none host port) (remote_ip ∷ []) w)
        (connecting_node n) w k _ p registry

  -- A request to probe an address that PeerAddress builds from a host, a protocol and a port, with or
  -- without a uuid, and not to be probed back, whose node answers within three tries and is not
  -- registered: if a node in memory at the host and the port is not offline, the answer is 409 and
  -- nothing is registered; otherwise the answer is 200, and the node that has answered is registered
  -- as connecting, and all others as before. The protocol and the host are texts of lower-case letters,
  -- digits, dots and dashes, not empty, the port is at most 65535, and a uuid is not empty and reads back
  -- as itself.
  pub handle_probe-net :
      (protocol uuid : Option Text) (host remote_ip : Text) (port : Option ℕ) (waits : ℕ) (n : Node)
      (w : World T) (k : Text)
      → IsName (protocol_or_http protocol)
      → IsName host
      → port_or_default port ≤ 65535
      → IsUuid uuid
      → lookup n.uuid w.peer_registry ≡ none
      → ((j : ℕ) → j < waits → answers j ≡ unreachable)
      → answers waits ≡ got n
      → waits < 3
      → let (answer, v) =
          handle_probe answers asked
            (some (net_peer protocol uuid host port).address)
            false
            remote_ip
            w in
        (answer ≡ (
          if is_synchronized (known_at host (port_or_default port) w)
          then finished 409 (already ∷ [])
          else finished 200 (ok_body ∷ [])))
        × (lookup k v.peer_registry ≡ (
            if is_synchronized (known_at host (port_or_default port) w)
            then lookup k w.peer_registry
            else if same n.uuid k
            then some (connecting_node n)
            else lookup k w.peer_registry))
  unfolding handle_probe of_peer_address
  handle_probe-net protocol uuid host remote_ip port waits n w k p q small u l h e lt =
      rw (init_peer_address-net protocol uuid none host port no_location p q small u tt)
        (at_address-net protocol host remote_ip port waits n w k l h e lt)
