-- ===== src/Probe.antt =====
-- beiran/daemon/peer.py: the registry of peers and `probe_node`. What the calls of `fetch_node_info`
-- give is the input; the number of retries is not negative.
pub mod Tries
pub mod Registered
mod Tests
use beiran.Address.{PeerAddress}
use beiran.Base.{List, Option, Text, [], none, some, suc, zero, ℕ, ◌∷◌}
use beiran.Base.Dict.{Dict, insert, lookup}
use beiran.Nodes.{Node, NodeTable, Nodes, get, has_uuid, save_node_row, update_node}
use beiran.Peer.{connecting}

-- The list of additional addresses is appended as one element, so it stands among the addresses.
pub data Target : Type 0 where
  one : PeerAddress → Target
  several : List Text → Target

pub data Fetched : Type 0 where
  got : Node → Fetched
  unreachable : Fetched
  fetch_raised : Fetched

pub data Probed : Type 0 where
  probed : Option Node → Probed
  attribute_error : Probed
  probe_raised : Probed

round : Fetched → ℕ → Probed × ℕ → Probed × ℕ
round (got n) i rest = (probed (some n), suc i)
round unreachable i rest = rest
round fetch_raised i rest = (probe_raised, suc i)

module _ (answers : ℕ → Fetched) where
  -- The rounds for one address, from the number of the next fetch, then the ones for the next address.
  tries : ℕ → ℕ → (ℕ → Probed × ℕ) → Probed × ℕ
  tries zero i next = next i
  tries (suc counter) i next = round (answers i) i (tries counter (suc i) next)

  -- `while counter and not _node and remote_addresses`; also how many fetches there were.
  pub probe_targets : ℕ → List Target → ℕ → Probed × ℕ
  probe_targets zero ts i = (probed none, i)
  probe_targets (suc retries) [] i = (probed none, i)
  probe_targets (suc retries) (several addresses ∷ ts) i = (attribute_error, i)
  probe_targets (suc retries) (one a ∷ ts) i =
      tries (suc retries) i (probe_targets (suc retries) ts)

  targets : PeerAddress → List Text → List Target
  targets a [] = one a ∷ []
  targets a (b ∷ extra_addr) = one a ∷ several (b ∷ extra_addr) ∷ []

  unfoldable pub try_probe_remote_node : ℕ → PeerAddress → List Text → Probed × ℕ
  unfolding round tries probe_targets targets
  try_probe_remote_node retries a extra_addr = probe_targets retries (targets a extra_addr) 0

module _ (T : NodeTable) where
  -- The nodes, and `PEER_REGISTRY` with the node of each peer.
  pub record World : Type 0 where
    pub nodes : Nodes T
    pub peer_registry : Dict Node

module _ {T : NodeTable} where
  -- `Node.add_or_update`, the status, `node.save`, `collect`, and `update_node`.
  connect : Node → World T → World T
  connect n w =
      let c = record n { node_status = connecting } in
      let d = w.nodes.db in
      let row = save_node_row T n (get (has_uuid n.uuid) (T.select d)) d in
      record {
        nodes = update_node c (record w.nodes { db = T.save c row });
        peer_registry = insert n.uuid c w.peer_registry;
      }

  registered : Node → World T → Option Node → Option Node × World T
  registered n w (some known) = (some known, w)
  registered n w none = (some (record n { node_status = connecting }), connect n w)

  after_probe : Probed → World T → Probed × World T
  after_probe (probed (some n)) w =
      let (m, v) = registered n w (lookup n.uuid w.peer_registry) in (probed m, v)
  after_probe (probed none) w = (probed none, w)
  after_probe attribute_error w = (attribute_error, w)
  after_probe probe_raised w = (probe_raised, w)

  -- The number is that of the fetches.
  by_address_uuid :
      (ℕ → Fetched) → ℕ → PeerAddress → List Text → World T → Option Text → Probed × World T × ℕ
  by_address_uuid answers retries a extra_addr w none =
      let (p, i) = try_probe_remote_node answers retries a extra_addr in
      let (q, v) = after_probe p w in (q, v, i)
  by_address_uuid answers retries a extra_addr w (some u) =
      (probed (lookup u w.peer_registry), w, 0)

  unfoldable pub probe_node :
      (ℕ → Fetched) → ℕ → PeerAddress → List Text → World T → Probed × World T × ℕ
  unfolding connect registered after_probe by_address_uuid
  probe_node answers retries a extra_addr w = by_address_uuid answers retries a extra_addr w a.uuid
