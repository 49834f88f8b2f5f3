-- ===== src/Peer.antt =====
-- beiran/daemon/peer.py: `sync` and the loop of a connection to a remote node. What the environment
-- does is the input: the answers of the remote daemon, and whether the plugins' syncs raise.
pub mod Loss
pub mod Freshness
pub mod Syncing
mod Tests
use beiran.Base.{Bool, List, Option, [], false, if◌then◌else◌, leb, none, some, true, ℕ, ◌&&◌}
use beiran.Base.{◌++◌, ◌+◌, ◌==◌, ◌∷◌}

-- `Node.STATUS_…` of beiran/models/node.py
pub data NodeStatus : Type 0 where
  new init_status ready online offline connecting syncing closing lost_status unknown : NodeStatus

-- `node` is the record in memory, `saved` what `node.save()` has written, latest last.
pub record NodeRow : Type 0 where
  pub status : NodeStatus
  pub last_sync_version : Option ℕ

-- `ping` is `none` for -1; `node_ping` is the attribute of the node that a failed check sets to -1.
pub record Peer : Type 0 where
  pub node : NodeRow
  pub saved : List NodeRow
  pub last_sync_state_version : Option ℕ
  pub ping : Option ℕ
  pub node_ping : Bool
  pub synced : ℕ

-- `none` and numbers, as Python compares them
pub same_version : Option ℕ → Option ℕ → Bool
same_version none none = true
same_version (some a) (some b) = a == b
same_version _ _ = false

pub all_true : List Bool → Bool
all_true [] = true
all_true (b ∷ bs) = b && all_true bs

save_node : NodeRow → Peer → Peer
save_node row p = record p { node = row; saved = p.saved ++ (row ∷ []) }

-- A method that may raise leaves what it has changed; the flag says that it returned.
abbrev pub Attempt : Type 0
Attempt = Peer × Bool

-- `sync` behind the answer: the plugins' syncs are gathered, the node and the version are stored.
pub sync : Option ℕ → List Bool → Peer → Attempt
sync version plugins p =
    if same_version version p.last_sync_state_version
    then (p, true)
    else if all_true plugins
    then (let row : NodeRow = record { status = online; last_sync_version = version } in
        (
          record (save_node row p) { last_sync_state_version = version; synced = p.synced + 1 },
          true,
        ))
    else (p, false)

-- One check of the loop, as far as the environment decides it: the call of `get_status` raises, or
-- its answer has no `sync_state_version` (a `KeyError`), or it has one, and then the plugins' syncs
-- return or raise. The first number is the rounded time that the call took.
pub data Check : Type 0 where
  no_answer : Check
  no_version : ℕ → Check
  answered : ℕ → ℕ → List Bool → Check

pub record Loop : Type 0 where
  pub peer : Peer
  pub check_interval : ℕ
  pub fails : ℕ

-- The body of the `try`.
pub attempt : Check → Peer → Attempt
attempt no_answer p = (p, false)
attempt (no_version ping) p = (record p { ping = some ping }, false)
attempt (answered ping version plugins) p =
    let q : Peer = record p { ping = some ping } in
    if same_version (some version) q.last_sync_state_version
    then (q, true)
    else sync (some version) plugins q

retry_interval : ℕ
retry_interval = 5

-- The rest of the body, or the handler.
pub settle : Attempt → Loop → Loop
settle (p, true) l = record { peer = p; check_interval = 15; fails = 0 }
settle (p, false) l = record {
  peer = record p { node_ping = true };
  check_interval = retry_interval;
  fails = l.fails + 1;
}

pub data Course : Type 0 where
  waiting : Loop → Course
  lost : Peer → Course

lose : Peer → Peer
lose p = save_node (record p.node { status = lost_status }) p

-- The loop over the checks that the environment has decided so far.
pub rounds : List Check → Loop → Course
rounds [] l = waiting l
rounds (c ∷ cs) l =
    let m = settle (attempt c l.peer) l in
    let rest = rounds cs m in if leb 2 m.fails then lost (lose m.peer) else rest

-- What the `get_status` of the first `sync` gives: it raises, or its answer has the version.
pub data Status : Type 0 where
  status_raises : Status
  status_version : Option ℕ → Status

-- `sync` without a status that is given.
pub sync_anew : Status → List Bool → Peer → Attempt
sync_anew status_raises plugins p = (p, false)
sync_anew (status_version version) plugins p = sync version plugins p

-- `peerloop` for a peer with a node; `none` if the first sync raises out of the loop.
pub peerloop : Status → List Bool → List Check → Peer → Option Course
unfolding sync_anew
peerloop first plugins checks p =
    let started = save_node (record p.node { status = syncing }) p in
    let (q, returned) = sync_anew first plugins started in
    if returned
    then some (rounds checks (record { peer = q; check_interval = 30; fails = 0 }))
    else none
