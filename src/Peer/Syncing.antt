-- ===== src/Peer/Syncing.antt =====
-- A remote daemon whose version is the one that a peer starts from.
use mathlib.Core.Option
use beiran.Base.{Bool, List, [], ap, arith, refl, some, true, ℕ, ◌++◌, ◌∷◌, ◌≡◌}
use beiran.Peer.{
  Check, Course, Loop, NodeRow, NodeStatus, Peer, status_version, answered, attempt, lost, peerloop,
  rounds,
}
use beiran.Peer.{same_version, save_node, settle, sync, syncing, waiting}

-- The status of the node, how many syncs have run to their end, and what was saved.
abbrev pub outcome : Course → NodeStatus × ℕ × List NodeRow
outcome (waiting l) = (l.peer.node.status, l.peer.synced, l.peer.saved)
outcome (lost p) = (p.node.status, p.synced, p.saved)

-- Checks that are all answered with one version, after the times that are given.
pub answers : ℕ → List Bool → List ℕ → List Check
answers w plugins [] = []
answers w plugins (ping ∷ pings) = answered ping w plugins ∷ answers w plugins pings

same_version_refl : (w : ℕ) → same_version (some w) (some w) ≡ true
unfolding same_version
same_version_refl w = ground arith

attempt_known :
    (ping w : ℕ) (plugins : List Bool) (p : Peer)
    → p.last_sync_state_version ≡ some w
    → attempt (answered ping w plugins) p ≡ (record p { ping = some ping }, true)
unfolding attempt
attempt_known ping w plugins p h = ground (arith, h, same_version_refl w)

rounds_known :
    (w : ℕ) (plugins : List Bool) (pings : List ℕ) (l : Loop)
    → l.peer.last_sync_state_version ≡ some w
    → outcome (rounds (answers w plugins pings) l)
      ≡ (l.peer.node.status, l.peer.synced, l.peer.saved)
unfolding rounds answers settle
rounds_known w plugins [] l h = refl
rounds_known w plugins (ping ∷ pings) l h = rw (attempt_known ping w plugins l.peer h) (
    rounds_known w plugins pings
      (record { peer = record l.peer { ping = some ping }; check_interval = 15; fails = 0 }) h)

sync_known :
    (w : ℕ) (plugins : List Bool) (p : Peer)
    → p.last_sync_state_version ≡ some w
    → sync (some w) plugins p ≡ (p, true)
unfolding sync
sync_known w plugins p h = rw (h, same_version_refl w)

-- A peer whose remote daemon announces, at first and in every check, the version that the peer
-- already has, runs no sync to its end and leaves the node `syncing`: the loop saves the node once, as
-- syncing, before the first sync, and never as `online`.
pub peerloop_stays_syncing :
    (w : ℕ) (plugins : List Bool) (pings : List ℕ) (p : Peer)
    → p.last_sync_state_version ≡ some w
    → Option.map outcome (peerloop (status_version (some w)) plugins (answers w plugins pings) p)
      ≡ some (syncing, p.synced, p.saved ++ (record p.node { status = syncing } ∷ []))
unfolding peerloop save_node
peerloop_stays_syncing w plugins pings p h =
    let started = save_node (record p.node { status = syncing }) p in
    rw (sync_known w plugins started h) (
      ap some (
        rounds_known w plugins pings (record { peer = started; check_interval = 30; fails = 0 }) h))
