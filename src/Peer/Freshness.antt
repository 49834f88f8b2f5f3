-- ===== src/Peer/Freshness.antt =====
-- What a peer and its node say of each other after the checks.
use beiran.Base.{Bool, List, Option, [], ap, arith, false, if◌then◌else◌, last_or, last_or-snoc}
use beiran.Base.{leb, none, refl, some, true, ℕ, ◌++◌, ◌∙◌, ◌∷◌, ◌≡◌}
use beiran.Peer.{Attempt, Check, Course, Loop, NodeRow, NodeStatus, Peer, all_true, answered}
use beiran.Peer.{attempt, lose, lost, lost_status, no_answer, no_version, online, peerloop}
use beiran.Peer.{rounds, same_version, save_node, settle, status_version, sync, syncing, waiting}
use beiran.Peer.Loss.{sync_version}

pub last_saved : List NodeRow → Option NodeRow
last_saved [] = none
last_saved (r ∷ rs) = some (last_or r rs)

-- The node that was saved last is the one in memory, carries the version that was synced last, and
-- has the status that is given.
pub record IsSaved (status : NodeStatus) (p : Peer) : Type 0 where
  pub stored : last_saved p.saved ≡ some p.node
  pub version : p.node.last_sync_version ≡ p.last_sync_state_version
  pub status_is : p.node.status ≡ status

last_saved-snoc : (r : NodeRow) (rs : List NodeRow) → last_saved (rs ++ (r ∷ [])) ≡ some r
unfolding last_saved
last_saved-snoc r [] = refl
last_saved-snoc r (s ∷ rs) = ap some (last_or-snoc s r rs)

sync-IsSaved :
    (v : Option ℕ) (plugins : List Bool) (p : Peer)
    → IsSaved online p
    → IsSaved online (sync v plugins p).0
unfolding sync save_node
sync-IsSaved v plugins p h =
    ground (arith, last_saved-snoc (record { status = online; last_sync_version = v }) p.saved)

-- A sync that runs its plugins and returns makes the node online, whatever was before.
sync_runs :
    (v : Option ℕ) (plugins : List Bool) (p : Peer)
    → same_version v p.last_sync_state_version ≡ false
    → all_true plugins ≡ true
    → IsSaved online (sync v plugins p).0
unfolding sync save_node
sync_runs v plugins p h k =
    ground (arith, last_saved-snoc (record { status = online; last_sync_version = v }) p.saved)

attempt-IsSaved : (c : Check) (p : Peer) → IsSaved online p → IsSaved online (attempt c p).0
unfolding attempt
attempt-IsSaved no_answer p h = h
attempt-IsSaved (no_version ping) p h = record {
  stored = h.stored;
  version = h.version;
  status_is = h.status_is;
}
attempt-IsSaved (answered ping version plugins) p h =
    let q : Peer = record p { ping = some ping } in
    let k : IsSaved online q = record {
      stored = h.stored;
      version = h.version;
      status_is = h.status_is;
    } in
    if_IsSaved (same_version (some version) q.last_sync_state_version) (q, true)
      (sync (some version) plugins q) k (sync-IsSaved (some version) plugins q k)
  where
    if_IsSaved :
        (b : Bool) (x y : Attempt)
        → IsSaved online x.0
        → IsSaved online y.0
        → IsSaved online (if b then x else y).0
    if_IsSaved true x y hx hy = hx
    if_IsSaved false x y hx hy = hy

settle-IsSaved : (a : Attempt) (l : Loop) → IsSaved online a.0 → IsSaved online (settle a l).peer
unfolding settle
settle-IsSaved (p, true) l h = h
settle-IsSaved (p, false) l h = record {
  stored = h.stored;
  version = h.version;
  status_is = h.status_is;
}

lose-IsSaved : (p : Peer) → IsSaved online p → IsSaved lost_status (lose p)
unfolding lose save_node
lose-IsSaved p h = record {
  stored = last_saved-snoc (record p.node { status = lost_status }) p.saved;
  version = h.version;
  status_is = refl;
}

-- While the loop waits the node is online, and after it the node is lost; either way it is stored.
abbrev pub IsRecorded : Course → Type 0
IsRecorded (waiting l) = IsSaved online l.peer
IsRecorded (lost p) = IsSaved lost_status p

rounds-IsRecorded : (cs : List Check) (l : Loop) → IsSaved online l.peer → IsRecorded (rounds cs l)
unfolding rounds
rounds-IsRecorded [] l h = h
rounds-IsRecorded (c ∷ cs) l h =
    let m = settle (attempt c l.peer) l in
    let k = settle-IsSaved (attempt c l.peer) l (attempt-IsSaved c l.peer h) in
    either (leb 2 m.fails) (lost (lose m.peer)) (rounds cs m) (lose-IsSaved m.peer k)
      (rounds-IsRecorded cs m k)
  where
    either :
        (b : Bool) (x y : Course) → IsRecorded x → IsRecorded y → IsRecorded (if b then x else y)
    either true x y hx hy = hx
    either false x y hx hy = hy

abbrev pub IsRecorded? : Option Course → Type 0
IsRecorded? none = ⊥
IsRecorded? (some c) = IsRecorded c

sync_returns :
    (v : Option ℕ) (plugins : List Bool) (p : Peer)
    → same_version v p.last_sync_state_version ≡ false
    → all_true plugins ≡ true
    → (sync v plugins (save_node (record p.node { status = syncing }) p)).1 ≡ true
unfolding save_node
sync_returns v plugins p h k =
    (sync_version v plugins (save_node (record p.node { status = syncing }) p)).0 ∙ rw (h, k)

-- If the remote daemon announces a version that has not been synced yet and the plugins sync it,
-- the loop runs; then, whatever the checks bring, the node is online with the version that was
-- synced last while the loop waits, lost with that version once it has ended, and the database
-- holds just this.
pub peerloop-IsRecorded :
    (v : Option ℕ) (plugins : List Bool) (checks : List Check) (p : Peer)
    → same_version v p.last_sync_state_version ≡ false
    → all_true plugins ≡ true
    → IsRecorded? (peerloop (status_version v) plugins checks p)
unfolding peerloop
peerloop-IsRecorded v plugins checks p h k =
    let started = save_node (record p.node { status = syncing }) p in
    let e : (sync v plugins started).1 ≡ true = sync_returns v plugins p h k in
    rw e (rounds-IsRecorded checks _ (sync_runs v plugins started (unfold save_node in h) k))
