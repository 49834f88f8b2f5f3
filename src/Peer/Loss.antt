-- ===== src/Peer/Loss.antt =====
-- When the loop gives a node up.
use mathlib.Core.Option
use beiran.Base.{Bool, List, Option, [], arith, false, if◌then◌else◌, none, not, refl, some, true}
use beiran.Base.{ℕ, ◌&&◌, ◌+◌, ◌==◌, ◌||◌, ◌∷◌, ◌≡◌, ◌≤◌}
use beiran.Peer.{Attempt, Check, Course, Loop, Peer, all_true, answered, attempt, lost, no_answer}
use beiran.Peer.{no_version, peerloop, rounds, same_version, save_node, settle, sync, syncing}
use beiran.Peer.{waiting, Status, status_raises, status_version}
-- A check passes if the daemon answers with a version, and this is the version that was synced last
-- or the plugins can sync it.
use beiran.Base.{Bool, List, Option, [], arith, false, if◌then◌else◌, not, refl, some, true, ℕ}
use beiran.Base.{◌&&◌, ◌+◌, ◌==◌, ◌||◌, ◌∷◌, ◌≡◌, ◌≤◌}
use beiran.Peer.{Attempt, Check, Course, Loop, Peer, all_true, answered, attempt, lost, no_answer}
use beiran.Peer.{no_version, rounds, same_version, save_node, settle, sync, waiting}

passes : Check → Option ℕ → Bool
passes no_answer last = false
passes (no_version ping) last = false
passes (answered ping version plugins) last = same_version (some version) last || all_true plugins

version_after : Check → Option ℕ → Option ℕ
version_after no_answer last = last
version_after (no_version ping) last = last
version_after (answered ping version plugins) last =
    if all_true plugins && not (same_version (some version) last) then some version else last

-- The results of the checks, each with the version that the ones before it have left.
pub results : List Check → Option ℕ → List Bool
unfolding passes version_after
results [] last = []
results (c ∷ cs) last = passes c last ∷ results cs (version_after c last)

-- Two failures in a row, where the flag says that a failure came just before.
pub has_double_failure : Bool → List Bool → Bool
has_double_failure failed [] = false
has_double_failure failed (true ∷ bs) = has_double_failure false bs
has_double_failure true (false ∷ bs) = true
has_double_failure false (false ∷ bs) = has_double_failure true bs

abbrev pub is_lost : Course → Bool
is_lost (waiting l) = false
is_lost (lost p) = true

attempt-passes : (c : Check) (p : Peer) → (attempt c p).1 ≡ passes c p.last_sync_state_version
unfolding attempt passes sync
attempt-passes no_answer p = refl
attempt-passes (no_version ping) p = refl
attempt-passes (answered ping version plugins) p = ground arith

attempt-version :
    (c : Check) (p : Peer)
    → (attempt c p).0.last_sync_state_version ≡ version_after c p.last_sync_state_version
unfolding attempt version_after sync save_node
attempt-version no_answer p = refl
attempt-version (no_version ping) p = refl
attempt-version (answered ping version plugins) p = ground arith

settle_fields :
    (a : Attempt) (l : Loop)
    → ((settle a l).fails ≡ (if a.1 then 0 else l.fails + 1))
      × ((settle a l).peer.last_sync_state_version ≡ a.0.last_sync_state_version)
unfolding settle
settle_fields (p, true) l = (refl, refl)
settle_fields (p, false) l = (refl, refl)

-- From a loop with no failure or one behind it, the node is given up exactly if two checks in a row
-- fail.
pub rounds-is_lost :
    (cs : List Check) (l : Loop)
    → l.fails ≤ 1
    → is_lost (rounds cs l)
      ≡ has_double_failure (l.fails == 1) (results cs l.peer.last_sync_state_version)
unfolding rounds results has_double_failure
rounds-is_lost [] l h = refl
rounds-is_lost (c ∷ cs) l h =
    let m = settle (attempt c l.peer) l in
    let (fails, version) = settle_fields (attempt c l.peer) l in
    ground (
      arith,
      fails,
      version,
      attempt-passes c l.peer,
      attempt-version c l.peer,
      rounds-is_lost cs m,
    )

pub sync_version :
    (v : Option ℕ) (plugins : List Bool) (p : Peer)
    → ((sync v plugins p).1 ≡ (same_version v p.last_sync_state_version || all_true plugins))
      × ((sync v plugins p).1 ≡ true
          → (sync v plugins p).0.last_sync_state_version
            ≡ (if same_version v p.last_sync_state_version then p.last_sync_state_version else v))
unfolding sync save_node
sync_version v plugins p = ground arith

-- Whether the first sync returns, for the version that was synced before.
abbrev pub returns : Status → List Bool → Option ℕ → Bool
returns status_raises plugins last = false
returns (status_version v) plugins last = same_version v last || all_true plugins

-- The version that it leaves.
abbrev pub version_left : Status → Option ℕ → Option ℕ
version_left status_raises last = last
version_left (status_version v) last = if same_version v last then last else v

peerloop_version-is_lost :
    (v : Option ℕ) (plugins : List Bool) (checks : List Check) (p : Peer)
    → Option.map is_lost (peerloop (status_version v) plugins checks p) ≡ (
        if same_version v p.last_sync_state_version || all_true plugins
        then some (
            has_double_failure false (
              results checks (
                if same_version v p.last_sync_state_version then p.last_sync_state_version else v)))
        else none)
unfolding peerloop save_node
peerloop_version-is_lost v plugins checks p =
    let started = save_node (record p.node { status = syncing }) p in
    let (returned, version) = sync_version v plugins started in
    let l : Loop = record { peer = (sync v plugins started).0; check_interval = 30; fails = 0 } in
    ground (arith, returned, version, rounds-is_lost checks l (omega arith))

-- `peerloop` raises exactly if the first get_status raises, or the first sync has to run the plugins
-- and one of them raises. Otherwise it gives the node up exactly if, of the checks so far, two in a
-- row have failed.
pub peerloop-is_lost :
    (first : Status) (plugins : List Bool) (checks : List Check) (p : Peer)
    → Option.map is_lost (peerloop first plugins checks p) ≡ (
        if returns first plugins p.last_sync_state_version
        then some (
            has_double_failure false
              (results checks (version_left first p.last_sync_state_version)))
        else none)
unfolding peerloop
peerloop-is_lost status_raises plugins checks p = refl
peerloop-is_lost (status_version v) plugins checks p = peerloop_version-is_lost v plugins checks p
