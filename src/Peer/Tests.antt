-- ===== src/Peer/Tests.antt =====
-- Runs of the loop of a connection, and the theorems at concrete checks.
use mathlib.Core.Option
use beiran.Base.{List, [], false, none, refl, some, true, ◌++◌, ◌∷◌, ◌≡◌}
use beiran.Peer.{Check, Peer, all_true, answered, attempt, connecting, no_answer, peerloop}
use beiran.Peer.{
  rounds, same_version, save_node, settle, status_raises, status_version, sync, sync_anew, syncing,
}
use beiran.Peer.Freshness.{IsRecorded?, peerloop-IsRecorded}
use beiran.Peer.Loss.{has_double_failure, is_lost, peerloop-is_lost, results}
use beiran.Peer.Syncing.{answers, peerloop_stays_syncing, outcome}

abbrev new_peer : Peer
new_peer = record {
  node = record { status = connecting; last_sync_version = some 0 };
  saved = [];
  last_sync_state_version = some 0;
  ping = none;
  node_ping = false;
  synced = 0;
}

abbrev checks : List Check
checks =
    answered 7 4 (true ∷ [])
    ∷ no_answer
    ∷ answered 9 5 []
    ∷ no_answer
    ∷ answered 9 6 (false ∷ [])
    ∷ []

given_up :
    Option.map is_lost (peerloop (status_version (some 3)) (true ∷ []) checks new_peer) ≡ some true
unfolding peerloop sync_anew sync save_node rounds attempt settle same_version all_true
given_up = refl

peerloop-is_lost_example :
    Option.map is_lost (peerloop (status_version (some 3)) (true ∷ []) checks new_peer)
    ≡ some (has_double_failure false (results checks (some 3)))
unfolding same_version all_true
peerloop-is_lost_example = peerloop-is_lost (status_version (some 3)) (true ∷ []) checks new_peer

peerloop-IsRecorded_example :
    IsRecorded? (peerloop (status_version (some 3)) (true ∷ []) checks new_peer)
unfolding same_version all_true
peerloop-IsRecorded_example = peerloop-IsRecorded (some 3) (true ∷ []) checks new_peer refl refl

no_status : Option.map is_lost (peerloop status_raises [] checks new_peer) ≡ none
unfolding peerloop sync_anew
no_status = refl

peerloop_stays_syncing_example :
    Option.map outcome (peerloop (status_version (some 0)) [] (answers 0 [] (8 ∷ 9 ∷ [])) new_peer)
    ≡ some (syncing, 0, [] ++ (record new_peer.node { status = syncing } ∷ []))
peerloop_stays_syncing_example = peerloop_stays_syncing 0 [] (8 ∷ 9 ∷ []) new_peer refl
