-- ===== src/Plugin/Tests.antt =====
-- Runs of the history of plugins, and a theorem at concrete data.
use beiran.Base.{List, [], codes, none, refl, some, ◌∷◌}
use beiran.Base.{◌≡◌}
use beiran.Plugin.{Call, calls, deleting, new_history}
use beiran.Plugin.{updates_since, updating}
use beiran.Plugin.Versions.{Ascends, history_versions, updatings}

abbrev log : List Call
log = updating 10 none ∷ updating 20 (some (codes "sync")) ∷ deleting 20 ∷ updating 30 none ∷ []

deleted_late :
    updates_since 0 (calls log new_history)
    ≡ record { time = 10; msg = none; v = 1 } ∷ record { time = 30; msg = none; v = 3 } ∷ []
unfolding updates_since calls
deleted_late = refl

history_versions_example :
    ((calls log new_history).version ≡ updatings log)
    × Ascends 0 (calls log new_history).version (calls log new_history).updates
history_versions_example = history_versions log
