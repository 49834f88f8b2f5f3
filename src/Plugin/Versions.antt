-- ===== src/Plugin/Versions.antt =====
-- The versions of a history.
-- Versions ascend strictly, from above `low` up to `high`.
use beiran.Base.{Bool-cases, List, [], arith, inl, inr, ltb, refl, ℕ, ◌++◌, ◌+◌, ◌<◌, ◌∷◌, ◌≡◌}
use beiran.Base.{◌≤◌}
use beiran.Plugin.{Call, History, Update, before, call, calls, delete_before, deleting}
use beiran.Plugin.{new_history, update, updating}

abbrev pub Ascends : ℕ → ℕ → List Update → Type 0
Ascends low high [] = low ≤ high
Ascends low high (u ∷ us) = (low < u.v) × Ascends u.v high us

pub updatings : List Call → ℕ
updatings [] = 0
updatings (updating now msg ∷ cs) = updatings cs + 1
updatings (deleting t ∷ cs) = updatings cs

Ascends-le : (low high : ℕ) (us : List Update) → Ascends low high us → low ≤ high
Ascends-le low high [] h = h
Ascends-le low high (u ∷ us) h = omega (arith, Ascends-le u.v high us h.1)

Ascends-lower :
    (low mid high : ℕ) (us : List Update) → low ≤ mid → Ascends mid high us → Ascends low high us
Ascends-lower low mid high [] p h = omega arith
Ascends-lower low mid high (u ∷ us) p h = (omega arith, h.1)

Ascends-snoc :
    (low high : ℕ) (us : List Update) (u : Update)
    → Ascends low high us
    → u.v ≡ high + 1
    → Ascends low (high + 1) (us ++ (u ∷ []))
Ascends-snoc low high [] u h e = (omega arith, omega arith)
Ascends-snoc low high (w ∷ us) u h e = (h.0, Ascends-snoc w.v high us u h.1 e)

Ascends-before :
    (low high t : ℕ) (us : List Update) → Ascends low high us → Ascends low high (before t us)
unfolding before
Ascends-before low high t [] h = h
Ascends-before low high t (u ∷ us) h = elim (Bool-cases (ltb u.time t)) [
  | inl e ↦ rw e (h.0, Ascends-before u.v high t us h.1)
  | inr e ↦
      rw e
        (Ascends-lower low u.v high (before t us) (omega arith) (Ascends-before u.v high t us h.1))
]

call-Ascends :
    (c : Call) (h : History)
    → Ascends 0 h.version h.updates
    → Ascends 0 (call c h).version (call c h).updates
unfolding call
call-Ascends (updating now msg) h k = Ascends-snoc 0 h.version h.updates _ k refl
call-Ascends (deleting t) h k = Ascends-before 0 h.version t h.updates k

calls-Ascends :
    (cs : List Call) (h : History)
    → Ascends 0 h.version h.updates
    → Ascends 0 (calls cs h).version (calls cs h).updates
unfolding calls
calls-Ascends [] h k = k
calls-Ascends (c ∷ cs) h k = calls-Ascends cs (call c h) (call-Ascends c h k)

version-calls : (cs : List Call) (h : History) → (calls cs h).version ≡ h.version + updatings cs
unfolding calls updatings
version-calls [] h = omega arith
version-calls (updating now msg ∷ cs) h = omega (arith, version-calls cs (update now msg h))
version-calls (deleting t ∷ cs) h = omega (arith, version-calls cs (delete_before t h))

-- After any calls on a new history, the version counts the updates that were made, and the updates
-- that are kept carry strictly ascending versions from 1 up to it.
pub history_versions :
    (cs : List Call)
    → ((calls cs new_history).version ≡ updatings cs)
      × Ascends 0 (calls cs new_history).version (calls cs new_history).updates
history_versions cs =
    (omega (arith, version-calls cs new_history), calls-Ascends cs new_history (omega arith))
