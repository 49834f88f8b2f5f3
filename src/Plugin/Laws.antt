-- ===== src/Plugin/Laws.antt =====
-- What the methods of plugins and of their history promise.
use mathlib.Core.Option.{or_else}
use beiran.Base.{All, Bool, List, Option, Option-cases, Text, [], append-nil, append_assoc, arith}
use beiran.Base.{false, if◌then◌else◌, inl, inr, length, none, refl, same, same_iff, some, sym}
use beiran.Base.{true, ℕ, ◌++◌, ◌+◌, ◌<◌, ◌∙◌, ◌∷◌, ◌≡◌}
use beiran.Base.Dict.{Dict, lookup, lookup-insert}
use beiran.Config.{defaults}
use beiran.JsonStreamer.Reference.{events}
use beiran.Plugin.{History, StatusCell, Update, before, delete_before, init_config, is_status}
use beiran.Plugin.{set_all, set_default, set_status, since, updates_since}

lookup-set_default {ℓ} :
    {V : Type ℓ} (k j : Text) (v : V) (config : Dict V)
    → lookup k (set_default j v config)
      ≡ or_else (lookup k config) (if same j k then some v else none)
unfolding set_default or_else
lookup-set_default k j v config = elim (Option-cases (lookup j config)) [
  | inl e ↦ rw (e, set_default) (rw lookup-insert (ground (arith, same_iff j k, e)))
  | inr (w, e) ↦ rw (e, set_default) (ground (arith, same_iff j k, e))
]

-- The configuration after `init_config` has every key's own value if it has one, and the default
-- otherwise.
pub lookup-init_config {ℓ} :
    {V : Type ℓ} (k : Text) (defaults config : Dict V)
    → lookup k (init_config defaults config) ≡ or_else (lookup k config) (lookup k defaults)
unfolding init_config lookup or_else
lookup-init_config k [] config = ground arith
lookup-init_config k ((j, v) ∷ defaults) config =
    rw (lookup-init_config k defaults (set_default j v config), lookup-set_default) (ground arith)

-- Runs of one value collapsed to one, the last value before them given.
collapse : Option Text → List Text → List Text
unfolding is_status
collapse last [] = []
collapse last (v ∷ vs) =
    let rest = collapse (some v) vs in if is_status last v then rest else v ∷ rest

last_status : Option Text → List Text → Option Text
last_status last [] = last
last_status last (v ∷ vs) = last_status (some v) vs

pub set_status_fields :
    (o : Option Text) (events : List Text) (v : Text)
    → let c : StatusCell = record { status = o; events = events } in
      ((set_status v c).status ≡ some v)
      × ((set_status v c).events ≡ events ++ (if is_status o v then [] else v ∷ []))
unfolding set_status
set_status_fields none events v = (refl, refl)
set_status_fields (some s) events v = ground (arith, same_iff v s, append-nil events)

-- The events of a series of assignments are the assigned values without immediate repetitions, and
-- the status is the value that was assigned last.
events-set_all :
    (vs : List Text) (c : StatusCell)
    → ((set_all vs c).events ≡ c.events ++ collapse c.status vs)
      × ((set_all vs c).status ≡ last_status c.status vs)
unfolding set_all collapse last_status
events-set_all [] c = (sym (append-nil c.events), refl)
events-set_all (v ∷ vs) c =
    let step = set_status_fields c.status c.events v in
    let rest = events-set_all vs (set_status v c) in
    (
      rest.0 ∙ rw (step.0, step.1) (collapse_step c.events (is_status c.status v)),
      rest.1 ∙ rw step.0,
    )
  where
    collapse_step :
        (events : List Text) (b : Bool)
        → (events ++ (if b then [] else v ∷ [])) ++ collapse (some v) vs
          ≡ events ++ (if b then collapse (some v) vs else v ∷ collapse (some v) vs)
    collapse_step events true = rw append-nil
    collapse_step events false = rw append_assoc

since-before : (t : ℕ) (us : List Update) → since t (before t us) ≡ []
unfolding since before
since-before t [] = refl
since-before t (u ∷ us) = ground (arith, since-before t us)

before-All : (t : ℕ) (us : List Update) → All (λ u. u.time < t) (before t us)
unfolding before
before-All t [] = tt
before-All t (u ∷ us) = ground (arith, before-All t us)

length-partition :
    (t : ℕ) (us : List Update) → length (since t us) + length (before t us) ≡ length us
unfolding since before
length-partition t [] = omega arith
length-partition t (u ∷ us) = ground (arith, length-partition t us)

-- `delete_before t` deletes just the updates that `updates_since t` returns: none of them is left,
-- what is left was made before `t`, the two together are as many as there were, and the version
-- stays.
delete_before_lem :
    (t : ℕ) (h : History)
    → (updates_since t (delete_before t h) ≡ [])
      × All (λ u. u.time < t) (delete_before t h).updates
      × (length (updates_since t h) + length (delete_before t h).updates ≡ length h.updates)
      × ((delete_before t h).version ≡ h.version)
unfolding updates_since delete_before
delete_before_lem t h =
    (since-before t h.updates, before-All t h.updates, length-partition t h.updates, refl)
