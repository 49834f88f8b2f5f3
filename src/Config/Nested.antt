-- ===== src/Config/Nested.antt =====
-- Values of the configuration file of beiran/config.py under dotted keys.
use beiran.Base.{All, Bool, Bool-cases, Free, List, Option, Text, [], ap, arith, codes}
use beiran.Base.{if◌then◌else◌, inl, inr, join, none, refl, same, same_refl, some, split-join}
use beiran.Base.{true, ◌++◌, ◌∙◌, ◌∷◌, ◌≡◌, ◌≢◌}
use beiran.Config.{Entries, Val, entry, env_or_file, file_or_default, flag, get_config}
use beiran.Config.{get_config_from_file, get_entry, no_entry, nothing, num, or_nothing, str, tab}
use beiran.Config.{texts, truthy, walk}
use beiran.Subpath.{ok}

set_entry : Text → Val → Entries → Entries
set_entry k v no_entry = entry k v no_entry
set_entry k v (entry j w es) = if same j k then entry j v es else entry j w (set_entry k v es)

-- The file that sets a value under some keys, the others left as they are.
unfoldable pub put_at : List Text → Val → Val → Val
unfolding set_entry get_entry or_nothing
put_at [] v old = v
put_at (k ∷ ks) v (tab es) = tab (set_entry k (put_at ks v (or_nothing (get_entry k es))) es)
put_at (k ∷ ks) v old = tab (entry k (put_at ks v nothing) no_entry)

get_entry-set_entry : (k : Text) (v : Val) (es : Entries) → get_entry k (set_entry k v es) ≡ some v
unfolding get_entry set_entry
get_entry-set_entry k v no_entry = rw (same_refl k) refl
get_entry-set_entry k v (entry j w es) = elim (Bool-cases (same j k)) [
  | inl e ↦ rw (e, get_entry, e) refl
  | inr e ↦ rw (e, get_entry, e) (get_entry-set_entry k v es)
]

walk-entry :
    (k : Text) (ks : List Text) (v : Val) (es : Entries)
    → get_entry k es ≡ some v
    → walk (k ∷ ks) (tab es) ≡ walk ks v
unfolding walk
walk-entry k ks v es e =
    ap {A = Option Val} (λ o. elim o [ none ↦ ok nothing | some w ↦ walk ks w ]) e

walk-new :
    (k : Text) (ks : List Text) (v : Val) → walk (k ∷ ks) (tab (entry k v no_entry)) ≡ walk ks v
unfolding get_entry
walk-new k ks v = walk-entry k ks v (entry k v no_entry) (rw (same_refl k) refl)

walk-put_at : (ks : List Text) (v old : Val) → walk ks (put_at ks v old) ≡ ok v
unfolding walk put_at
walk-put_at [] v old = refl
walk-put_at (k ∷ ks) v (tab es) =
    let inner = put_at ks v (or_nothing (get_entry k es)) in
    walk-entry k ks inner (set_entry k inner es) (get_entry-set_entry k inner es)
    ∙ walk-put_at ks v (or_nothing (get_entry k es))
walk-put_at (k ∷ ks) v nothing = walk-new k ks (put_at ks v nothing) ∙ walk-put_at ks v nothing
walk-put_at (k ∷ ks) v (str s) = walk-new k ks (put_at ks v nothing) ∙ walk-put_at ks v nothing
walk-put_at (k ∷ ks) v (num n) = walk-new k ks (put_at ks v nothing) ∙ walk-put_at ks v nothing
walk-put_at (k ∷ ks) v (flag b) = walk-new k ks (put_at ks v nothing) ∙ walk-put_at ks v nothing
walk-put_at (k ∷ ks) v (texts ws) = walk-new k ks (put_at ks v nothing) ∙ walk-put_at ks v nothing

-- A value that counts as true, set in the file under keys without dots, is what get_config finds
-- under the keys joined by dots, if the environment variable is not set.
pub get_config-put_at :
    (getenv : Text → Option Text) (k : Text) (ks : List Text) (ekey : Text) (isfile : Bool)
    (v old : Val)
    → All (Free b'.') (k ∷ ks)
    → ekey ≢ []
    → getenv (codes "BEIRAN_" ++ ekey) ≡ none
    → truthy v ≡ true
    → get_config
        (record { getenv = getenv; conf = put_at (k ∷ ks) v old })
        (join (b'.' ∷ []) (k ∷ ks))
        ekey
        isfile
      ≡ ok v
unfolding get_config env_or_file file_or_default get_config_from_file
get_config-put_at getenv k ks [] isfile v old h ne e t = absurd (ne refl)
get_config-put_at getenv k ks (x ∷ ekey) isfile v old h ne e t =
    rw (e, split-join b'.' (k ∷ ks) (λ p. cc) h, walk-put_at (k ∷ ks) v old, t) (ground arith)
