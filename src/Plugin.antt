-- ===== src/Plugin.antt =====
-- beiran/plugin.py: the status, the configuration and the update history of plugins.
-- Times are counts of some fixed fraction of a second.
pub mod Laws
pub mod Versions
mod Tests
use beiran.Base.{Bool, List, Option, Text, [], false, if◌then◌else◌, last_or, leb, ltb, none}
use beiran.Base.{same, some, ℕ, ◌++◌, ◌+◌, ◌∷◌}
use beiran.Base.Dict.{Dict, insert, lookup}
use beiran.Config.{defaults}

-- What `status` keeps, and the values that were emitted as `status` events.
pub record StatusCell : Type 0 where
  pub status : Option Text
  pub events : List Text

unfoldable pub is_status : Option Text → Text → Bool
is_status none v = false
is_status (some s) v = same v s

-- The setter of `status`.
unfoldable pub set_status : Text → StatusCell → StatusCell
unfolding is_status
set_status v c =
    if is_status c.status v then c else record c { status = some v; events = c.events ++ (v ∷ []) }

pub set_all : List Text → StatusCell → StatusCell
unfolding set_status
set_all [] c = c
set_all (v ∷ vs) c = set_all vs (set_status v c)

module _ {ℓ} {V : Type ℓ} where
  -- `config.setdefault(key, value)`
  unfoldable pub set_default : Text → V → Dict V → Dict V
  set_default k v config = elim (lookup k config) [ none ↦ insert k v config | some w ↦ config ]

  unfoldable pub init_config : Dict V → Dict V → Dict V
  unfolding set_default
  init_config [] config = config
  init_config ((k, v) ∷ defaults) config = init_config defaults (set_default k v config)

pub record Update : Type 0 where
  pub time : ℕ
  pub msg : Option Text
  pub v : ℕ

-- `emitted` holds the `update` events.
pub record History : Type 0 where
  pub version : ℕ
  pub updated_at : Option ℕ
  pub updates : List Update
  pub emitted : List Update

abbrev pub new_history : History
new_history = record { version = 0; updated_at = none; updates = []; emitted = [] }

-- `now` is what `time.time()` returns.
unfoldable pub update : ℕ → Option Text → History → History
update now msg h =
    let u : Update = record { time = now; msg = msg; v = h.version + 1 } in
    record {
      version = h.version + 1;
      updated_at = some now;
      updates = h.updates ++ (u ∷ []);
      emitted = h.emitted ++ (u ∷ []);
    }

since : ℕ → List Update → List Update
since t [] = []
since t (u ∷ us) = let rest = since t us in if leb t u.time then u ∷ rest else rest

before : ℕ → List Update → List Update
before t [] = []
before t (u ∷ us) = let rest = before t us in if ltb u.time t then u ∷ rest else rest

unfoldable pub updates_since : ℕ → History → List Update
unfolding since
updates_since t h = since t h.updates

unfoldable pub delete_before : ℕ → History → History
unfolding before
delete_before t h = record h { updates = before t h.updates }

last_update : List Update → Option Update
last_update [] = none
last_update (u ∷ us) = some (last_or u us)

unfoldable pub latest : History → Option Update
unfolding last_update
latest h = last_update h.updates

-- A call of one of the methods that change the history.
pub data Call : Type 0 where
  updating : ℕ → Option Text → Call
  deleting : ℕ → Call

unfoldable pub call : Call → History → History
unfolding update delete_before
call (updating now msg) h = update now msg h
call (deleting t) h = delete_before t h

unfoldable pub calls : List Call → History → History
unfolding call
calls [] h = h
calls (c ∷ cs) h = calls cs (call c h)
