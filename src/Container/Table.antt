-- ===== src/Container/Table.antt =====
-- A database table of plugins/beiran_package_container, as peewee documents it: what the code calls
-- and what it relies on.
use beiran.Base.{Bool, List, Option, Text, if◌then◌else◌, not, same, some, ◌≡◌}
use beiran.Container.Model.{IsUnique, Row, find, keep}

-- `get` by the primary key (`none` is `DoesNotExist`), `select`, `save` and
-- `delete().where().execute()`. A row that is read with some of its columns and saved changes these
-- columns only, so it is kept here with all of them.
pub record Table (V : Type 0) : Type 1 where
  pub State : Type 0
  pub get : Text → State → Option (Row V)
  pub select : State → List (Row V)
  pub save : Row V → State → State
  pub delete_where : (Row V → Bool) → State → State
  pub get-select : (k : Text) (s : State) → get k s ≡ find k (select s)
  pub select-IsUnique : (s : State) → IsUnique (select s)
  pub get-save :
      (k : Text) (r : Row V) (s : State)
      → get k (save r s) ≡ (if same r.key k then some r else get k s)
  pub get-delete_where :
      (k : Text) (p : Row V → Bool) (s : State)
      → get k (delete_where p s) ≡ keep (λ r. not (p r)) (get k s)
