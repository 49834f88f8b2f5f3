-- ===== src/Address/Rows.antt =====
-- The table of the addresses of peers: `PeerAddress.add_or_update` of beiran/models/node.py. `AddressTable`
-- is the table as peewee documents it; the clock and the setting for the discovery are arguments. A
-- row that is read has the fields that were stored.
pub mod Kept
pub mod Grown
mod Tests
use beiran.Address.{PeerAddress, format, init_peer_address, is_given, no_location}
use beiran.Base.{Bool, List, Option, Text, [], false, if◌then◌else◌, is_nil, map, none, same}
use beiran.Base.{some, ℕ, ◌&&◌, ◌++◌, ◌==◌, ◌∷◌, ◌≡◌}
use beiran.Base.Dict.{Dict}
use beiran.Config.{Val}

pub record PeerRow : Type 0 where
  pub peer : PeerAddress
  pub last_seen_at : ℕ
  pub discovery_method : Option Text
  pub config : Option (Dict Val)

unfoldable pub put_row : ℕ → PeerRow → ℕ × PeerRow → ℕ × PeerRow
put_row i r (j, q) = (j, if j == i then r else q)

unfoldable pub has_uuid : Text → Option Text → Bool
has_uuid uuid none = false
has_uuid uuid (some u) = same u uuid

-- The rows with their ids; a new one comes last.
pub record AddressTable : Type 1 where
  pub State : Type 0
  pub rows : State → List (ℕ × PeerRow)
  pub next_id : State → ℕ
  pub create : PeerRow → State → State
  pub update : ℕ → PeerRow → State → State
  pub rows-create : (r : PeerRow) (s : State) → rows (create r s) ≡ rows s ++ ((next_id s, r) ∷ [])
  pub rows-update :
      (i : ℕ) (r : PeerRow) (s : State) → rows (update i r s) ≡ map (put_row i r) (rows s)

-- The condition of `cls.get`.
unfoldable pub is_at : Text → Text → PeerRow → Bool
is_at uuid address r = has_uuid uuid r.peer.uuid && same r.peer.address address

-- `none` is DoesNotExist.
unfoldable pub get_row : (PeerRow → Bool) → List (ℕ × PeerRow) → Option (ℕ × PeerRow)
get_row p [] = none
get_row p ((i, r) ∷ rs) = if p r then some (i, r) else get_row p rs

pub record Seen : Type 0 where
  pub now : ℕ
  pub discovery : Option Text
  pub paconfig : Dict Val
  -- `config.discovery_method`
  pub default_method : Text

unfoldable pub method_of : Seen → Text
method_of e = if is_given e.discovery then format e.discovery else e.default_method

unfoldable pub touch : Seen → PeerRow → PeerRow
touch e r = record r {
  last_seen_at = e.now;
  config = if is_nil e.paconfig then r.config else some e.paconfig;
  discovery_method = some (method_of e);
}

new_row : PeerAddress → PeerRow
new_row p = record { peer = p; last_seen_at = 0; discovery_method = none; config = none }

module _ (T : AddressTable) where
  save_new : Seen → T.State → Option PeerAddress → Option T.State
  save_new e s none = none
  save_new e s (some p) = some (T.create (touch e (new_row p)) s)

  save_row : Text → Text → Seen → T.State → Option (ℕ × PeerRow) → Option T.State
  save_row uuid address e s (some (i, r)) = some (T.update i (touch e r) s)
  save_row uuid address e s none =
      save_new e s (init_peer_address (some address) no_location (some uuid))

  -- `none` is a ValueError.
  unfoldable pub add_or_update : Text → Text → Seen → T.State → Option T.State
  unfolding new_row save_new save_row
  add_or_update uuid address e s =
      save_row uuid address e s (get_row (is_at uuid address) (T.rows s))
