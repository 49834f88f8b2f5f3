-- ===== src/Address/Rows/Tests.antt =====
-- A table as a list, and addresses that are added to it.
use beiran.Address.{port_or_default, protocol_or_http, uuid_of}
use beiran.Address.Rows.{AddressTable, PeerRow, Seen, add_or_update, get_row, put_row}
use beiran.Address.Rows.Grown.{IsGrown, add_or_update-IsGrown}
use beiran.Address.Rows.Kept.{IsTouched, add_or_update-IsTouched}
use beiran.Address.Stable.{net_peer}
use beiran.Base.{List, Text, [], all_chars, arith, codes, has, length, map, none, refl, some}
use beiran.Base.{split_text, starts_with, ℕ, ◌++◌, ◌∷◌}
use beiran.Url.{is_lower, is_upper, lower}
use beiran.Url.Parts.{is_name_char}

abbrev list_table : AddressTable
list_table = record {
  State = List (ℕ × PeerRow);
  rows = λ s. s;
  next_id = λ s. length s;
  create = λ r s. s ++ ((length s, r) ∷ []);
  update = λ i r s. map (put_row i r) s;
  rows-create = λ r s. refl;
  rows-update = λ i r s. refl;
}

abbrev now : Seen
now = record { now = 7; discovery = none; paconfig = []; default_method = codes "zeroconf" }

abbrev new_uuid : Text
new_uuid = codes "84ae8786b9244c4fa53ecf0ca75e922d"

abbrev new_host : Text
new_host = codes "10.0.0.1"

add_or_update-IsTouched_example :
    IsTouched list_table new_uuid (net_peer none (some new_uuid) new_host none).address now [] (
      add_or_update list_table new_uuid
        (net_peer none (some new_uuid) new_host none).address
        now
        [])
unfolding all_chars is_name_char is_lower is_upper has protocol_or_http uuid_of split_text
    starts_with lower
add_or_update-IsTouched_example =
    add_or_update-IsTouched list_table none new_uuid new_host none now [] (refl, refl) (refl, refl)
      (unfold port_or_default in omega arith) (refl, refl)

add_or_update-IsGrown_example :
    IsGrown list_table new_uuid
      (net_peer none (some new_uuid) new_host none)
      (net_peer none none new_host none).address
      []
      (add_or_update list_table new_uuid (net_peer none none new_host none).address now [])
unfolding all_chars is_name_char is_lower is_upper has protocol_or_http uuid_of split_text
    starts_with lower get_row
add_or_update-IsGrown_example =
    add_or_update-IsGrown list_table none new_uuid new_host none now [] (refl, refl) (refl, refl)
      (unfold port_or_default in omega arith) (refl, refl) refl
