-- ===== src/Local/Kept.antt =====
-- The uuid of the local node outlives the process: local_node_uuid of beiran/daemon/lib.py.
use beiran.Address.{uuid_of}
use beiran.Base.{Bool-cases, Option, Text, inl, inr, length, none, refl, some, ◌==◌, ◌≡◌}
use beiran.Local.{Files, local_node_uuid, new_uuid, of_cache, of_uuid, of_uuid_file, restart}

-- `uuid4().hex`
abbrev pub IsHex : Text → Type 0
IsHex u = (uuid_of u ≡ some u) × (length u ≡ 32)

-- A later call gives the same uuid, and so does the first call after a restart.
abbrev pub IsKept : Text → Files × Text → Type 0
IsKept other (s, u) =
    ((local_node_uuid other s).1 ≡ u) × ((local_node_uuid other (restart s)).1 ≡ u)

new_uuid-IsKept : (uuid4 other : Text) (s : Files) → IsHex uuid4 → IsKept other (new_uuid uuid4 s)
unfolding local_node_uuid
new_uuid-IsKept uuid4 other s (h, n) = (refl, rw (h, of_uuid) (rw n refl))

of_uuid-IsKept :
    (uuid4 other uuid_hex : Text) (s : Files) (o : Option Text)
    → IsHex uuid4
    → s.uuid_conf ≡ some uuid_hex
    → uuid_of uuid_hex ≡ o
    → IsKept other (of_uuid uuid4 uuid_hex s o)
unfolding local_node_uuid
of_uuid-IsKept uuid4 other uuid_hex s none h f e = new_uuid-IsKept uuid4 other s h
of_uuid-IsKept uuid4 other uuid_hex s (some u) h f e = elim (Bool-cases (length uuid_hex == 32)) [
  | inl n ↦ rw n (refl, rw (f, of_uuid_file) (rw (e, of_uuid) (rw n refl)))
  | inr n ↦ rw n (new_uuid-IsKept uuid4 other s h)
]

of_uuid_file-IsKept :
    (uuid4 other : Text) (s : Files) (o : Option Text)
    → IsHex uuid4
    → s.uuid_conf ≡ o
    → IsKept other (of_uuid_file uuid4 s o)
unfolding of_uuid_file
of_uuid_file-IsKept uuid4 other s none h f = new_uuid-IsKept uuid4 other s h
of_uuid_file-IsKept uuid4 other s (some t) h f = of_uuid-IsKept uuid4 other t s (uuid_of t) h f refl

of_cache-IsKept :
    (uuid4 other : Text) (s : Files) (o : Option Text)
    → IsHex uuid4
    → o ≡ none
    → IsKept other (of_cache uuid4 s o)
unfolding of_cache
of_cache-IsKept uuid4 other s none h c = of_uuid_file-IsKept uuid4 other s s.uuid_conf h refl
of_cache-IsKept uuid4 other s (some u) h c = absurd cc

-- A process that has not asked for the uuid of its node yet gets one that it is given again, by a
-- later call and by the first call after a restart, whatever uuid.conf holds or if there is none and
-- whatever uuid is drawn later; what uuid4 draws is 32 characters long and reads back as itself.
pub local_node_uuid-IsKept :
    (uuid4 other : Text) (s : Files)
    → IsHex uuid4
    → s.cached ≡ none
    → IsKept other (local_node_uuid uuid4 s)
unfolding local_node_uuid
local_node_uuid-IsKept uuid4 other s h c = of_cache-IsKept uuid4 other s s.cached h c
