-- ===== src/Address/Rows/Kept.antt =====
-- What PeerAddress.add_or_update of beiran/models/node.py leaves in the table.
use beiran.Address.{PeerAddress, port_or_default, protocol_or_http}
use beiran.Address.RoundTrip.{IsName}
use beiran.Address.Rows.{AddressTable, PeerRow, Seen, add_or_update, get_row, has_uuid, is_at}
use beiran.Address.Rows.{method_of, new_row, no_location, put_row, save_new, save_row, touch}
use beiran.Address.Stable.{IsUuid, init_peer_address-net, net_peer}
use beiran.Base.{Bool, List, Option, Text, [], ap, arith, length, length-append, map, none, refl}
use beiran.Base.{same_refl, some, suc, true, ℕ, ◌++◌, ◌+◌, ◌∙◌, ◌∷◌, ◌≡◌, ◌≤◌}

get_row-append :
    (p : PeerRow → Bool) (rs : List (ℕ × PeerRow)) (i : ℕ) (r : PeerRow)
    → get_row p rs ≡ none
    → p r ≡ true
    → get_row p (rs ++ ((i, r) ∷ [])) ≡ some (i, r)
unfolding get_row
get_row-append p [] i r h k = rw k refl
get_row-append p ((j, q) ∷ rs) i r h k = ground (arith, get_row-append p rs i r)

-- The first row with the property is still the first one after a row with its id is replaced by one
-- that has the property.
get_row-put_row :
    (p : PeerRow → Bool) (rs : List (ℕ × PeerRow)) (i : ℕ) (old r : PeerRow)
    → get_row p rs ≡ some (i, old)
    → p r ≡ true
    → get_row p (map (put_row i r) rs) ≡ some (i, r)
unfolding get_row put_row
get_row-put_row p [] i old r h k = absurd cc
get_row-put_row p ((j, q) ∷ rs) i old r h k = ground (arith, get_row-put_row p rs i old r)

length-map :
    (f : ℕ × PeerRow → ℕ × PeerRow) (rs : List (ℕ × PeerRow)) → length (map f rs) ≡ length rs
length-map f [] = refl
length-map f (r ∷ rs) = ap suc (length-map f rs)

get_row-Found :
    (p : PeerRow → Bool) (rs : List (ℕ × PeerRow)) (i : ℕ) (r : PeerRow)
    → get_row p rs ≡ some (i, r)
    → p r ≡ true
unfolding get_row
get_row-Found p [] i r h = absurd cc
get_row-Found p ((j, q) ∷ rs) i r h = ground (arith, get_row-Found p rs i r)

abbrev pub fresh : Option (ℕ × PeerRow) → ℕ
fresh none = 1
fresh (some r) = 0

module _ (T : AddressTable) where
  -- There is one row more, unless there was one with the uuid and the address, and the first row with
  -- them was touched.
  abbrev pub IsTouched : Text → Text → Seen → T.State → Option T.State → Type 0
  IsTouched uuid address e s none = ⊥
  IsTouched uuid address e s (some t) =
      ((i : ℕ) × (r : PeerRow) × (get_row (is_at uuid address) (T.rows t) ≡ some (i, r))
        × (r.last_seen_at ≡ e.now)
        × (r.discovery_method ≡ some (method_of e)))
      × (length (T.rows t) ≡ length (T.rows s) + fresh (get_row (is_at uuid address) (T.rows s)))

  create-IsTouched :
      (uuid address : Text) (e : Seen) (s : T.State) (p : PeerAddress)
      → get_row (is_at uuid address) (T.rows s) ≡ none
      → p.uuid ≡ some uuid
      → p.address ≡ address
      → IsTouched uuid address e s (save_new T e s (some p))
  unfolding save_new new_row touch
  create-IsTouched uuid address e s p h u a = rw h (
    (
      T.next_id s,
      touch e (new_row p),
      rw (T.rows-create (touch e (new_row p)) s) (
          get_row-append (is_at uuid address) (T.rows s) (T.next_id s) (touch e (new_row p)) h
            (unfold is_at has_uuid in rw (u, a, same_refl, same_refl) refl)),
      refl,
      refl,
    ),
    rw (T.rows-create (touch e (new_row p)) s) (length-append (T.rows s) _),
  )

  update-IsTouched :
      (uuid address : Text) (e : Seen) (s : T.State) (i : ℕ) (r : PeerRow)
      → get_row (is_at uuid address) (T.rows s) ≡ some (i, r)
      → IsTouched uuid address e s (some (T.update i (touch e r) s))
  unfolding touch
  update-IsTouched uuid address e s i r h = rw h (
    (
      i,
      touch e r,
      rw (T.rows-update i (touch e r) s) (
          get_row-put_row (is_at uuid address) (T.rows s) i r (touch e r) h
            (unfold is_at in get_row-Found (is_at uuid address) (T.rows s) i r h)),
      refl,
      refl,
    ),
    rw (T.rows-update i (touch e r) s)
        (length-map (put_row i (touch e r)) (T.rows s) ∙ omega arith),
  )

  -- For an address that PeerAddress builds from the uuid, a host, a protocol and a port, add_or_update
  -- adds a row exactly if there is none with the uuid and the address; in either case the first row
  -- with them has been seen now, by the method that is given or, without one, by that of the settings.
  -- The protocol and the host are texts of lower-case letters, digits, dots and dashes, not empty, the
  -- port is at most 65535, and the uuid is not empty and reads back as itself.
  pub add_or_update-IsTouched :
      (protocol : Option Text) (uuid host : Text) (port : Option ℕ) (e : Seen) (s : T.State)
      → IsName (protocol_or_http protocol)
      → IsName host
      → port_or_default port ≤ 65535
      → IsUuid (some uuid)
      → IsTouched uuid
          (net_peer protocol (some uuid) host port).address
          e
          s
          (add_or_update T uuid (net_peer protocol (some uuid) host port).address e s)
  unfolding add_or_update
  add_or_update-IsTouched protocol uuid host port e s p h small u =
      go (get_row (is_at uuid (net_peer protocol (some uuid) host port).address) (T.rows s)) refl
    where
      address : Text
      address = (net_peer protocol (some uuid) host port).address

      go :
          (o : Option (ℕ × PeerRow))
          → get_row (is_at uuid address) (T.rows s) ≡ o
          → IsTouched uuid address e s (save_row T uuid address e s o)
      go (some (i, r)) f = unfold save_row in update-IsTouched uuid address e s i r f
      go none f =
          unfold save_row in
          rw
            (init_peer_address-net protocol (some uuid) (some uuid) host port no_location p h small
              u u)
            (create-IsTouched uuid address e s (net_peer protocol (some uuid) host port) f refl
              refl)
