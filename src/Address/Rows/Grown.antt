-- ===== src/Address/Rows/Grown.antt =====
-- PeerAddress.add_or_update of beiran/models/node.py with an address in which no uuid stands.
use beiran.Address.{PeerAddress, port_or_default, protocol_or_http}
use beiran.Address.RoundTrip.{IsName, build-net, front, net_front-no_hash, suffix}
use beiran.Address.Rows.{AddressTable, PeerRow, Seen, add_or_update, get_row, is_at, new_row}
use beiran.Address.Rows.{no_location, save_new, save_row, touch}
use beiran.Address.Stable.{IsUuid, init_peer_address-net, net_peer}
use beiran.Base.{Bool, Bool-cases, Free, List, Option, Text, [], ap, append-nil, arith, false}
use beiran.Base.{has, has-append, inl, inr, is_nil, none, refl, same}
use beiran.Base.{same_iff, some, true, ℕ, ◌++◌, ◌∷◌, ◌≡◌, ◌≤◌}
use beiran.Url.Parsed.{netloc_of}

suffix-absent : (w u : Text) → Free b'#' w → same (w ++ suffix (some u)) w ≡ true → is_nil u ≡ true
unfolding suffix
suffix-absent w [] h e = refl
suffix-absent w (c ∷ u) h e =
    let eq : w ++ (b'#' ∷ c ∷ u) ≡ w = (same_iff (w ++ (b'#' ∷ c ∷ u)) w).0 e in
    absurd (unfold has in ground (arith, has-append b'#' w (b'#' ∷ c ∷ u), ap (has b'#') eq))

address-differs :
    (protocol : Option Text) (uuid host : Text) (port : Option ℕ)
    → IsName (protocol_or_http protocol)
    → IsName host
    → is_nil uuid ≡ false
    → same
        (net_peer protocol (some uuid) host port).address
        (net_peer protocol none host port).address
      ≡ false
unfolding suffix
address-differs protocol uuid host port p h u =
    rw
      (
        build-net protocol (some uuid) none host port p.1 h.1,
        build-net protocol none none host port p.1 h.1,
        append-nil (front (protocol_or_http protocol) (netloc_of host (port_or_default port))),
      )
      (elim (Bool-cases (same (w ++ suffix (some uuid)) w)) [
        | inl e ↦ absurd (
            cc (
              suffix-absent w uuid
                  (net_front-no_hash (protocol_or_http protocol) host (port_or_default port) p.1
                    h.1)
                  e,
              u,
            ))
        | inr e ↦ e
      ])
  where
    w : Text
    w = front (protocol_or_http protocol) (netloc_of host (port_or_default port))

get_row-absent :
    (p : PeerRow → Bool) (rs : List (ℕ × PeerRow)) (i : ℕ) (r : PeerRow)
    → get_row p rs ≡ none
    → p r ≡ false
    → get_row p (rs ++ ((i, r) ∷ [])) ≡ none
unfolding get_row
get_row-absent p [] i r h k = rw k refl
get_row-absent p ((j, q) ∷ rs) i r h k = ground (arith, get_row-absent p rs i r)

module _ (T : AddressTable) where
  -- One row is added, of the given peer address, and still no row has the uuid and the address.
  abbrev pub IsGrown : Text → PeerAddress → Text → T.State → Option T.State → Type 0
  IsGrown uuid stored address s none = ⊥
  IsGrown uuid stored address s (some t) =
      ((r : PeerRow) × (T.rows t ≡ T.rows s ++ ((T.next_id s, r) ∷ [])) × (r.peer ≡ stored))
      × (get_row (is_at uuid address) (T.rows t) ≡ none)

  create-IsGrown :
      (uuid address : Text) (e : Seen) (s : T.State) (p : PeerAddress)
      → get_row (is_at uuid address) (T.rows s) ≡ none
      → same p.address address ≡ false
      → IsGrown uuid p address s (save_new T e s (some p))
  unfolding save_new new_row touch
  create-IsGrown uuid address e s p h a = (
    (touch e (new_row p), T.rows-create (touch e (new_row p)) s, refl),
    rw (T.rows-create (touch e (new_row p)) s) (
        get_row-absent (is_at uuid address) (T.rows s) (T.next_id s) (touch e (new_row p)) h
          (unfold is_at in rw a (ground arith))),
  )

  -- If no row has the uuid and an address without it, which is what PeerAddress builds from a host, a
  -- protocol and a port alone, then add_or_update with both adds one row, of the peer address
  -- that PeerAddress builds from the same host, protocol and port with the uuid, whose address has the
  -- uuid behind it. There is still no row with the uuid and the address
  -- given, so that the next call adds a row again. The protocol and the host are texts of lower-case
  -- letters, digits, dots and dashes, not empty, the port is at most 65535, and the uuid is not empty and reads
  -- back as itself.
  pub add_or_update-IsGrown :
      (protocol : Option Text) (uuid host : Text) (port : Option ℕ) (e : Seen) (s : T.State)
      → IsName (protocol_or_http protocol)
      → IsName host
      → port_or_default port ≤ 65535
      → IsUuid (some uuid)
      → get_row (is_at uuid (net_peer protocol none host port).address) (T.rows s) ≡ none
      → IsGrown uuid
          (net_peer protocol (some uuid) host port)
          (net_peer protocol none host port).address
          s
          (add_or_update T uuid (net_peer protocol none host port).address e s)
  unfolding add_or_update
  add_or_update-IsGrown protocol uuid host port e s p h small u f = rw f (
      unfold save_row in
      rw (init_peer_address-net protocol none (some uuid) host port no_location p h small tt u) (
        create-IsGrown uuid (net_peer protocol none host port).address e s
          (net_peer protocol (some uuid) host port) f
          (address-differs protocol uuid host port p h u.0)))
