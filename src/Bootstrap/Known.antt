-- ===== src/Bootstrap/Known.antt =====
-- A known URL at which a node of the database was seen.
use beiran.Address.{PeerAddress, location, port_or_default, protocol_or_http}
use beiran.Address.RoundTrip.{IsName}
use beiran.Address.Stable.{IsUuid, init_peer_address-net, net_peer}
use beiran.Base.{Bool, List, Option, Text, [], arith, false, inl, inr, map, member, none, refl}
use beiran.Base.{same, same_iff, same_refl, sym, true, ℕ, ◌++◌, ◌∷◌, ◌≡◌, ◌≤◌, ◌⊎◌}
use beiran.Bootstrap.{Task, add_known, add_node, after_nodes, no_location, probe_db_nodes}
use beiran.Bootstrap.{probe_known, probe_without_discovery}

abbrev pub IsConnection : PeerAddress → List PeerAddress → Type 0
IsConnection p [] = ⊥
IsConnection p (c ∷ cs) = (p ≡ c) ⊎ IsConnection p cs

member-append-left :
    (t : Text) (us vs : List Text) → member t us ≡ true → member t (us ++ vs) ≡ true
unfolding member
member-append-left t [] vs h = absurd cc
member-append-left t (u ∷ us) vs h = ground (arith, member-append-left t us vs)

member-append-right :
    (t : Text) (us vs : List Text) → member t vs ≡ true → member t (us ++ vs) ≡ true
unfolding member
member-append-right t [] vs h = h
member-append-right t (u ∷ us) vs h = ground (arith, member-append-right t us vs h)

member-location :
    (p : PeerAddress) (cs : List PeerAddress)
    → IsConnection p cs
    → member (location p) (map location cs) ≡ true
unfolding member
member-location p [] h = absurd h
member-location p (c ∷ cs) (inl e) = rw (e, same_refl) refl
member-location p (c ∷ cs) (inr h) = ground (arith, member-location p cs h)

module _ (local_uuid : Text) (connections : Text → List PeerAddress) where
  add_node-location :
      (p : PeerAddress) (cs : List PeerAddress) (rest : List Text × List Task × Bool)
      → IsConnection p cs ⊎ (rest.2 ≡ true → member (location p) rest.0 ≡ true)
      → (add_node cs rest).2 ≡ true
      → member (location p) (add_node cs rest).0 ≡ true
  unfolding add_node
  add_node-location p [] rest h f = absurd cc
  add_node-location p (c ∷ cs) (locations, tasks, fine) (inl h) f =
      member-append-left (location p) (map location (c ∷ cs)) locations
        (member-location p (c ∷ cs) h)
  add_node-location p (c ∷ cs) (locations, tasks, fine) (inr h) f =
      member-append-right (location p) (map location (c ∷ cs)) locations (h f)

  -- The locations of the connections of all other nodes are among those that are probed.
  probe_db_nodes-location :
      (p : PeerAddress) (u : Text) (us : List Text)
      → same u local_uuid ≡ false
      → IsConnection p (connections u)
      → member u us ≡ true
      → (probe_db_nodes local_uuid connections us).2 ≡ true
      → member (location p) (probe_db_nodes local_uuid connections us).0 ≡ true
  unfolding probe_db_nodes member
  probe_db_nodes-location p u [] ne h k f = absurd cc
  probe_db_nodes-location p u (v ∷ us) ne h k f =
      step (same v local_uuid) refl (same v u) refl (λ m g. probe_db_nodes-location p u us ne h m g)
        f
    where
      step :
          (b : Bool)
          → same v local_uuid ≡ b
          → (c : Bool) → same v u ≡ c
          → (member u us ≡ true
              → (probe_db_nodes local_uuid connections us).2 ≡ true
              → member (location p) (probe_db_nodes local_uuid connections us).0 ≡ true)
          → (probe_db_nodes local_uuid connections (v ∷ us)).2 ≡ true
          → member (location p) (probe_db_nodes local_uuid connections (v ∷ us)).0 ≡ true
      step true e true q ih f =
          let u_local : same u local_uuid ≡ true = rw (sym ((same_iff v u).0 q)) e in
          absurd (cc (u_local, ne))
      step true e false q ih f = rw e (ih (ground (arith)) (rw e at f))
      step false e true q ih f = rw e (
          add_node-location p (connections v) (probe_db_nodes local_uuid connections us)
            (inl (rw ((same_iff v u).0 q) h)) (rw e at f))
      step false e false q ih f = rw e (
          add_node-location p (connections v) (probe_db_nodes local_uuid connections us)
            (inr (ih (ground arith))) (rw e at f))

  -- A known URL that PeerAddress would build from a host, a protocol and a port, with or without a
  -- uuid, is not probed if some node of the database other than the local one has a connection to the
  -- same host, protocol and port: the daemon starts as it does without that URL, wherever it stands
  -- among the known URLs. The protocol and the host are texts of lower-case letters, digits, dots and
  -- dashes, not empty, the port is at most 65535, and a uuid is not empty and reads back as itself.
  pub probe_without_discovery-known :
      (protocol uuid other : Option Text) (host : Text) (port : Option ℕ) (u : Text)
      (db_nodes before after : List Text)
      → IsName (protocol_or_http protocol)
      → IsName host
      → port_or_default port ≤ 65535
      → IsUuid uuid
      → same u local_uuid ≡ false
      → member u db_nodes ≡ true
      → IsConnection (net_peer protocol other host port) (connections u)
      → probe_without_discovery local_uuid connections db_nodes
          (before ++ ((net_peer protocol uuid host port).address ∷ after))
        ≡ probe_without_discovery local_uuid connections db_nodes (before ++ after)
  unfolding probe_without_discovery probe_known add_known after_nodes
  probe_without_discovery-known protocol uuid other host port u db_nodes before after p h small v ne
        k c =
      go (probe_db_nodes local_uuid connections db_nodes)
        (probe_db_nodes-location (net_peer protocol other host port) u db_nodes ne c k)
    where
      known : Text
      known = (net_peer protocol uuid host port).address

      skip :
          (locations urls : List Text)
          → member (location (net_peer protocol none host port)) locations ≡ true
          → probe_known locations (urls ++ (known ∷ after)) ≡ probe_known locations (urls ++ after)
      skip locations [] seen =
          rw (init_peer_address-net protocol uuid none host port no_location p h small v tt, seen)
            refl
      skip locations (url ∷ urls) seen = rw (skip locations urls seen) refl

      go :
          (r : List Text × List Task × Bool)
          → (r.2 ≡ true → member (location (net_peer protocol other host port)) r.0 ≡ true)
          → after_nodes (before ++ (known ∷ after)) r ≡ after_nodes (before ++ after) r
      go (locations, tasks, false) m = refl
      go (locations, tasks, true) m =
          let seen : member (location (net_peer protocol none host port)) locations ≡ true =
            unfold location in m refl in
          rw (skip locations before seen) refl
