-- ===== src/Probe/Registered.antt =====
-- What `probe_node` of beiran/daemon/peer.py leaves in the registry, in memory and in the database.
use beiran.Address.{PeerAddress}
use beiran.Base.{Bool, List, Option, Text, ap, false, if◌then◌else◌, none, refl, same, same_refl}
use beiran.Base.{some, suc, true, ℕ, ◌<◌, ◌∙◌, ◌≡◌}
use beiran.Base.Dict.{lookup, lookup-insert}
use beiran.Nodes.{Node, NodeTable, get, has_uuid, save_node_row, update_node}
use beiran.Peer.{connecting}
use beiran.Probe.{Fetched, World, after_probe, by_address_uuid, connect, got, probe_node, probed}
use beiran.Probe.{registered, unreachable}
use beiran.Probe.Tries.{try_probe_remote_node-got}

abbrev pub connecting_node : Node → Node
connecting_node n = record n { node_status = connecting }

twice :
    {A : Type 0} (c x y z : A) (b : Bool)
    → x ≡ (if b then y else z)
    → (if b then c else x) ≡ (if b then c else z)
twice c x y z true e = refl
twice c x y z false e = e

module _ {T : NodeTable} where
  lookup-connect :
      (k : Text) (n : Node) (w : World T)
      → lookup k (connect n w).nodes.all_nodes
        ≡ (if same n.uuid k then some (connecting_node n) else lookup k w.nodes.all_nodes)
  unfolding connect update_node
  lookup-connect k n w = lookup-insert k n.uuid (connecting_node n) w.nodes.all_nodes

  get-connect :
      (k : Text) (n : Node) (w : World T)
      → get (has_uuid k) (T.select (connect n w).nodes.db) ≡ (
          if same n.uuid k
          then some (connecting_node n)
          else get (has_uuid k) (T.select w.nodes.db))
  unfolding connect update_node save_node_row
  get-connect k n w = saved (get (has_uuid n.uuid) (T.select w.nodes.db))
    where
      saved :
          (old : Option Node)
          → get
              (has_uuid k)
              (T.select (T.save (connecting_node n) (save_node_row T n old w.nodes.db)))
            ≡ (if same n.uuid k
                then some (connecting_node n)
                else get (has_uuid k) (T.select w.nodes.db))
      saved none =
          T.get-save k (connecting_node n) (T.save n w.nodes.db)
          ∙ twice _ _ _ _ (same n.uuid k) (T.get-save k n w.nodes.db)
      saved (some q) =
          T.get-save k (connecting_node n) (T.save n w.nodes.db)
          ∙ twice _ _ _ _ (same n.uuid k) (T.get-save k n w.nodes.db)

module _ {T : NodeTable} (answers : ℕ → Fetched) where
  probe_new :
      (waits retries : ℕ) (a : PeerAddress) (extra_addr : List Text) (n : Node) (w : World T)
      → a.uuid ≡ none
      → lookup n.uuid w.peer_registry ≡ none
      → ((j : ℕ) → j < waits → answers j ≡ unreachable)
      → answers waits ≡ got n
      → waits < retries
      → probe_node answers retries a extra_addr w
        ≡ (probed (some (connecting_node n)), connect n w, suc waits)
  unfolding probe_node by_address_uuid after_probe registered
  probe_new waits retries a extra_addr n w u l h e lt =
      ap (λ o. by_address_uuid answers retries a extra_addr w o) u
      ∙ (rw (try_probe_remote_node-got answers waits retries a extra_addr n h e lt, l) refl)

  -- An address without a uuid whose node answers before the retries are used up, and is not
  -- registered, gives the node as connecting; it is registered, and in memory and in the database,
  -- under its uuid, and nothing has changed for the other uuids.
  pub lookup-probe_node :
      (waits retries : ℕ) (a : PeerAddress) (extra_addr : List Text) (n : Node) (w : World T)
      (k : Text)
      → a.uuid ≡ none
      → lookup n.uuid w.peer_registry ≡ none
      → ((j : ℕ) → j < waits → answers j ≡ unreachable)
      → answers waits ≡ got n
      → waits < retries
      → let (p, v, fetches) = probe_node answers retries a extra_addr w in
        (p ≡ probed (some (connecting_node n)))
        × (fetches ≡ suc waits)
        × (lookup k v.peer_registry
            ≡ (if same n.uuid k then some (connecting_node n) else lookup k w.peer_registry))
        × (lookup k v.nodes.all_nodes
            ≡ (if same n.uuid k then some (connecting_node n) else lookup k w.nodes.all_nodes))
        × (get (has_uuid k) (T.select v.nodes.db) ≡ (
            if same n.uuid k
            then some (connecting_node n)
            else get (has_uuid k) (T.select w.nodes.db)))
  unfolding connect
  lookup-probe_node waits retries a extra_addr n w k u l h e lt =
      rw (probe_new waits retries a extra_addr n w u l h e lt) (
        refl,
        refl,
        lookup-insert k n.uuid (connecting_node n) w.peer_registry,
        lookup-connect k n w,
        get-connect k n w,
      )

  -- If an address without a uuid is probed, and its node answers before the retries are used up and is
  -- not registered, then an address that has the uuid of the node gives nothing before, and gives the
  -- node afterwards; neither fetches anything or changes anything.
  probe_node_known :
      (waits retries : ℕ) (a known : PeerAddress) (extra_addr : List Text) (n : Node) (w : World T)
      → a.uuid ≡ none
      → lookup n.uuid w.peer_registry ≡ none
      → ((j : ℕ) → j < waits → answers j ≡ unreachable)
      → answers waits ≡ got n
      → waits < retries
      → known.uuid ≡ some n.uuid
      → let (p, v, fetches) = probe_node answers retries a extra_addr w in
        (probe_node answers retries known extra_addr w ≡ (probed none, w, 0))
        × (probe_node answers retries known extra_addr v
            ≡ (probed (some (connecting_node n)), v, 0))
  unfolding probe_node by_address_uuid
  probe_node_known waits retries a known extra_addr n w u l h e lt q =
      let v = (probe_node answers retries a extra_addr w).1 in
      let new = lookup-probe_node waits retries a extra_addr n w n.uuid u l h e lt in
      let there : lookup n.uuid v.peer_registry ≡ some (connecting_node n) =
        new.2 ∙ rw (same_refl n.uuid) refl in
      (
        ap (λ o. by_address_uuid answers retries known extra_addr w o) q
            ∙ ap (λ o. (probed o, w, 0)) l,
        ap (λ o. by_address_uuid answers retries known extra_addr v o) q
            ∙ ap (λ o. (probed o, v, 0)) there,
      )
