-- ===== src/Nodes/Memory.antt =====
-- The nodes in memory and in the database after operations of beiran/daemon/nodes.py.
-- Every node in memory stands under its own uuid, and each uuid once.
use beiran.Base.{Bool, Bool-cases, List, Option, Text, [], ap, arith, false, if◌then◌else◌, inl}
use beiran.Base.{inr, none, refl, same, same_iff, some, sym, true, ℕ, ◌&&◌, ◌==◌, ◌∙◌, ◌∷◌, ◌≡◌}
use beiran.Base.{◌≢◌}
use beiran.Base.Dict.{Dict, erase, insert, lookup, lookup-erase, lookup-insert, values}
use beiran.Nodes.{Node, NodeTable, Nodes, add_or_update, default_uuid, found, from_get, get}
use beiran.Nodes.{get_node_by_ip_and_port, get_node_by_url, get_node_by_uuid, has_uuid}
use beiran.Nodes.{remove_node, save_node_row, set_offline, update_node, update_row}
use beiran.Peer.{offline}

abbrev pub IsOwn : Dict Node → Type 0
IsOwn [] = Unit
IsOwn ((u, n) ∷ d) = (n.uuid ≡ u) × (lookup u d ≡ none) × IsOwn d

pub data Operation : Type 0 where
  updating_node adding setting_offline removing : Node → Operation

module _ {T : NodeTable} where
  unfoldable pub operate : Operation → Nodes T → Nodes T
  operate (updating_node n) s = update_node n s
  operate (adding n) s = add_or_update n s
  operate (setting_offline n) s = set_offline n s
  operate (removing n) s = remove_node n s

  unfoldable pub operate_all : List Operation → Nodes T → Nodes T
  operate_all [] s = s
  operate_all (o ∷ os) s = operate_all os (operate o s)

insert-IsOwn : (n : Node) (d : Dict Node) → IsOwn d → IsOwn (insert n.uuid n d)
unfolding insert lookup
insert-IsOwn n [] h = (refl, refl, tt)
insert-IsOwn n ((u, q) ∷ d) h = elim (Bool-cases (same u n.uuid)) [
  | inl e ↦ rw (e) (sym ((same_iff u n.uuid).0 e), h.1, h.2)
  | inr e ↦ rw (e) (
    h.0,
    ground (arith, lookup-insert u n.uuid n d, same_iff n.uuid u, same_iff u n.uuid, h.1),
    insert-IsOwn n d h.2,
  )
]

erase-IsOwn : (u : Text) (d : Dict Node) → IsOwn d → IsOwn (erase u d)
unfolding erase lookup
erase-IsOwn u [] h = tt
erase-IsOwn u ((v, q) ∷ d) h = elim (Bool-cases (same v u)) [
  | inl e ↦ rw (e) (erase-IsOwn u d h.2)
  | inr e ↦ rw (e) (h.0, rw (lookup-erase v u d, h.1) (ground arith), erase-IsOwn u d h.2)
]

module _ {T : NodeTable} where
  operate-IsOwn : (o : Operation) (s : Nodes T) → IsOwn s.all_nodes → IsOwn (operate o s).all_nodes
  unfolding operate update_node add_or_update set_offline remove_node
  operate-IsOwn (updating_node n) s h = insert-IsOwn n s.all_nodes h
  operate-IsOwn (adding n) s h = insert-IsOwn n s.all_nodes h
  operate-IsOwn (setting_offline n) s h = erase-IsOwn n.uuid s.all_nodes h
  operate-IsOwn (removing n) s h = erase-IsOwn n.uuid s.all_nodes h

  -- After any operations on nodes that stand under their own uuids once each, they still do.
  operate_all-IsOwn :
      (os : List Operation) (s : Nodes T) → IsOwn s.all_nodes → IsOwn (operate_all os s).all_nodes
  unfolding operate_all
  operate_all-IsOwn [] s h = h
  operate_all-IsOwn (o ∷ os) s h = operate_all-IsOwn os (operate o s) (operate-IsOwn o s h)

get-values :
    (p : Node → Bool) (n : Node) (d : Dict Node)
    → IsOwn d
    → get p (values d) ≡ some n
    → (lookup n.uuid d ≡ some n) × (p n ≡ true)
unfolding get values lookup
get-values p n [] h e = absurd (ground arith)
get-values p n ((u, q) ∷ d) h e =
    let tail = get-values p n d h.2 in
    let gone : u ≡ n.uuid → lookup n.uuid d ≡ none = λ r. ap (λ x. lookup x d) (sym r) ∙ h.1 in
    elim (Bool-cases (p q)) [
      | inl c ↦
          let is_n : q ≡ n = ground arith in
          let own : u ≡ n.uuid = sym h.0 ∙ ap (λ r. r.uuid) is_n in
          (rw ((same_iff u n.uuid).1 own) (ap some is_n), ap p (sym is_n) ∙ c)
      | inr c ↦
          let (there, holds) = tail (ground arith) in
          (ground (arith, there, gone, same_iff u n.uuid), holds)
    ]

from_get-found : (o : Option Node) (n : Node) → from_get o ≡ found (some n) → o ≡ some n
unfolding from_get
from_get-found none n h = absurd (ground arith)
from_get-found (some q) n h = ground arith

module _ {T : NodeTable} where
  -- A node that get_node_by_ip_and_port finds in memory, after any operations on nodes that stand
  -- under their own uuids once each, has this address and port, and get_node_by_uuid finds it.
  pub get_node_by_ip_and_port-get_node_by_uuid :
      (os : List Operation) (s : Nodes T) (ip : Text) (port : ℕ) (n : Node)
      → IsOwn s.all_nodes
      → get_node_by_ip_and_port ip port false (operate_all os s) ≡ found (some n)
      → (get_node_by_uuid (some n.uuid) false (operate_all os s) ≡ found (some n))
        × (n.ip_address ≡ ip)
        × (n.port ≡ port)
  unfolding get_node_by_ip_and_port get_node_by_uuid default_uuid
  get_node_by_ip_and_port-get_node_by_uuid os s ip port n h e =
      let d = (operate_all os s).all_nodes in
      let at_address : Node → Bool = λ q. same q.ip_address ip && q.port == port in
      let (there, holds) =
        get-values at_address n d (operate_all-IsOwn os s h)
          (from_get-found (get at_address (values d)) n e) in
      (ap found there, (same_iff n.ip_address ip).0 (ground (arith, holds)), ground (arith, holds))

  -- The node's url with its uuid leads to the same node as its address.
  pub get_node_by_url_agree :
      (os : List Operation) (s : Nodes T) (ip fragment : Text) (port : ℕ) (n : Node)
      → IsOwn s.all_nodes
      → get_node_by_ip_and_port ip port false (operate_all os s) ≡ found (some n)
      → n.uuid ≡ fragment
      → fragment ≢ []
      → get_node_by_url (fragment, ip, port) false (operate_all os s) ≡ found (some n)
  unfolding get_node_by_url
  get_node_by_url_agree os s ip [] port n h e u ne = absurd (ne refl)
  get_node_by_url_agree os s ip (c ∷ w) port n h e u ne =
      ap (λ x. get_node_by_uuid (some x) false (operate_all os s)) (sym u)
      ∙ (get_node_by_ip_and_port-get_node_by_uuid os s ip port n h e).0

  -- After add_or_update every uuid leads in memory to the node if it is the node's, and to what it
  -- led to otherwise; the same holds of the database.
  pub lookup-add_or_update :
      (k : Text) (n : Node) (s : Nodes T)
      → (lookup k (add_or_update n s).all_nodes
          ≡ (if same n.uuid k then some n else lookup k s.all_nodes))
        × (get (has_uuid k) (T.select (add_or_update n s).db)
            ≡ (if same n.uuid k then some n else get (has_uuid k) (T.select s.db)))
  unfolding add_or_update update_node save_node_row
  lookup-add_or_update k n s =
      (lookup-insert k n.uuid n s.all_nodes, saved (get (has_uuid n.uuid) (T.select s.db)))
    where
      saved :
          (old : Option Node)
          → get (has_uuid k) (T.select (save_node_row T n old s.db))
            ≡ (if same n.uuid k then some n else get (has_uuid k) (T.select s.db))
      saved none = T.get-save k n s.db
      saved (some q) = T.get-save k n s.db

  -- After set_offline the node is not in memory, and offline in the database if it has a row there; for
  -- the other uuids nothing has changed.
  lookup-set_offline :
      (k : Text) (n : Node) (s : Nodes T)
      → (lookup k (set_offline n s).all_nodes
          ≡ (if same n.uuid k then none else lookup k s.all_nodes))
        × (get (has_uuid k) (T.select (set_offline n s).db) ≡ (
            if same n.uuid k
            then elim (get (has_uuid k) (T.select s.db)) [
              | none ↦ none
              | some _ ↦ some (record n { node_status = offline })
            ]
            else get (has_uuid k) (T.select s.db)))
  unfolding set_offline update_row
  lookup-set_offline k n s =
      (lookup-erase k n.uuid s.all_nodes, changed_row (get (has_uuid n.uuid) (T.select s.db)) refl)
    where
      row : Node
      row = record n { node_status = offline }

      there :
          same n.uuid k ≡ true
          → get (has_uuid k) (T.select s.db) ≡ get (has_uuid n.uuid) (T.select s.db)
      there b = ap (λ u. get (has_uuid u) (T.select s.db)) (sym ((same_iff n.uuid k).0 b))

      changed_row :
          (o : Option Node)
          → get (has_uuid n.uuid) (T.select s.db) ≡ o
          → get (has_uuid k) (T.select (update_row T row o s.db)) ≡ (
              if same n.uuid k
              then elim (get (has_uuid k) (T.select s.db)) [ none ↦ none | some _ ↦ some row ]
              else get (has_uuid k) (T.select s.db))
      changed_row none e = elim (Bool-cases (same n.uuid k)) [
        | inl b ↦ rw (b, there b ∙ e) refl
        | inr b ↦ rw b refl
      ]
      changed_row (some q) e = elim (Bool-cases (same n.uuid k)) [
        | inl b ↦ T.get-save k row s.db ∙ rw (b, there b ∙ e) refl
        | inr b ↦ T.get-save k row s.db ∙ rw b refl
      ]
