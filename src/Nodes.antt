-- ===== src/Nodes.antt =====
-- beiran/daemon/nodes.py: the nodes of the cluster in memory, over the table of nodes in the database
-- (with `Node.add_or_update` of beiran/models/node.py). The addresses of peers, which saving a node
-- stores too, are left out.
pub mod Memory
pub mod ListTable
mod Tests
use beiran.Base.{Bool, List, Option, Text, [], if◌then◌else◌, none, not, same, some, ℕ, ◌&&◌}
use beiran.Base.{◌==◌, ◌∷◌, ◌≡◌}
use beiran.Base.Dict.{Dict, erase, insert, lookup, values}
use beiran.Peer.{NodeStatus, offline}

pub record Node : Type 0 where
  pub uuid : Text
  pub ip_address : Text
  pub port : ℕ
  pub node_status : NodeStatus

-- `get` of the first row for which the condition holds; `none` is `DoesNotExist`.
unfoldable pub get : (Node → Bool) → List Node → Option Node
get p [] = none
get p (n ∷ ns) = if p n then some n else get p ns

abbrev pub has_uuid : Text → Node → Bool
has_uuid u n = same n.uuid u

-- The table as peewee documents it: `select` and `save`, for rows with the uuid as primary key.
pub record NodeTable : Type 1 where
  pub State : Type 0
  pub select : State → List Node
  pub save : Node → State → State
  pub get-save :
      (u : Text) (n : Node) (s : State)
      → get (has_uuid u) (select (save n s))
        ≡ (if same n.uuid u then some n else get (has_uuid u) (select s))

-- What may come of a lookup: `None` is `found none`.
pub data Lookup : Type 0 where
  found : Option Node → Lookup
  does_not_exist : Lookup

from_get : Option Node → Lookup
from_get none = does_not_exist
from_get (some n) = found (some n)

module _ (T : NodeTable) where
  pub record Nodes : Type 0 where
    pub all_nodes : Dict Node
    pub local_node : Text
    pub db : T.State

collect_rows : Dict Node → List Node → Dict Node
collect_rows d [] = d
collect_rows d (n ∷ ns) = collect_rows (insert n.uuid n d) ns

-- `save` of a node, whose uuid is set, is an UPDATE: it does nothing where there is no row.
update_row : (T : NodeTable) → Node → Option Node → T.State → T.State
update_row T n none d = d
update_row T n (some old) d = T.save n d

-- `update_using_obj` copies every field; the node that was given is returned.
unfoldable pub save_node_row : (T : NodeTable) → Node → Option Node → T.State → T.State
save_node_row T n (some old) d =
    T.save
      (record old {
        uuid = n.uuid;
        ip_address = n.ip_address;
        port = n.port;
        node_status = n.node_status;
      })
      d
save_node_row T n none d = T.save n d

module _ {T : NodeTable} where
  -- The dict of the rows by uuid.
  get_from_db : Nodes T → Dict Node
  get_from_db s = collect_rows [] (T.select s.db)

  unfoldable pub list_of_nodes : Bool → Nodes T → List Node
  unfolding get_from_db collect_rows
  list_of_nodes from_db s = if from_db then values (get_from_db s) else values s.all_nodes

  -- `Node.get(uuid == uuid)`: the condition is `True`.
  get_node_by_uuid_from_db : Text → Nodes T → Lookup
  get_node_by_uuid_from_db uuid s = from_get (get (λ n. same uuid uuid) (T.select s.db))

  default_uuid : Option Text → Nodes T → Text
  default_uuid none s = s.local_node
  default_uuid (some u) s = u

  unfoldable pub get_node_by_uuid : Option Text → Bool → Nodes T → Lookup
  unfolding from_get get_node_by_uuid_from_db default_uuid
  get_node_by_uuid uuid from_db s =
      if not from_db
      then found (lookup (default_uuid uuid s) s.all_nodes)
      else get_node_by_uuid_from_db (default_uuid uuid s) s

  unfoldable pub update_node : Node → Nodes T → Nodes T
  update_node n s = record s { all_nodes = insert n.uuid n s.all_nodes }

  unfoldable pub set_offline : Node → Nodes T → Nodes T
  unfolding update_row
  set_offline n s = record s {
    db =
        update_row T (record n { node_status = offline }) (get (has_uuid n.uuid) (T.select s.db))
          s.db;
    all_nodes = erase n.uuid s.all_nodes;
  }

  unfoldable pub add_or_update : Node → Nodes T → Nodes T
  unfolding save_node_row
  add_or_update n s =
      let d = save_node_row T n (get (has_uuid n.uuid) (T.select s.db)) s.db in
      update_node n (record s { db = d })

  unfoldable pub remove_node : Node → Nodes T → Nodes T
  remove_node n s = set_offline n s

  unfoldable pub get_node_by_ip_and_port : Text → ℕ → Bool → Nodes T → Lookup
  unfolding from_get
  get_node_by_ip_and_port ip port from_db s =
      let at_address : Node → Bool = λ n. same n.ip_address ip && n.port == port in
      if from_db
      then from_get (get at_address (T.select s.db))
      else from_get (get at_address (values s.all_nodes))

  -- The url is given by its fragment, host name and port.
  unfoldable pub get_node_by_url : Text × Text × ℕ → Bool → Nodes T → Lookup
  get_node_by_url ([], hostname, port) from_db s = get_node_by_ip_and_port hostname port from_db s
  get_node_by_url (c ∷ fragment, hostname, port) from_db s =
      get_node_by_uuid (some (c ∷ fragment)) from_db s
