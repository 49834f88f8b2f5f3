-- ===== src/Nodes/Tests.antt =====
-- A cluster of two nodes.
use beiran.Base.{List, [], codes, false, refl, same, some, true, ◌∷◌, ◌≡◌}
use beiran.Base.Dict.{erase, insert, lookup, values}
use beiran.Nodes.{Node, Nodes, add_or_update, found, from_get, get, get_node_by_ip_and_port}
use beiran.Nodes.{get_node_by_uuid, set_offline, update_node}
use beiran.Nodes.ListTable.{list_table, put}
use beiran.Nodes.Memory.{Operation, adding, get_node_by_ip_and_port-get_node_by_uuid}
use beiran.Nodes.Memory.{operate, operate_all, setting_offline}
use beiran.Peer.{online}

abbrev node_a : Node
node_a = record {
  uuid = codes "a";
  ip_address = codes "10.0.0.1";
  port = 8888;
  node_status = online;
}

abbrev node_b : Node
node_b = record {
  uuid = codes "b";
  ip_address = codes "10.0.0.2";
  port = 8888;
  node_status = online;
}

abbrev alone : Nodes list_table
alone = record { all_nodes = (codes "a", node_a) ∷ []; local_node = codes "a"; db = node_a ∷ [] }

abbrev joined : List Operation
joined = adding node_b ∷ setting_offline node_a ∷ []

get_node_by_ip_and_port-get_node_by_uuid_example :
    (get_node_by_uuid (some (codes "b")) false (operate_all joined alone) ≡ found (some node_b))
    × (node_b.ip_address ≡ codes "10.0.0.2")
    × (node_b.port ≡ 8888)
unfolding get_node_by_ip_and_port operate_all operate add_or_update update_node set_offline get put
    insert erase lookup values same from_get
get_node_by_ip_and_port-get_node_by_uuid_example =
    get_node_by_ip_and_port-get_node_by_uuid joined alone (codes "10.0.0.2") 8888 node_b
      (refl, refl, tt) refl

-- A node is looked up in the database without regard to its uuid.
any_uuid : get_node_by_uuid (some (codes "nobody")) true alone ≡ found (some node_a)
unfolding get_node_by_uuid get same
any_uuid = refl
