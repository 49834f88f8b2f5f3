-- ===== src/Docker/Pull/Tests.antt =====
-- Pulls of an image of 200 bytes from another node.
use beiran.Base.{List, Text, [], all_chars, codes, false, has, length, none, print_nat, refl}
use beiran.Base.{same, some, str, true, ℕ, ◌/◌, ◌∷◌, ◌≡◌, ◌≤◌}
use beiran.Base.Dict.{lookup}
use beiran.Docker.Pull.{Cluster, Image, Import, Request, Stream, broken, choose_node, done_item}
use beiran.Docker.Pull.{
  failed, find_node, finish, import_error, imported, opening, progress_item, pull_routine, pulled,
  sender,
}
use beiran.Docker.Pull.{stream_error, whole, write}
use beiran.Docker.Pull.Reported.{Climbs, closed, pull_routine-IsAnswered, pull_routine-open}
use beiran.Docker.Pull.Reported.{response_body}
use beiran.Nodes.{Node, get_node_by_uuid}
use beiran.Nodes.ListTable.{list_table}
use beiran.Peer.{online}

abbrev busybox : Image
busybox = record { hash_id = codes "sha256:b"; percent = λ m. some (m / 2) }

abbrev parts : List Text
parts = codes "abcdefgh" ∷ codes "ijklmnop" ∷ codes "qrstuvwxyz" ∷ []

abbrev other_node : Node
other_node = record {
  uuid = codes "a1";
  ip_address = codes "10.0.0.1";
  port = 8888;
  node_status = online;
}

abbrev cluster : Stream → Import → Cluster list_table
cluster s docker = record {
  nodes = record {
    all_nodes = (codes "a0", other_node) ∷ (codes "a1", other_node) ∷ [];
    local_node = codes "a0";
    db = [];
  };
  available_nodes = λ i. codes "a9" ∷ codes "a1" ∷ [];
  image_data = λ i. some busybox;
  choice = λ n ns. n;
  url_parts = λ u. ([], u, 8888);
  streams = λ n i. s;
  docker = docker;
}

abbrev with_progress : Request
with_progress = record {
  image_identifier = codes "busybox";
  node_identifier = none;
  wait = false;
  show_progress = true;
  force = false;
}

pulled_body :
    (pull_routine (cluster (whole parts) imported) with_progress).0.body
    ≡ codes
        "{\"image\":\"busybox\",\"progress\":[{\"progress\": 8, \"done\": false},{\"progress\": 13, \"done\": true}]}"
unfolding pull_routine choose_node find_node opening sender write finish done_item progress_item
    same has all_chars str print_nat lookup get_node_by_uuid
pulled_body = refl

-- Docker's import fails after it has read a chunk.
import_fails : pull_routine (cluster (whole parts) (failed 1)) with_progress ≡ (
  record {
    body = codes "{\"image\":\"busybox\",\"progress\":[";
    finished = false;
    misused = false;
  },
  import_error,
)
unfolding pull_routine choose_node find_node opening sender write finish done_item progress_item
    same has all_chars str print_nat lookup get_node_by_uuid
import_fails = refl

pull_routine-IsAnswered_example :
    (ps : List ℕ) × (last : ℕ) × (pull_routine (cluster (whole parts) imported) with_progress
      ≡ (closed (response_body with_progress ps last), pulled (codes "sha256:b")))
    × Climbs 0 ps
    × (length ps ≤ 16)
    × (last ≤ 100)
unfolding choose_node find_node same lookup has all_chars get_node_by_uuid
pull_routine-IsAnswered_example =
    pull_routine-IsAnswered (cluster (whole parts) imported) with_progress busybox (codes "a1")
      other_node parts (λ m. (m / 2, refl)) refl refl refl refl refl

pull_routine-open_example :
    ((pull_routine (cluster (broken parts) imported) with_progress).1 ≡ stream_error)
    × ((pull_routine (cluster (broken parts) imported) with_progress).0.finished ≡ false)
unfolding choose_node find_node same lookup has all_chars get_node_by_uuid
pull_routine-open_example =
    pull_routine-open (cluster (broken parts) imported) with_progress busybox (codes "a1")
      other_node (broken parts) (refl, (refl, (refl, tt))) refl refl refl refl refl
