-- ===== src/Docker/Pull.antt =====
-- plugins/beiran_interface_docker/api.py: the pull of a whole image from another node (pull_routine of
-- ImageList, called by a request), with what it writes to the response.
-- What the table of images and the other node give is the input, and so is whether docker imports the
-- stream. The division of floats is a part of the input.
pub mod Reported
mod Tests
use beiran.Base.{Bool, List, Option, Text, [], all_chars, codes, false, has, if◌then◌else◌}
use beiran.Base.{
  is_nil, length, ltb, map, none, not, some, str, take, true, ℕ, ◌&&◌, ◌++◌, ◌+◌, ◌-◌,
}
use beiran.Base.{◌∷◌}
use beiran.Base.Dict.{lookup}
use beiran.Nodes.{Lookup, Node, NodeTable, Nodes, does_not_exist, found, get_node_by_url}
use beiran.Nodes.{get_node_by_uuid}

-- `misused`: it was written to, or finished, after its end, which tornado refuses.
pub record Response : Type 0 where
  pub body : Text
  pub finished : Bool
  pub misused : Bool

abbrev pub no_response : Response
no_response = record { body = []; finished = false; misused = false }

unfoldable pub write : Text → Response → Response
write t r = if r.finished then record r { misused = true } else record r { body = r.body ++ t }

unfoldable pub finish : Response → Response
finish r = if r.finished then record r { misused = true } else record r { finished = true }

unfoldable pub opening : Text → Text
opening image_identifier = codes "{\"image\":\"" ++ (image_identifier ++ codes "\",\"progress\":[")

unfoldable pub progress_item : ℕ → Text
progress_item n = codes "{\"progress\": " ++ (str n ++ codes ", \"done\": false},")

unfoldable pub done_item : ℕ → Text
done_item n = codes "{\"progress\": " ++ (str n ++ codes ", \"done\": true}")

-- `not_divided`: the size of the image is 0. `waiting`: there is nothing more in the queue.
pub data Sender : Type 0 where
  ended not_divided waiting : Sender

close_progress : Bool → ℕ → Response → Response
close_progress show_progress progress r =
    if show_progress then finish (write (codes "]}") (write (done_item progress) r)) else r

-- The progress in percent, `int(real_size / float(image.size) * 100)`, is a parameter.
module _ (percent : ℕ → Option ℕ) (show_progress : Bool) where
  is_reported : ℕ → ℕ → Bool
  is_reported progress last_progress = show_progress && ltb 5 (progress - last_progress)

  unfoldable pub sender : List (Option Text) → ℕ → ℕ → ℕ → Response → Response × Sender
  unfolding close_progress is_reported
  sender [] real_size progress last_progress r = (r, waiting)
  sender (none ∷ q) real_size progress last_progress r =
      (close_progress show_progress progress r, ended)
  sender (some [] ∷ q) real_size progress last_progress r =
      (close_progress show_progress progress r, ended)
  sender (some (c ∷ chunk) ∷ q) real_size progress last_progress r =
      elim (percent (real_size + length (c ∷ chunk))) [
        | none ↦ (r, not_divided)
        | some n ↦
            let now = if ltb 100 n then 100 else n in
            sender q (real_size + length (c ∷ chunk)) now
              (if is_reported now last_progress then now else last_progress)
              (if is_reported now last_progress then write (progress_item now) r else r)
      ]

pub record Image : Type 0 where
  pub hash_id : Text
  pub percent : ℕ → Option ℕ

-- What comes of stream_image: the image, a Client.Error, or another exception after some chunks.
pub data Stream : Type 0 where
  whole : List Text → Stream
  refused : Stream
  broken : List Text → Stream

pub record Request : Type 0 where
  pub image_identifier : Text
  pub node_identifier : Option Text
  pub wait : Bool
  pub show_progress : Bool
  pub force : Bool

-- `no_client` is the ValueError for a node that is None.
pub data Pulled : Type 0 where
  pulled : Text → Pulled
  http_error : ℕ → Pulled
  no_node no_client no_attribute no_division stream_error import_error : Pulled

-- `^([a-f0-9]+)$`, without regard to case
is_uuid : Text → Bool
is_uuid s = not (is_nil s) && all_chars (λ c. has c (codes "0123456789abcdefABCDEF")) s

begin : Request → Response
begin q =
    if q.show_progress
    then write (opening q.image_identifier) no_response
    else if not q.wait
    then finish (write (codes "{\"started\": true}") no_response)
    else no_response

-- What docker's import makes of the stream: it reads it to its end and imports it, or it raises an
-- exception after it has read some chunks.
pub data Import : Type 0 where
  imported : Import
  failed : ℕ → Import

-- What is read of the queue of chunks.
read_of : Import → List (Option Text) → List (Option Text)
read_of imported q = q
read_of (failed n) q = take n q

-- The code below `await docker_result`, which raises the exception of the sender or of the import.
conclude : Request → Text → Import → Response × Sender → Response × Pulled
conclude q hash_id docker (r, not_divided) = (r, no_division)
conclude q hash_id (failed n) (r, _) = (r, import_error)
conclude q hash_id imported (r, _) = (
  if q.wait && not q.show_progress then finish (write (codes "{\"finished\": true}") r) else r,
  pulled hash_id,
)

stream : Request → Image → Import → Stream → Response × Pulled
stream q image docker (whole chunks) = conclude q image.hash_id docker (
    sender image.percent q.show_progress (read_of docker (map some chunks ++ (none ∷ []))) 0 0 0
      (begin q))
stream q image docker refused = (begin q, if q.wait then http_error 500 else pulled image.hash_id)
stream q image docker (broken chunks) = (
  (sender image.percent q.show_progress (read_of docker (map some chunks)) 0 0 0 (begin q)).0,
  stream_error,
)

-- What becomes of the node: the ValueError and the exception of the lookup, and the AttributeError of
-- `nodes.fetch_node_info`, which the registry of nodes does not have.
pub data Target : Type 0 where
  target : Node → Target
  not_targeted : Pulled → Target

target_of : Bool → Lookup → Target
target_of force (found (some n)) = target n
target_of force (found none) = not_targeted no_client
target_of force does_not_exist = not_targeted (if force then no_attribute else no_node)

pub record Cluster (T : NodeTable) : Type 0 where
  pub nodes : Nodes T
  -- What the table of images gives.
  pub available_nodes : Text → List Text
  pub image_data : Text → Option Image
  -- `random.choice` of a list that is not empty
  pub choice : Text → List Text → Text
  -- The fragment, the host name and the port of a URL
  pub url_parts : Text → Text × Text × ℕ
  pub streams : Node → Text → Stream
  pub docker : Import

module _ {T : NodeTable} (C : Cluster T) where
  online : List Text → List Text
  online [] = []
  online (n ∷ ns) =
      let rest = online ns in elim (lookup n C.nodes.all_nodes) [ none ↦ rest | some _ ↦ n ∷ rest ]

  choose : List Text → Option Text
  choose [] = none
  choose (n ∷ ns) = some (C.choice n ns)

  unfoldable pub choose_node : Text → Option Text → Option Text
  unfolding online choose
  choose_node image_identifier (some (c ∷ s)) = some (c ∷ s)
  choose_node image_identifier _ = choose (online (C.available_nodes image_identifier))

  unfoldable pub find_node : Bool → Text → Target
  unfolding is_uuid target_of
  find_node force node_identifier = target_of force (
      if is_uuid node_identifier
      then get_node_by_uuid (some node_identifier) false C.nodes
      else get_node_by_url (C.url_parts node_identifier) false C.nodes)

  pull_from : Request → Image → Target → Response × Pulled
  pull_from q image (target n) = stream q image C.docker (C.streams n q.image_identifier)
  pull_from q image (not_targeted e) = (no_response, e)

  pull_image : Request → Text → Option Image → Response × Pulled
  pull_image q node_identifier none = (no_response, http_error 404)
  pull_image q node_identifier (some image) = pull_from q image (find_node q.force node_identifier)

  pull_at : Request → Option Text → Response × Pulled
  pull_at q none = (no_response, http_error 404)
  pull_at q (some node_identifier) = pull_image q node_identifier (C.image_data q.image_identifier)

  unfoldable pub pull_routine : Request → Response × Pulled
  unfolding begin read_of conclude stream pull_from pull_image pull_at
  pull_routine q = pull_at q (choose_node q.image_identifier q.node_identifier)
