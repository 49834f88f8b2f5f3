-- ===== src/Http.antt =====
-- beiran/lib.py: requests with retries. What becomes of each try is the input; after the tries that
-- are given the server does not answer any more.
pub mod Retry
mod Tests
use beiran.Base.{List, Option, Text, [], map, none, some, suc, zero, ℕ, ◌++◌, ◌∷◌}

-- The chunks are those that arrived before the end of the try.
pub data Try (R : Type 0) : Type 0 where
  no_response : Try R
  refused : Try R
  stalled : List Text → Try R
  broken : List Text → Try R
  answered : List Text → R → Try R

pub data Reply (R : Type 0) : Type 0 where
  returned : R → Reply R
  timeout_error : Reply R
  other_error : Reply R

-- The file at the path, and the queue if one is given; `none` in the queue marks the end.
pub record Sink : Type 0 where
  pub file : Option (List Text)
  pub queue : Option (List (Option Text))

unfoldable pub give : List (Option Text) → Option (List (Option Text)) → Option (List (Option Text))
give cs none = none
give cs (some q) = some (q ++ cs)

unfoldable pub put_all : List (Option Text) → Sink → Sink
put_all cs s = record s { queue = give cs s.queue }

-- `open(save_path, 'wb')` empties the file; every chunk goes to the file and to the queue.
unfoldable pub write_chunks : List Text → Sink → Sink
write_chunks cs s = put_all (map some cs) (record s { file = some cs })

module _ {R : Type 0} where
  first_reply : Try R → Reply R → Reply R
  first_reply no_response next = next
  first_reply (stalled cs) next = next
  first_reply refused next = other_error
  first_reply (broken cs) next = other_error
  first_reply (answered cs r) next = returned r

  unfoldable pub async_req : ℕ → List (Try R) → Reply R
  unfolding first_reply
  async_req zero tries = timeout_error
  async_req (suc n) [] = async_req n []
  async_req (suc n) (t ∷ ts) = first_reply t (async_req n ts)

  unfoldable pub after_try : Try R → Sink → (Sink → Reply R × Sink) → Reply R × Sink
  after_try no_response s next = next s
  after_try refused s next = (other_error, s)
  after_try (stalled cs) s next = next (write_chunks cs s)
  after_try (broken cs) s next = (other_error, write_chunks cs s)
  after_try (answered cs r) s next = (returned r, put_all (none ∷ []) (write_chunks cs s))

  unfoldable pub async_write_file_stream : ℕ → List (Try R) → Sink → Reply R × Sink
  unfolding give put_all write_chunks after_try
  async_write_file_stream zero tries s = (timeout_error, s)
  async_write_file_stream (suc n) [] s = async_write_file_stream n [] s
  async_write_file_stream (suc n) (t ∷ ts) s = after_try t s (async_write_file_stream n ts)
