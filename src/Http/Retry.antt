-- ===== src/Http/Retry.antt =====
-- The retries of beiran/lib.py: what has become of the reply, the file and the queue.
use beiran.Base.{List, Option, Text, [], ap, append_assoc, arith, if◌then◌else◌, length, ltb, map}
use beiran.Base.{none, refl, some, suc, sym, zero, ℕ, ◌++◌, ◌<◌, ◌∙◌, ◌∷◌, ◌≡◌}
use beiran.Http.{Try, answered, async_req, async_write_file_stream, give, no_response, put_all}
use beiran.Http.{returned, stalled, timeout_error, write_chunks}

module _ {R : Type 0} where
  -- A try that times out, with the chunks that it received if the server responded.
  unfoldable pub timing_out : Option (List Text) → Try R
  timing_out none = no_response
  timing_out (some cs) = stalled cs

  unfoldable pub tries_before : List (Option (List Text)) → List (Try R) → List (Try R)
  tries_before [] ts = ts
  tries_before (w ∷ ws) ts = timing_out w ∷ tries_before ws ts

-- The chunks of the tries that timed out, in order.
unfoldable pub received : List (Option (List Text)) → List Text
received [] = []
received (none ∷ ws) = received ws
received (some cs ∷ ws) = cs ++ received ws

queue_append :
    (q : List (Option Text)) (ds cs : List Text) (z : List (Option Text))
    → (q ++ map some ds) ++ (map some cs ++ z) ≡ q ++ (map some (ds ++ cs) ++ z)
queue_append q ds cs z =
    rw (append_assoc q (map some ds) (map some cs ++ z)) (ap (λ r. q ++ r) (go ds))
  where
    go : (ds : List Text) → map some ds ++ (map some cs ++ z) ≡ map some (ds ++ cs) ++ z
    go [] = refl
    go (d ∷ ds) = ap (λ r. some d ∷ r) (go ds)

module _ {R : Type 0} where
  -- If tries that time out come before one that is answered, and there are fewer of them than
  -- retries, the answer is returned, the file holds the chunks of the answer alone, and the queue
  -- has been given the chunks of all the tries and the end.
  pub async_write_file_stream_lem :
      (retry : ℕ) (waits : List (Option (List Text))) (cs : List Text) (r : R)
      (later : List (Try R)) (file : Option (List Text)) (q : List (Option Text))
      → length waits < retry
      → async_write_file_stream retry
          (tries_before waits (answered cs r ∷ later))
          (record { file = file; queue = some q })
        ≡ (
          returned r,
          record {
            file = some cs;
            queue = some (q ++ (map some (received waits ++ cs) ++ (none ∷ [])));
          },
        )
  unfolding async_write_file_stream tries_before timing_out received write_chunks put_all give
  async_write_file_stream_lem zero waits cs r later file q h = absurd (omega arith)
  async_write_file_stream_lem (suc n) [] cs r later file q h =
      ap (λ k. (returned r, record { file = some cs; queue = some k }))
        (append_assoc q (map some cs) (none ∷ []))
  async_write_file_stream_lem (suc n) (none ∷ ws) cs r later file q h =
      async_write_file_stream_lem n ws cs r later file q (omega (arith, h))
  async_write_file_stream_lem (suc n) (some ds ∷ ws) cs r later file q h =
      async_write_file_stream_lem n ws cs r later (some ds) (q ++ map some ds) (omega (arith, h))
      ∙ ap (λ k. (returned r, record { file = some cs; queue = some k }))
          (queue_append q ds (received ws ++ cs) (none ∷ [])
            ∙ ap (λ e. q ++ (map some e ++ (none ∷ []))) (sym (append_assoc ds (received ws) cs)))

  -- If tries that time out come before one that is answered, async_req returns the answer if there
  -- are fewer of them than retries, and raises a TimeoutError otherwise.
  pub async_req-tries_before :
      (retry : ℕ) (waits : List (Option (List Text))) (cs : List Text) (r : R)
      (later : List (Try R))
      → async_req retry (tries_before waits (answered cs r ∷ later))
        ≡ (if ltb (length waits) retry then returned r else timeout_error)
  unfolding async_req tries_before timing_out
  async_req-tries_before zero waits cs r later = ground arith
  async_req-tries_before (suc n) [] cs r later = ground arith
  async_req-tries_before (suc n) (none ∷ ws) cs r later =
      ground (arith, async_req-tries_before n ws cs r later)
  async_req-tries_before (suc n) (some ds ∷ ws) cs r later =
      ground (arith, async_req-tries_before n ws cs r later)
