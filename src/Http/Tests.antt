-- ===== src/Http/Tests.antt =====
-- Requests that are answered at the second try.
use beiran.Base.{List, Option, Text, [], arith, codes, none, some, ℕ, ◌∷◌, ◌≡◌}
use beiran.Http.{Sink, answered, async_write_file_stream, returned}
use beiran.Http.Retry.{async_write_file_stream_lem, received, tries_before}

abbrev status : ℕ
status = 200

abbrev waits : List (Option (List Text))
waits = some (codes "ab" ∷ []) ∷ []

abbrev empty_sink : Sink
empty_sink = record { file = none; queue = some [] }

-- The queue gets the first chunk twice: once from the try that stalled, once from the next one.
async_write_file_stream_lem_example :
    async_write_file_stream 2
      (tries_before waits (answered (codes "ab" ∷ codes "cd" ∷ []) status ∷ []))
      empty_sink
    ≡ (
      returned status,
      record {
        file = some (codes "ab" ∷ codes "cd" ∷ []);
        queue = some (some (codes "ab") ∷ some (codes "ab") ∷ some (codes "cd") ∷ none ∷ []);
      },
    )
unfolding received
async_write_file_stream_lem_example =
    async_write_file_stream_lem 2 waits (codes "ab" ∷ codes "cd" ∷ []) status [] none []
      (omega arith)
