-- ===== src/JsonStreamer/Correct.antt =====
-- `json_streamer` yields what the reference says.
use mathlib.Core.Option
use beiran.Base.{List, Option, Option-cases, Text, [], ap, arith, false, fun_ext, inl, inr, none}
use beiran.Base.{refl, some, sym, ◌++◌, ◌+◌, ◌∙◌, ◌∷◌, ◌≡◌}
use beiran.JsonStreamer.{Event, Outcome, Parser, Stream, Tree, and_then, attach, doc_end, feed}
use beiran.JsonStreamer.{handle, json_streamer, none_key, raised, run, running, start, take_chunk}
use beiran.JsonStreamer.{with_rules}
use beiran.JsonStreamer.Blocks.{after, run-append, state}
use beiran.JsonStreamer.Reference.{deliver, document, events, nodes, value_of}
use beiran.JsonStreamer.Walk.{run_parts, walk}
use beiran.Subpath.{Result, Rule, err, ok, parse_subpath}

module _ {S : Type 0} (rules : List Rule) where
  -- What the rules select from a document: the values of the nodes whose paths fit, and the state
  -- at the end; or the error of the first test that raises, and the values that fit before it.
  pub selected : Tree Text S → Outcome S
  unfolding after
  selected x =
      after (deliver rules (nodes (none_key ∷ []) x) [])
        (λ out. running (record start { yielded = out }))

  -- From the start, the events of one document yield what the rules select from it.
  pub run-document : (x : Tree Text S) → run rules (document x) start ≡ selected x
  unfolding document run handle attach selected
  run-document x =
      run_parts rules (events false x) (doc_end ∷ []) start
        (deliver rules (nodes (none_key ∷ []) x) [])
        (λ o. attach (value_of x) [] (state (none_key ∷ []) (value_of x ∷ []) (0 + 1) o))
        (walk rules x false (none_key ∷ []) [] 0 [] (omega arith))

-- What the generator is to give for a subpath and a document.
pub expected : {S : Type 0} → Result (List Rule) → Tree Text S → Outcome S
expected (ok rules) x = selected rules x
expected (err e) x = raised e []

module _ {S P : Type 0} where
  queue_chunk :
      (P → Option (List (Event S))) → Option (P × List (Event S)) → Option (List (Event S))
  queue_chunk next none = none
  queue_chunk next (some (q, es)) = Option.map (λ more. es ++ more) (next q)

  -- The events that the parser queues for some chunks; `none` if it raises.
  unfoldable pub queued : Parser S P → P → List Text → Option (List (Event S))
  unfolding queue_chunk
  queued consume p [] = some []
  queued consume p (chunk ∷ chunks) = queue_chunk (λ q. queued consume q chunks) (consume p chunk)

  take_chunk-run :
      (rules : List Rule) (f : P → Stream S → Outcome S) (g : P → Option (List (Event S)))
      (r : Option (P × List (Event S))) (s : Stream S) (es : List (Event S))
      → ((q : P) (t : Stream S) (fs : List (Event S)) → g q ≡ some fs → f q t ≡ run rules fs t)
      → queue_chunk g r ≡ some es
      → take_chunk rules f r s ≡ run rules es s
  unfolding take_chunk queue_chunk
  take_chunk-run rules f g none s es ih h = absurd (ground arith)
  take_chunk-run rules f g (some (q, fs)) s es ih h = elim (Option-cases (g q)) [
    | inl e ↦ absurd (ground (arith, e, h))
    | inr (more, e) ↦
        let joined : fs ++ more ≡ es = cc (rw e at h) in
        ap (and_then (run rules fs s)) (fun_ext (λ t. ih q t more e))
        ∙ sym (run-append rules fs more s)
        ∙ ap (λ all_events. run rules all_events s) joined
  ]

  -- It does not matter how the events are spread over chunks.
  feed-run :
      (consume : Parser S P) (rules : List Rule) (p : P) (chunks : List Text) (s : Stream S)
      (es : List (Event S))
      → queued consume p chunks ≡ some es
      → feed consume rules p chunks s ≡ run rules es s
  unfolding feed queued run
  feed-run consume rules p [] s es h =
      let e : [] ≡ es = cc in ap (λ all_events. run rules all_events s) e
  feed-run consume rules p (chunk ∷ chunks) s es h =
      take_chunk-run rules (λ q. feed consume rules q chunks) (λ q. queued consume q chunks)
        (consume p chunk) s es (λ q t fs e. feed-run consume rules q chunks t fs e) h

  -- If the parser queues the events of one document for the chunks of a stream, `json_streamer`
  -- yields what the rules of the subpath select from the document, however the document is cut into
  -- chunks, and raises just where the test of the rules does; a subpath that is not accepted raises
  -- before anything is yielded.
  pub json_streamer_lem :
      (consume : Parser S P) (p : P) (chunks : List Text) (subpath : Text) (x : Tree Text S)
      → queued consume p chunks ≡ some (document x)
      → json_streamer consume p chunks subpath ≡ expected (parse_subpath subpath) x
  unfolding json_streamer expected
  json_streamer_lem consume p chunks subpath x h = go (parse_subpath subpath)
    where
      go : (r : Result (List Rule)) → with_rules consume p chunks r ≡ expected r x
      go (ok rules) = feed-run consume rules p chunks start (document x) h ∙ run-document rules x
      go (err e) = refl
