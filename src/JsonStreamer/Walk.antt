-- ===== src/JsonStreamer/Walk.antt =====
-- What the events of a document do to the variables of the generator, by induction on the document.
use beiran.Base.{Bool, List, Text, [], ap, arith, false, fun_ext, length, refl, sym, true, ℕ}
use beiran.Base.{◌++◌, ◌+◌, ◌-◌, ◌∙◌, ◌∷◌, ◌≡◌}
use beiran.JsonStreamer.{Event, Fields, Items, Key, Outcome, Stream, Tree, Value, and_then, arr}
use beiran.JsonStreamer.{array_end, attach, attach_dict, attach_list, cons, element, field}
use beiran.JsonStreamer.{handle, index, name, no_field, no_item, obj, object_end, push_item, run}
use beiran.JsonStreamer.{running, scalar, set_field, value}
use beiran.JsonStreamer.Blocks.{after, and_then-after, append_items, append_items-no_item}
use beiran.JsonStreamer.Blocks.{append_items-push, deliver-append, index_after, pop_flag-deliver}
use beiran.JsonStreamer.Blocks.{run-append, run_one, state}
use beiran.JsonStreamer.Reference.{Delivery, deliver, events, events_fields, events_items, nodes}
use beiran.JsonStreamer.Reference.{nodes_fields, nodes_items, value_fields, value_items, value_of}
use beiran.Subpath.{Rule}

module _ {S : Type 0} (rules : List Rule) where
  -- A run over two parts, the first of which is known.
  pub run_parts :
      (es fs : List (Event S)) (s : Stream S) (r : Delivery S) (k : List (Value S) → Outcome S)
      → run rules es s ≡ after r k
      → run rules (es ++ fs) s ≡ after r (λ o. and_then (k o) (run rules fs))
  run_parts es fs s r k h = run-append rules es fs s ∙ rw h (and_then-after r k (run rules fs))

  -- What a document does to the variables, from any state whose depth fits its `keys`.
  abbrev pub Walks : Tree Text S → Type 0
  Walks x =
      (in_list : Bool) (ks : List Key) (vs : List (Value S)) (d : ℕ) (out : List (Value S))
      → length ks ≡ d + 1
      → run rules (events in_list x) (state ks vs d out)
        ≡ after (deliver rules (nodes ks x) out)
            (λ o. attach (value_of x) vs (state ks (value_of x ∷ vs) (d + 1) o))

  abbrev WalksItems : Items Text S → Type 0
  WalksItems xs =
      (i : ℕ) (ks : List Key) (acc : Items Key S) (vs : List (Value S)) (d : ℕ)
      (out : List (Value S))
      → length ks ≡ d
      → run rules (events_items xs) (state (index i ∷ ks) (arr acc ∷ vs) d out)
        ≡ after (deliver rules (nodes_items ks i xs) out) (λ o. running (
            state (index (index_after i xs) ∷ ks) (arr (append_items acc (value_items xs)) ∷ vs) d
              o))

  abbrev WalksFields : Fields Text S → Type 0
  WalksFields fs =
      (ks : List Key) (acc : Fields Key S) (vs : List (Value S)) (d : ℕ) (out : List (Value S))
      → length ks ≡ d
      → run rules (events_fields fs) (state ks (obj acc ∷ vs) d out)
        ≡ after (deliver rules (nodes_fields ks fs) out)
            (λ o. running (state ks (obj (value_fields acc fs) ∷ vs) d o))

  scalar-Walks : (a : S) → Walks (scalar a)
  unfolding events nodes handle value_of
  scalar-Walks a true ks vs d out h =
      run_one rules (element a) _ ∙ pop_flag-deliver rules ks (scalar a) vs (d + 1) out h
  scalar-Walks a false ks vs d out h =
      run_one rules (value a) _ ∙ pop_flag-deliver rules ks (scalar a) vs (d + 1) out h

  arr-Walks : (xs : Items Text S) → WalksItems xs → Walks (arr xs)
  unfolding events nodes value_of run handle append_items
  arr-Walks xs ih in_list ks vs d out h =
      run_parts (events_items xs) (array_end ∷ []) _ _ _ (ih 0 ks no_item vs (d + 1) out h)
      ∙ ap (after (deliver rules (nodes_items ks 0 xs) out)) (
          fun_ext (λ o.
            run_one rules array_end
              (state (index (index_after 0 xs) ∷ ks) (arr (value_items xs) ∷ vs) (d + 1) o)
            ∙ pop_flag-deliver rules ks (arr (value_items xs)) vs (d + 1) o h))
      ∙ sym (deliver-append rules (nodes_items ks 0 xs) _ out _)

  obj-Walks : (fs : Fields Text S) → WalksFields fs → Walks (obj fs)
  unfolding events nodes value_of run handle
  obj-Walks fs ih in_list ks vs d out h =
      run_parts (events_fields fs) (object_end ∷ []) _ _ _ (ih ks no_field vs (d + 1) out h)
      ∙ ap (after (deliver rules (nodes_fields ks fs) out)) (
          fun_ext (λ o.
            run_one rules object_end (state ks (obj (value_fields no_field fs) ∷ vs) (d + 1) o)
            ∙ pop_flag-deliver rules ks (obj (value_fields no_field fs)) vs (d + 1) o h))
      ∙ sym (deliver-append rules (nodes_fields ks fs) _ out _)

  no_item-Walks : WalksItems no_item
  unfolding events_items nodes_items value_items index_after run deliver after
  no_item-Walks i ks acc vs d out h = rw append_items-no_item

  no_field-Walks : WalksFields no_field
  unfolding events_fields nodes_fields value_fields run deliver after
  no_field-Walks ks acc vs d out h = refl

  cons-Walks :
      (x : Tree Text S) (xs : Items Text S) → Walks x → WalksItems xs → WalksItems (cons x xs)
  unfolding events_items nodes_items value_items index_after attach attach_list and_then
  cons-Walks x xs wx wxs i ks acc vs d out h =
      let back : d + 1 - 1 ≡ d = omega arith in
      run_parts (events true x) (events_items xs) _ _ _
        (wx true (index i ∷ ks) (arr acc ∷ vs) d out (omega arith))
      ∙ ap (after (deliver rules (nodes (index i ∷ ks) x) out)) (
          fun_ext (λ o.
            rw (back, ← append_items-push) (wxs (i + 1) ks (push_item acc (value_of x)) vs d o h)))
      ∙ sym (deliver-append rules (nodes (index i ∷ ks) x) (nodes_items ks (i + 1) xs) out _)

  field-Walks :
      (k : Text) (x : Tree Text S) (fs : Fields Text S)
      → Walks x
      → WalksFields fs
      → WalksFields (field k x fs)
  unfolding events_fields nodes_fields value_fields attach attach_dict and_then run handle
  field-Walks k x fs wx wfs ks acc vs d out h =
      let back : d + 1 - 1 ≡ d = omega arith in
      run_parts (events false x) (events_fields fs) _ _ _
        (wx false (name k ∷ ks) (obj acc ∷ vs) d out (omega arith))
      ∙ ap (after (deliver rules (nodes (name k ∷ ks) x) out))
          (fun_ext (λ o. rw back (wfs ks (set_field (name k) (value_of x) acc) vs d o h)))
      ∙ sym (deliver-append rules (nodes (name k ∷ ks) x) (nodes_fields ks fs) out _)

  mutual
    pub walk : (x : Tree Text S) → Walks x
    walk (scalar a) = scalar-Walks a
    walk (arr xs) = arr-Walks xs (walk_items xs)
    walk (obj fs) = obj-Walks fs (walk_fields fs)

    walk_items : (xs : Items Text S) → WalksItems xs
    walk_items no_item = no_item-Walks
    walk_items (cons x xs) = cons-Walks x xs (walk x) (walk_items xs)

    walk_fields : (fs : Fields Text S) → WalksFields fs
    walk_fields no_field = no_field-Walks
    walk_fields (field k x fs) = field-Walks k x fs (walk x) (walk_fields fs)
