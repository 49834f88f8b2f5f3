-- ===== src/JsonStreamer/Blocks.antt =====
-- The generator's block on a complete value, and runs over parts of a list of events.
use mathlib.Core.List.{reverse}
use beiran.Base.{Bool, Bool-cases, List, Text, [], ap, false, fun_ext, inl, inr, length, refl}
use beiran.Base.{sym, true, ℕ, ◌++◌, ◌+◌, ◌==◌, ◌∙◌, ◌∷◌, ◌≡◌}
use beiran.JsonStreamer.{Event, Items, Key, Outcome, Stream, Value, all_judged, and_then, attach}
use beiran.JsonStreamer.{cons, handle, judged, no_item, pop_flag, pop_value, push_item, raised}
use beiran.JsonStreamer.{run, running}
use beiran.JsonStreamer.Reference.{Delivery, all, deliver, fits, offer, stopped}
use beiran.Subpath.{Result, Rule, err, ok}

module _ {S : Type 0} where
  unfoldable pub after : Delivery S → (List (Value S) → Outcome S) → Outcome S
  after (all out) k = k out
  after (stopped e out) k = raised e out

  pub and_then-after :
      (r : Delivery S) (k : List (Value S) → Outcome S) (f : Stream S → Outcome S)
      → and_then (after r k) f ≡ after r (λ o. and_then (k o) f)
  unfolding after and_then
  and_then-after (all out) k f = refl
  and_then-after (stopped e out) k f = refl

  unfoldable pub index_after : ℕ → Items Text S → ℕ
  index_after i no_item = i
  index_after i (cons x xs) = index_after (i + 1) xs

  unfoldable pub append_items : Items Key S → Items Key S → Items Key S
  append_items no_item ys = ys
  append_items (cons x xs) ys = cons x (append_items xs ys)

  pub append_items-push :
      (xs : Items Key S) (v : Value S) (ys : Items Key S)
      → append_items (push_item xs v) ys ≡ append_items xs (cons v ys)
  unfolding append_items push_item
  append_items-push no_item v ys = refl
  append_items-push (cons x xs) v ys = ap (cons x) (append_items-push xs v ys)

  pub append_items-no_item : (xs : Items Key S) → append_items xs no_item ≡ xs
  unfolding append_items
  append_items-no_item no_item = refl
  append_items-no_item (cons x xs) = ap (cons x) (append_items-no_item xs)

  abbrev pub state : List Key → List (Value S) → ℕ → List (Value S) → Stream S
  state ks vs d out = record { keys = ks; values = vs; depth = d; yielded = out }

  and_then_assoc :
      (r : Outcome S) (f g : Stream S → Outcome S)
      → and_then (and_then r f) g ≡ and_then r (λ s. and_then (f s) g)
  unfolding and_then
  and_then_assoc (running s) f g = refl
  and_then_assoc (raised e out) f g = refl

  and_then-running : (r : Outcome S) → and_then r running ≡ r
  unfolding and_then
  and_then-running (running s) = refl
  and_then-running (raised e out) = refl

  after-offer :
      (r : Result Bool) (v : Value S) (out : List (Value S)) (f : List (Value S) → Delivery S)
      (k : List (Value S) → Outcome S)
      → after (offer r v out f) k ≡ after (offer r v out all) (λ o. after (f o) k)
  unfolding after offer
  after-offer (err e) v out f k = refl
  after-offer (ok b) v out f k = refl

  module _ (rules : List Rule) where
    pub deliver-append :
        (xs ys : List (List Key × Value S)) (out : List (Value S)) (k : List (Value S) → Outcome S)
        → after (deliver rules (xs ++ ys) out) k
          ≡ after (deliver rules xs out) (λ o. after (deliver rules ys o) k)
    unfolding deliver after
    deliver-append [] ys out k = refl
    deliver-append ((path, v) ∷ xs) ys out k =
        let r = fits rules path in
        after-offer r v out (deliver rules (xs ++ ys)) k
        ∙ ap (after (offer r v out all)) (fun_ext (λ o. deliver-append xs ys o k))
        ∙ sym (after-offer r v out (deliver rules xs) (λ o. after (deliver rules ys o) k))

    pub run-append :
        (es fs : List (Event S)) (s : Stream S)
        → run rules (es ++ fs) s ≡ and_then (run rules es s) (run rules fs)
    unfolding run
    run-append [] fs s = refl
    run-append (e ∷ es) fs s =
        ap (and_then (handle rules e s)) (fun_ext (run-append es fs))
        ∙ sym (and_then_assoc (handle rules e s) (run rules es) (run rules fs))

    pub run_one : (e : Event S) (s : Stream S) → run rules (e ∷ []) s ≡ handle rules e s
    run_one e s = unfold run in and_then-running (handle rules e s)

    judged-offer :
        (r : Result Bool) (ks : List Key) (v : Value S) (vs : List (Value S)) (d : ℕ)
        (out : List (Value S))
        → judged rules v vs (state ks (v ∷ vs) d out) r
          ≡ after (offer r v out all) (λ o. attach v vs (state ks (v ∷ vs) d o))
    unfolding judged after offer
    judged-offer (err e) ks v vs d out = refl
    judged-offer (ok true) ks v vs d out = refl
    judged-offer (ok false) ks v vs d out = refl

    -- The block under `if pop_flag` tests one node and attaches it.
    pub pop_flag-deliver :
        (ks : List Key) (v : Value S) (vs : List (Value S)) (d : ℕ) (out : List (Value S))
        → length ks ≡ d
        → pop_flag rules (state ks (v ∷ vs) d out)
          ≡ after (deliver rules ((ks, v) ∷ []) out) (λ o. attach v vs (state ks (v ∷ vs) d o))
    unfolding pop_flag pop_value deliver fits judged
    pop_flag-deliver ks v vs d out h = rw h (elim (Bool-cases (length rules == d)) [
      | inl e ↦ rw e (judged-offer (all_judged (reverse ks) rules) ks v vs d out)
      | inr e ↦ rw e (judged-offer (ok false) ks v vs d out)
    ])
