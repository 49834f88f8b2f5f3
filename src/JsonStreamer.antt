-- ===== src/JsonStreamer.antt =====
-- `json_streamer` of beiran/util.py: the values under a subpath, from the events of a JSON parser.
-- The parser is the package `jsonstreamer`, a parameter here.
pub mod Reference
pub mod Blocks
pub mod Walk
pub mod Correct
mod Tests
use mathlib.Core.List.{reverse}
use beiran.Base.{Bool, List, Option, Text, [], above_ℤ, eqb_ℤ, false, if◌then◌else◌, leb_ℤ}
use beiran.Base.{length, negsuc, none, offset_ℤ, pos, same, some, suc, true, zero, ℕ, ℤ, ◌%◌}
use beiran.Base.{◌&&◌, ◌++◌, ◌+◌, ◌-◌, ◌==◌, ◌||◌, ◌∷◌}
use beiran.Subpath.{Error, Result, Rule, choice, err, index_error, key, ok, parse_subpath}
use beiran.Subpath.{parser_error, range, root, type_error, zero_division, ◌>>=◌}

-- What stands on the list `keys`: the `None` below the root, a member's name or an index.
pub data Key : Type 0 where
  none_key : Key
  name : Text → Key
  index : ℕ → Key

-- JSON with scalars in `S`: a document, whose members are named by texts (`K` is `Text`), or a value
-- made of Python's dicts and lists (`K` is `Key`).
mutual
  pub data Tree (K S : Type 0) : Type 0 where
    scalar : S → Tree K S
    arr : Items K S → Tree K S
    obj : Fields K S → Tree K S

  pub data Items (K S : Type 0) : Type 0 where
    no_item : Items K S
    cons : Tree K S → Items K S → Items K S

  pub data Fields (K S : Type 0) : Type 0 where
    no_field : Fields K S
    field : K → Tree K S → Fields K S → Fields K S

abbrev pub Value : Type 0 → Type 0
Value S = Tree Key S

pub data Event (S : Type 0) : Type 0 where
  doc_start doc_end object_start object_end array_start array_end : Event S
  key_event : Text → Event S
  value element : S → Event S

pub same_key : Key → Key → Bool
same_key none_key none_key = true
same_key (name a) (name b) = same a b
same_key (index i) (index j) = i == j
same_key _ _ = false

-- `key in rparams`, for a list of integers
chosen : ℕ → List ℤ → Bool
chosen i [] = false
chosen i (a ∷ bs) = eqb_ℤ a i || chosen i bs

-- `n % step == 0`
divides : ℤ → ℕ → Result Bool
divides (pos zero) n = err zero_division
divides (pos (suc d)) n = ok (n % suc d == 0)
divides (negsuc d) n = ok (n % suc d == 0)

before : Option ℤ → ℕ → Bool
before none i = true
before (some a) i = above_ℤ a i

judge_range : ℤ → Option ℤ → ℤ → Key → Result Bool
judge_range start end step none_key = err type_error
judge_range start end step (name k) = err type_error
judge_range start end step (index i) =
    if leb_ℤ start (pos i) && before end i then divides step (offset_ℤ start i) else ok false

judge_choice : List ℤ → Key → Result Bool
judge_choice picks (index i) = ok (chosen i picks)
judge_choice picks _ = ok false

judge_key : Option Text → Key → Result Bool
judge_key none k = ok true
judge_key (some t) (name k) = ok (same t k)
judge_key (some t) _ = ok false

-- `_judge`
unfoldable pub judge : Key → Rule → Result Bool
unfolding chosen divides before judge_range judge_choice judge_key
judge k root = ok true
judge k (key t) = judge_key t k
judge k (range start end step) = judge_range start end step k
judge k (choice picks) = judge_choice picks k

-- `all(_judge(*elem) for elem in zip(keys, rules))`, from the bottom of `keys` up
unfoldable pub all_judged : List Key → List Rule → Result Bool
unfolding judge
all_judged [] rules = ok true
all_judged (k ∷ ks) [] = ok true
all_judged (k ∷ ks) (r ∷ rules) =
    let rest = all_judged ks rules in judge k r >>= λ fits. if fits then rest else ok false

-- The variables of the generator, and what it has yielded. The tops of the stacks come first.
pub record Stream (S : Type 0) : Type 0 where
  pub keys : List Key
  pub values : List (Value S)
  pub depth : ℕ
  pub yielded : List (Value S)

pub data Outcome (S : Type 0) : Type 0 where
  running : Stream S → Outcome S
  raised : Error → List (Value S) → Outcome S

abbrev pub start : {S : Type 0} → Stream S
start = record { keys = none_key ∷ []; values = []; depth = 0; yielded = [] }

module _ {S : Type 0} where
  -- The next statement, unless an exception was raised.
  pub and_then : Outcome S → (Stream S → Outcome S) → Outcome S
  and_then (running s) f = f s
  and_then (raised e out) f = raised e out

  -- `values[-1].append(val)`
  pub push_item : Items Key S → Value S → Items Key S
  push_item no_item v = cons v no_item
  push_item (cons x xs) v = cons x (push_item xs v)

  -- `values[-1][key] = val`
  pub set_field : Key → Value S → Fields Key S → Fields Key S
  set_field k v no_field = field k v no_field
  set_field k v (field j w fs) = if same_key j k then field j v fs else field j w (set_field k v fs)

  attach_list : Value S → Items Key S → List (Value S) → List Key → Stream S → Outcome S
  attach_list val xs rest [] s = raised index_error s.yielded
  attach_list val xs rest (index i ∷ ks) s = running (record s {
    keys = index (i + 1) ∷ ks;
    values = arr (push_item xs val) ∷ rest;
    depth = s.depth - 1;
  })
  attach_list val xs rest (_ ∷ ks) s = raised type_error s.yielded

  attach_dict : Value S → Fields Key S → List (Value S) → List Key → Stream S → Outcome S
  attach_dict val fs rest [] s = raised index_error s.yielded
  attach_dict val fs rest (k ∷ ks) s =
      running
        (record s { keys = ks; values = obj (set_field k val fs) ∷ rest; depth = s.depth - 1 })

  -- The value goes into the container below it.
  pub attach : Value S → List (Value S) → Stream S → Outcome S
  attach val [] s = running (record s { values = []; depth = s.depth - 1 })
  attach val (obj fs ∷ rest) s = attach_dict val fs rest s.keys s
  attach val (arr xs ∷ rest) s = attach_list val xs rest s.keys s
  attach val (scalar a ∷ rest) s =
      running (record s { values = scalar a ∷ rest; depth = s.depth - 1 })

  module _ (rules : List Rule) where
    judged : Value S → List (Value S) → Stream S → Result Bool → Outcome S
    judged val rest s (ok fits) =
        attach val rest (if fits then record s { yielded = s.yielded ++ (val ∷ []) } else s)
    judged val rest s (err e) = raised e s.yielded

    -- The block under `if pop_flag`, from the list that `values.pop()` is called on.
    pop_value : List (Value S) → Stream S → Outcome S
    pop_value [] s = raised index_error s.yielded
    pop_value (val ∷ rest) s =
        if length rules == s.depth
        then judged val rest s (all_judged (reverse s.keys) rules)
        else attach val rest s

    pub pop_flag : Stream S → Outcome S
    pop_flag s = pop_value s.values s

    push : Value S → Stream S → Stream S
    push v s = record s { values = v ∷ s.values; depth = s.depth + 1 }

    -- `keys.pop()`, then the block.
    end_array : List Key → Stream S → Outcome S
    end_array [] s = raised index_error s.yielded
    end_array (k ∷ ks) s = pop_flag (record s { keys = ks })

    unfoldable pub handle : Event S → Stream S → Outcome S
    unfolding all_judged push_item set_field same_key attach_list attach_dict attach judged
        pop_value pop_flag push end_array
    handle doc_start s = running s
    handle doc_end s = running s
    handle object_start s = running (push (obj no_field) s)
    handle array_start s =
        let t = push (arr no_item) s in running (record t { keys = index 0 ∷ t.keys })
    handle object_end s = pop_flag s
    handle array_end s = end_array s.keys s
    handle (key_event k) s = running (record s { keys = name k ∷ s.keys })
    handle (value a) s = pop_flag (push (scalar a) s)
    handle (element a) s = pop_flag (push (scalar a) s)

    -- `while queue`
    unfoldable pub run : List (Event S) → Stream S → Outcome S
    unfolding and_then
    run [] s = running s
    run (e ∷ es) s = and_then (handle e s) (run es)

-- The parser: its state, and the events that a chunk of text queues; `none` if it raises.
abbrev pub Parser : Type 0 → Type 0 → Type 0
Parser S P = P → Text → Option (P × List (Event S))

module _ {S P : Type 0} where
  -- `streamer.consume`, then the loop over the queue, then the next chunk.
  take_chunk :
      List Rule → (P → Stream S → Outcome S) → Option (P × List (Event S)) → Stream S → Outcome S
  take_chunk rules next none s = raised parser_error s.yielded
  take_chunk rules next (some (q, es)) s = and_then (run rules es s) (next q)

  -- `async for data in input_reader(stream)`
  unfoldable pub feed : Parser S P → List Rule → P → List Text → Stream S → Outcome S
  unfolding take_chunk
  feed consume rules p [] s = running s
  feed consume rules p (chunk ∷ chunks) s =
      take_chunk rules (λ q. feed consume rules q chunks) (consume p chunk) s

  with_rules : Parser S P → P → List Text → Result (List Rule) → Outcome S
  with_rules consume p chunks (ok rules) = feed consume rules p chunks start
  with_rules consume p chunks (err e) = raised e []

  unfoldable pub json_streamer : Parser S P → P → List Text → Text → Outcome S
  unfolding with_rules feed
  json_streamer consume p chunks subpath = with_rules consume p chunks (parse_subpath subpath)
