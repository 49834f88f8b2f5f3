-- ===== src/JsonStreamer/Reference.antt =====
-- What `json_streamer` is to yield, said of the document and not of its events.
use mathlib.Core.List.{reverse}
use beiran.Base.{Bool, List, Text, [], false, if◌then◌else◌, length, true, ℕ, ◌++◌, ◌+◌, ◌==◌}
use beiran.Base.{◌∷◌}
use beiran.JsonStreamer.{Event, Fields, Items, Key, Tree, Value, all_judged, arr, array_end}
use beiran.JsonStreamer.{array_start, cons, doc_end, doc_start, element, field, index, key_event}
use beiran.JsonStreamer.{name, no_field, no_item, obj, object_end, object_start, scalar}
use beiran.JsonStreamer.{set_field, value}
use beiran.Subpath.{Error, Result, Rule, err, ok}

-- The rules fit a path: they are as many as its steps, and each one accepts its step.
unfoldable pub fits : List Rule → List Key → Result Bool
fits rules path = if length rules == length path then all_judged (reverse path) rules else ok false

-- What has been yielded, and the error that stopped the walk, if there was one.
pub data Delivery (S : Type 0) : Type 0 where
  all : List (Value S) → Delivery S
  stopped : Error → List (Value S) → Delivery S

module _ {S : Type 0} where
  -- The Python value of a document: of members with one name the last one counts.
  unfoldable mutual
    pub value_of : Tree Text S → Value S
    value_of (scalar a) = scalar a
    value_of (arr xs) = arr (value_items xs)
    value_of (obj fs) = obj (value_fields no_field fs)

    pub value_items : Items Text S → Items Key S
    value_items no_item = no_item
    value_items (cons x xs) = cons (value_of x) (value_items xs)

    pub value_fields : Fields Key S → Fields Text S → Fields Key S
    value_fields acc no_field = acc
    value_fields acc (field k x fs) = value_fields (set_field (name k) (value_of x) acc) fs

  -- The nodes of a document in the order in which they are complete, each under its path from the
  -- root, innermost step first.
  unfoldable mutual
    pub nodes : List Key → Tree Text S → List (List Key × Value S)
    nodes path (scalar a) = (path, scalar a) ∷ []
    nodes path (arr xs) = nodes_items path 0 xs ++ ((path, value_of (arr xs)) ∷ [])
    nodes path (obj fs) = nodes_fields path fs ++ ((path, value_of (obj fs)) ∷ [])

    pub nodes_items : List Key → ℕ → Items Text S → List (List Key × Value S)
    nodes_items path i no_item = []
    nodes_items path i (cons x xs) = nodes (index i ∷ path) x ++ nodes_items path (i + 1) xs

    pub nodes_fields : List Key → Fields Text S → List (List Key × Value S)
    nodes_fields path no_field = []
    nodes_fields path (field k x fs) = nodes (name k ∷ path) x ++ nodes_fields path fs

  -- The events of a document. A scalar is an `element` in a list, and a `value` elsewhere.
  unfoldable mutual
    pub events : Bool → Tree Text S → List (Event S)
    events in_list (scalar a) = if in_list then element a ∷ [] else value a ∷ []
    events in_list (arr xs) = array_start ∷ (events_items xs ++ (array_end ∷ []))
    events in_list (obj fs) = object_start ∷ (events_fields fs ++ (object_end ∷ []))

    pub events_items : Items Text S → List (Event S)
    events_items no_item = []
    events_items (cons x xs) = events true x ++ events_items xs

    pub events_fields : Fields Text S → List (Event S)
    events_fields no_field = []
    events_fields (field k x fs) = key_event k ∷ (events false x ++ events_fields fs)

  unfoldable pub document : Tree Text S → List (Event S)
  document x = doc_start ∷ (events false x ++ (doc_end ∷ []))

  unfoldable pub offer :
      Result Bool → Value S → List (Value S) → (List (Value S) → Delivery S) → Delivery S
  offer (err e) v out more = stopped e out
  offer (ok b) v out more = more (if b then out ++ (v ∷ []) else out)

  -- The values of the nodes whose paths fit, up to the first path at which the test raises.
  unfoldable pub deliver : List Rule → List (List Key × Value S) → List (Value S) → Delivery S
  unfolding offer
  deliver rules [] out = all out
  deliver rules ((path, v) ∷ more) out = offer (fits rules path) v out (deliver rules more)
