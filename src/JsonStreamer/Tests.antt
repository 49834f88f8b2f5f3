-- ===== src/JsonStreamer/Tests.antt =====
-- A run over a small document, and the theorem at it. The parser of the test has its events ready.
use beiran.Base.{List, Text, [], above_ℤ, codes, eqb_ℤ, has, leb_ℤ, none, offset_ℤ, refl, same}
use beiran.Base.{some, ℕ, ◌∷◌, ◌≡◌}
use beiran.JsonStreamer.{Event, Parser, Tree, arr, array_end, array_start, cons, doc_end}
use beiran.JsonStreamer.{doc_start, element, feed, field, handle, json_streamer, judge, key_event}
use beiran.JsonStreamer.{no_field, no_item, obj, object_end, object_start, raised, run, running}
use beiran.JsonStreamer.{scalar, start, value}
use beiran.JsonStreamer.Correct.{expected, json_streamer_lem, queued}
use beiran.JsonStreamer.Reference.{document, events}
use beiran.Subpath.{parse_subpath, type_error}

abbrev Script : Type 0
Script = List (List (Event ℕ))

abbrev scripted : Parser ℕ Script
scripted [] chunk = none
scripted (es ∷ more) chunk = some (more, es)

-- {"a": [1, 2, 3], "b": 4}
abbrev sample : Tree Text ℕ
sample = obj (
    field (codes "a") (arr (cons (scalar 1) (cons (scalar 2) (cons (scalar 3) no_item))))
      (field (codes "b") (scalar 4) no_field))

abbrev script : Script
script =
    (doc_start ∷ object_start ∷ key_event (codes "a") ∷ array_start ∷ element 1 ∷ [])
    ∷ (element 2
        ∷ element 3
        ∷ array_end
        ∷ key_event (codes "b")
        ∷ value 4
        ∷ object_end
        ∷ doc_end
        ∷ [])
    ∷ []

abbrev chunks : List Text
chunks = codes "{'a': [1, " ∷ codes "2, 3], 'b': 4}" ∷ []

odd_items :
    json_streamer scripted script chunks (codes "$.a[0:3:2]")
    ≡ running (record start { yielded = scalar 1 ∷ scalar 3 ∷ [] })
unfolding json_streamer parse_subpath feed run handle judge has same leb_ℤ above_ℤ offset_ℤ eqb_ℤ
odd_items = refl

range_over_members : json_streamer scripted script chunks (codes "$[0:3]") ≡ raised type_error []
unfolding json_streamer parse_subpath feed run handle judge has same leb_ℤ above_ℤ offset_ℤ eqb_ℤ
range_over_members = refl

json_streamer_lem_example :
    json_streamer scripted script chunks (codes "$.a[0:3:2]")
    ≡ expected (parse_subpath (codes "$.a[0:3:2]")) sample
unfolding queued document events
json_streamer_lem_example =
    json_streamer_lem scripted script chunks (codes "$.a[0:3:2]") sample refl
