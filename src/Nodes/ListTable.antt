-- ===== src/Nodes/ListTable.antt =====
-- A table of nodes that keeps its rows in a list: it shows that the interface of Nodes.antt can be
-- met.
use beiran.Base.{List, Text, [], arith, if◌then◌else◌, refl, same, same_iff, some, ◌∷◌, ◌≡◌}
use beiran.Nodes.{Node, NodeTable, get, has_uuid}

unfoldable pub put : Node → List Node → List Node
put n [] = n ∷ []
put n (q ∷ ns) = if same q.uuid n.uuid then n ∷ ns else q ∷ put n ns

pub get-put :
    (u : Text) (n : Node) (ns : List Node)
    → get (has_uuid u) (put n ns) ≡ (if same n.uuid u then some n else get (has_uuid u) ns)
unfolding get put
get-put u n [] = refl
get-put u n (q ∷ ns) =
    ground (arith, get-put u n ns, same_iff q.uuid n.uuid, same_iff q.uuid u, same_iff n.uuid u)

abbrev pub list_table : NodeTable
list_table = record { State = List Node; select = λ s. s; save = put; get-save = get-put }
