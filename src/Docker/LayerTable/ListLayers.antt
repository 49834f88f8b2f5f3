-- ===== src/Docker/LayerTable/ListLayers.antt =====
-- A table of layers that keeps its rows in a list: it shows that the interface of
-- Docker/LayerTable.antt can be met. The id of a new row is longer than those of all others.
use beiran.Base.{Bool-cases, List, Text, [], ap, arith, inl, inr, length, length-append, none}
use beiran.Base.{refl, same, same_iff, ◌++◌, ◌<◌, ◌∷◌, ◌≡◌, ◌≤◌}
use beiran.Container.ListTable.{find-put, list_table, put, put-IsUnique}
use beiran.Container.Model.{find}
use beiran.Docker.LayerTable.{Layer, LayerColumns, LayerTable}

unfoldable pub fresh_id : List Layer → Text
fresh_id [] = b'0' ∷ []
fresh_id (r ∷ rs) = r.key ++ fresh_id rs

fresh_id-pos : (rs : List Layer) → 0 < length (fresh_id rs)
unfolding fresh_id
fresh_id-pos [] = omega arith
fresh_id-pos (r ∷ rs) = omega (arith, fresh_id-pos rs, length-append r.key (fresh_id rs))

pub find-long : (k : Text) (rs : List Layer) → length (fresh_id rs) ≤ length k → find k rs ≡ none
unfolding fresh_id find
find-long k [] h = refl
find-long k (r ∷ rs) h =
    let n = length-append r.key (fresh_id rs) in
    let p = fresh_id-pos rs in
    let rest : find k rs ≡ none = find-long k rs (omega (arith, n)) in
    let other : r.key ≡ k → ⊥ = λ e. omega (arith, ap length e, n, p) in
    elim (Bool-cases (same r.key k)) [
      | inl e ↦ absurd (other ((same_iff r.key k).0 e))
      | inr e ↦ rw (e) rest
    ]

abbrev pub list_layers : LayerTable
list_layers = record {
  table = list_table LayerColumns;
  insert = λ r s. (
    put (record r { key = fresh_id s.0 }) s.0,
    put-IsUnique (record r { key = fresh_id s.0 }) s.0 s.1,
  );
  fresh = λ s. fresh_id s.0;
  get-fresh = λ s. find-long (fresh_id s.0) s.0 (omega arith);
  get-insert = λ k r s. find-put k (record r { key = fresh_id s.0 }) s.0;
}
