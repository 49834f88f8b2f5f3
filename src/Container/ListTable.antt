-- ===== src/Container/ListTable.antt =====
-- A table that keeps its rows in a list: it shows that the interface of Container/Table.antt can be
-- met.
use beiran.Base.{Bool-cases, List, Text, [], ap, arith, if◌then◌else◌, inl, inr, not, refl, same}
use beiran.Base.{same_iff, some, sym, ◌∙◌, ◌∷◌, ◌≡◌}
use beiran.Container.Model.{IsUnique, Row, filter, filter-IsUnique, find, find-filter}
use beiran.Container.Table.{Table}

module _ {V : Type 0} where
  unfoldable pub put : Row V → List (Row V) → List (Row V)
  put r [] = r ∷ []
  put r (q ∷ rs) = if same q.key r.key then r ∷ rs else q ∷ put r rs

  pub find-put :
      (k : Text) (r : Row V) (rs : List (Row V))
      → find k (put r rs) ≡ (if same r.key k then some r else find k rs)
  unfolding put find
  find-put k r [] = refl
  find-put k r (q ∷ rs) =
      ground (arith, find-put k r rs, same_iff q.key r.key, same_iff q.key k, same_iff r.key k)

  pub put-IsUnique : (r : Row V) (rs : List (Row V)) → IsUnique rs → IsUnique (put r rs)
  unfolding put find
  put-IsUnique r [] h = (refl, tt)
  put-IsUnique r (q ∷ rs) h = elim (Bool-cases (same q.key r.key)) [
    | inl e ↦ rw (e) (ap (λ j. find j rs) (sym ((same_iff q.key r.key).0 e)) ∙ h.0, h.1)
    | inr e ↦ rw (e) (
      ground (arith, find-put q.key r rs, same_iff r.key q.key, same_iff q.key r.key, h.0),
      put-IsUnique r rs h.1,
    )
  ]

abbrev pub list_table : (V : Type 0) → Table V
list_table V = record {
  State = (rs : List (Row V)) × IsUnique rs;
  get = λ k s. find k s.0;
  select = λ s. s.0;
  save = λ r s. (put r s.0, put-IsUnique r s.0 s.1);
  delete_where = λ p s. (filter (λ r. not (p r)) s.0, filter-IsUnique (λ r. not (p r)) s.0 s.1);
  get-select = λ k s. refl;
  select-IsUnique = λ s. s.1;
  get-save = λ k r s. find-put k r s.0;
  get-delete_where = λ k p s. find-filter k (λ r. not (p r)) s.0 s.1;
}
