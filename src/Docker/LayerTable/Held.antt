-- ===== src/Docker/LayerTable/Held.antt =====
-- At which nodes the table of layers has a layer with some diff id, before and after a write.
use beiran.Base.{Bool-cases, Text, [], ap, arith, false, inl, inr, member, refl, same, same_iff}
use beiran.Base.{same_refl, some, sym, true, ◌||◌, ◌↔◌, ◌∙◌, ◌∷◌, ◌≡◌, ◌⊎◌}
use beiran.Container.Model.{is_available}
use beiran.Container.Rows.{first_where-find}
use beiran.Container.Table.{Table}
use beiran.Docker.LayerTable.{Layer, LayerTable, get_by_diff_id, has_diff_id}

module _ (T : LayerTable) where
  -- A row of the layer is available at the node.
  abbrev pub IsHeld : Text → Text → Table.State T.table → Type 0
  IsHeld v d s =
      (k : Text) × (r : Layer) × (Table.get T.table k s ≡ some r)
      × (r.rest.diff_id ≡ d)
      × (is_available v r ≡ true)

  pub get_by_diff_id-some :
      (d : Text) (s : Table.State T.table) (r : Layer)
      → get_by_diff_id T d s ≡ some r
      → (Table.get T.table r.key s ≡ some r) × (r.rest.diff_id ≡ d)
  unfolding get_by_diff_id has_diff_id
  get_by_diff_id-some d s r e =
      let (there, holds) =
        first_where-find (has_diff_id d) (Table.select T.table s) r
          (Table.select-IsUnique T.table s) e in
      (Table.get-select T.table r.key s ∙ there, (same_iff r.rest.diff_id d).0 holds)

  -- A row is written over, with one more node.
  pub save-IsHeld :
      (u v c d : Text) (s : Table.State T.table) (r q : Layer)
      → Table.get T.table r.key s ≡ some r
      → q.key ≡ r.key
      → r.rest.diff_id ≡ c
      → q.rest.diff_id ≡ r.rest.diff_id
      → is_available v q ≡ (same u v || is_available v r)
      → IsHeld v d (Table.save T.table q s) ↔ (IsHeld v d s ⊎ ((same u v ≡ true) × (c ≡ d)))
  save-IsHeld u v c d s r q e k g f a = (to, from)
    where
      to : IsHeld v d (Table.save T.table q s) → IsHeld v d s ⊎ ((same u v ≡ true) × (c ≡ d))
      to (j, x, there, m, w) = elim (Bool-cases (same q.key j)) [
        | inl h ↦
            let same_row : q ≡ x = ground (arith, Table.get-save T.table j q s) in
            let at_node : (same u v || is_available v r) ≡ true =
              sym a ∙ (ap (λ y. is_available v y) same_row ∙ w) in
            let of_layer : r.rest.diff_id ≡ d = sym f ∙ (ap (λ y. y.rest.diff_id) same_row ∙ m) in
            elim (Bool-cases (same u v)) [
              | inl n ↦ inr (n, sym g ∙ of_layer)
              | inr n ↦ inl (r.key, r, e, of_layer, ground arith)
            ]
        | inr h ↦ inl (j, x, ground (arith, Table.get-save T.table j q s), m, w)
      ]

      from : IsHeld v d s ⊎ ((same u v ≡ true) × (c ≡ d)) → IsHeld v d (Table.save T.table q s)
      from (inl (j, x, there, m, w)) = elim (Bool-cases (same q.key j)) [
        | inl h ↦
            let own : j ≡ r.key = sym ((same_iff q.key j).0 h) ∙ k in
            let same_row : r ≡ x = ground (arith, e, ap (λ y. Table.get T.table y s) own) in
            (
              j,
              q,
              rw (Table.get-save T.table j q s, h) refl,
              f ∙ (ap (λ y. y.rest.diff_id) same_row ∙ m),
              ground (arith, ap (λ y. is_available v y) same_row),
            )
        | inr h ↦ (j, x, rw (Table.get-save T.table j q s, h) there, m, w)
      ]
      from (inr (m, w)) = (
        q.key,
        q,
        ground (arith, Table.get-save T.table q.key q s, same_refl q.key),
        f ∙ (g ∙ w),
        ground arith,
      )

  -- A new row is written, which is available at one node.
  pub insert-IsHeld :
      (u v c d : Text) (s : Table.State T.table) (n : Layer)
      → n.available_at ≡ u ∷ []
      → n.rest.diff_id ≡ c
      → IsHeld v d (T.insert n s) ↔ (IsHeld v d s ⊎ ((same u v ≡ true) × (c ≡ d)))
  unfolding member
  insert-IsHeld u v c d s n a g = (to, from)
    where
      at_one : is_available v n ≡ same u v
      at_one = ground (arith, ap (λ l. member v l) a)

      new : Layer
      new = record n { key = T.fresh s }

      to : IsHeld v d (T.insert n s) → IsHeld v d s ⊎ ((same u v ≡ true) × (c ≡ d))
      to (j, x, there, m, w) = elim (Bool-cases (same (T.fresh s) j)) [
        | inl h ↦
            let same_row : record n { key = T.fresh s } ≡ x = ground (arith, T.get-insert j n s) in
            inr (
              sym at_one ∙ (ap (λ y. is_available v y) same_row ∙ w),
              sym g ∙ (ap (λ y. y.rest.diff_id) same_row ∙ m),
            )
        | inr h ↦ inl (j, x, ground (arith, T.get-insert j n s), m, w)
      ]

      from : IsHeld v d s ⊎ ((same u v ≡ true) × (c ≡ d)) → IsHeld v d (T.insert n s)
      from (inl (j, x, there, m, w)) =
          let other : same (T.fresh s) j ≡ false =
            ground
              (arith, same_iff (T.fresh s) j, T.get-fresh s, ap (λ y. Table.get T.table y s)) in
          (j, x, rw (T.get-insert j n s, other) there, m, w)
      from (inr (w, m)) =
          (T.fresh s, new, rw (T.get-insert (T.fresh s) n s, same_refl) refl, g ∙ m, at_one ∙ w)
