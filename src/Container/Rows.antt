-- ===== src/Container/Rows.antt =====
-- A loop that writes the rows of a query, and what the table has after it.
use beiran.Base.{Bool, Bool-cases, List, Option, Text, [], ap, arith, false, if◌then◌else◌, inl}
use beiran.Base.{inr, none, refl, same, same_iff, same_refl, some, sym, true, ◌&&◌, ◌∙◌, ◌∷◌, ◌≡◌}
use beiran.Container.Model.{IsUnique, Row, filter, filter-IsUnique, find, find-filter, keep}
use beiran.Container.Table.{Table}
use beiran.JsonStreamer.Reference.{fits}

module _ {V : Type 0} (T : Table V) where
  -- `for row in rows: if w(row): save(f(row))`
  unfoldable pub write_rows : (Row V → Bool) → (Row V → Row V) → List (Row V) → T.State → T.State
  write_rows w f [] s = s
  write_rows w f (r ∷ rs) s = write_rows w f rs (if w r then T.save (f r) s else s)

module _ {V : Type 0} where
  unfoldable pub written :
      (Row V → Bool) → (Row V → Row V) → Option (Row V) → Option (Row V) → Option (Row V)
  written w f none old = old
  written w f (some r) old = if w r then some (f r) else old

  module _ (T : Table V) where
    get-write_row :
        (w : Row V → Bool) (f : Row V → Row V) (k : Text) (r : Row V) (s : T.State)
        → (f r).key ≡ r.key
        → T.get k (if w r then T.save (f r) s else s)
          ≡ (if same r.key k then written w f (some r) (T.get k s) else T.get k s)
    unfolding written
    get-write_row w f k r s own = elim (Bool-cases (w r)) [
      | inl e ↦ rw (e, T.get-save, own) refl
      | inr e ↦ elim (Bool-cases (same r.key k)) [ inl d ↦ rw (e, d) refl | inr d ↦ rw (e, d) refl ]
    ]

    pub get-write_rows :
        (w : Row V → Bool) (f : Row V → Row V) (k : Text) (rs : List (Row V)) (s : T.State)
        → ((r : Row V) → (f r).key ≡ r.key)
        → IsUnique rs
        → T.get k (write_rows T w f rs s) ≡ written w f (find k rs) (T.get k s)
    unfolding write_rows find written
    get-write_rows w f k [] s own h = refl
    get-write_rows w f k (r ∷ rs) s own h =
        rw
          (
            get-write_rows w f k rs (if w r then T.save (f r) s else s) own h.1,
            get-write_row w f k r s (own r),
          )
          (elim (Bool-cases (same r.key k)) [
            | inl d ↦
                let e : find k rs ≡ none =
                  ap (λ j. find j rs) (sym ((same_iff r.key k).0 d)) ∙ h.0 in
                rw (d, e) refl
            | inr d ↦ rw (d) refl
          ])

    -- The rows of a query over the table itself.
    pub get-write_selected :
        (p w : Row V → Bool) (f : Row V → Row V) (k : Text) (s : T.State)
        → ((r : Row V) → (f r).key ≡ r.key)
        → T.get k (write_rows T w f (filter p (T.select s)) s)
          ≡ written (λ r. p r && w r) f (T.get k s) (T.get k s)
    get-write_selected p w f k s own =
        rw
          (
            get-write_rows w f k (filter p (T.select s)) s own
                (filter-IsUnique p (T.select s) (T.select-IsUnique s)),
            find-filter k p (T.select s) (T.select-IsUnique s),
            sym (T.get-select k s),
          )
          (kept (T.get k s))
      where
        kept_if :
            (b c : Bool) (r : Row V)
            → c ≡ w r
            → written w f (if b then some r else none) (some r)
              ≡ (if b && c then some (f r) else some r)
        kept_if true c r e = unfold written in rw (e) refl
        kept_if false c r e = unfold written in refl

        kept : (o : Option (Row V)) → written w f (keep p o) o ≡ written (λ r. p r && w r) f o o
        kept none = unfold written keep in refl
        kept (some r) = unfold written keep in kept_if (p r) (w r) r refl

module _ {V : Type 0} where
  -- `get` by a condition: the first row that fits.
  unfoldable pub first_where : (Row V → Bool) → List (Row V) → Option (Row V)
  first_where p [] = none
  first_where p (r ∷ rs) = if p r then some r else first_where p rs

  pub first_where-find :
      (p : Row V → Bool) (rs : List (Row V)) (r : Row V)
      → IsUnique rs
      → first_where p rs ≡ some r
      → (find r.key rs ≡ some r) × (p r ≡ true)
  unfolding first_where find
  first_where-find p [] r u e = absurd (ground arith)
  first_where-find p (q ∷ rs) r u e = elim (Bool-cases (p q)) [
    | inl h ↦
        let same_row : q ≡ r = ground arith in
        let own : find q.key (q ∷ rs) ≡ some q = rw (find, same_refl) refl in
        (
          ap (λ x. find x.key (q ∷ rs)) (sym same_row) ∙ (own ∙ ap some same_row),
          ap p (sym same_row) ∙ h,
        )
    | inr h ↦
        let (there, holds) = first_where-find p rs r u.1 (ground arith) in
        (ground (arith, same_iff q.key r.key, ap (λ k. find k rs)), holds)
  ]

  find-behind :
      (j : Text) (x q : Row V) (rs : List (Row V))
      → IsUnique (q ∷ rs)
      → find j rs ≡ some x
      → find j (q ∷ rs) ≡ some x
  unfolding find
  find-behind j x q rs u f = elim (Bool-cases (same q.key j)) [
    | inl e ↦ absurd (ground (arith, same_iff q.key j, ap (λ i. find i rs)))
    | inr e ↦ rw (e) f
  ]

  -- The only row that fits is the first one.
  pub first_where-only :
      (p : Row V → Bool) (rs : List (Row V)) (k : Text) (r : Row V)
      → IsUnique rs
      → find k rs ≡ some r
      → p r ≡ true
      → ((j : Text) (q : Row V) → find j rs ≡ some q → p q ≡ true → j ≡ k)
      → first_where p rs ≡ some r
  unfolding first_where find
  first_where-only p [] k r u e h only = absurd cc
  first_where-only p (q ∷ rs) k r u e h only = elim (Bool-cases (p q)) [
    | inl fits ↦
        let own : find q.key (q ∷ rs) ≡ some q = rw (find, same_refl) refl in
        let named : q.key ≡ k = only q.key q own fits in
        rw (fits) (sym own ∙ ap (λ x. find x (q ∷ rs)) named ∙ e)
    | inr other ↦ elim (Bool-cases (same q.key k)) [
      | inl here ↦ absurd (ground arith)
      | inr there ↦ rw (other) (
          first_where-only p rs k r u.1 (ground arith) h
            (λ j x f g. only j x (find-behind j x q rs u f) g))
    ]
  ]
