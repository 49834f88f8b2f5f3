-- ===== src/Container/Deleted.antt =====
-- The layers that delete_layers of plugins/beiran_package_container/container.py leaves.
use beiran.Base.{Bool, Bool-cases, List, Option, Text, [], ap, arith, false, if◌then◌else◌, inl}
use beiran.Base.{inr, is_nil, member, none, not, refl, same, same_iff, some, sym, true, ◌&&◌, ◌∙◌}
use beiran.Base.{◌∷◌, ◌≡◌}
use beiran.Container.Model.{IsUnique, Row, filter, filter-IsUnique, find, find-filter, keep}
use beiran.Container.Model.{key-find}
use beiran.Container.Store.{delete_layers, delete_row, delete_rows}
use beiran.Container.Table.{Table}

module _ {V : Type 0} where
  dropped : Option (Row V) → Option (Row V) → Option (Row V)
  dropped none old = old
  dropped (some r) old = if is_nil r.available_at then none else old

  dropped-none : (o : Option (Row V)) → dropped none o ≡ o
  unfolding dropped
  dropped-none o = refl

  kept_if :
      (b : Bool) (r : Row V)
      → dropped (if b then some r else none) (some r)
        ≡ (if not (b && is_nil r.available_at) then some r else none)
  unfolding dropped
  kept_if true r = ground arith
  kept_if false r = refl

  if_same : (b : Bool) (o : Option (Row V)) → o ≡ (if b then o else o)
  if_same true o = refl
  if_same false o = refl

  keep_own :
      (k j : Text) (q : Row V)
      → q.key ≡ k
      → (if not (same q.key j) then some q else none) ≡ (if same j k then none else some q)
  keep_own k j q e = ground (arith, same_iff q.key j, same_iff j k)

  module _ (T : Table V) (diff_id : V → Text) where
    get-delete_row :
        (k : Text) (r : Row V) (s : T.State)
        → T.get k (delete_row T diff_id r s)
          ≡ (if same r.key k then dropped (some r) (T.get k s) else T.get k s)
    unfolding delete_row dropped keep
    get-delete_row k r s = elim (Bool-cases (is_nil r.available_at)) [
      | inl e ↦ rw (e, T.get-delete_where) (gone (T.get k s) refl)
      | inr e ↦ rw (e) (ground arith)
    ]
      where
        gone :
            (o : Option (Row V))
            → T.get k s ≡ o
            → keep (λ q. not (same q.key r.key)) o ≡ (if same r.key k then none else o)
        gone none e = if_same (same r.key k) none
        gone (some q) e =
            let own : q.key ≡ k = key-find k (T.select s) q (sym (T.get-select k s) ∙ e) in
            keep_own k r.key q own

    get-delete_rows :
        (k : Text) (rs : List (Row V)) (s : T.State)
        → IsUnique rs
        → T.get k (delete_rows T diff_id rs s) ≡ dropped (find k rs) (T.get k s)
    unfolding delete_rows find dropped
    get-delete_rows k [] s h = refl
    get-delete_rows k (r ∷ rs) s h =
        rw (get-delete_rows k rs (delete_row T diff_id r s) h.1, get-delete_row k r s)
          (elim (Bool-cases (same r.key k)) [
            | inl d ↦
                let e : find k rs ≡ none =
                  ap (λ j. find j rs) (sym ((same_iff r.key k).0 d)) ∙ h.0 in
                rw (d, e) refl
            | inr d ↦ rw (d) refl
          ])

    -- After delete_layers just those layers are gone whose diff id is in the list and which are
    -- available at no node.
    pub get-delete_layers :
        (ids : List Text) (k : Text) (s : T.State)
        → T.get k (delete_layers T diff_id ids s)
          ≡ keep (λ r. not (member (diff_id r.rest) ids && is_nil r.available_at)) (T.get k s)
    unfolding delete_layers keep
    get-delete_layers ids k s =
        let p : Row V → Bool = λ r. member (diff_id r.rest) ids in
        rw
          (
            get-delete_rows k (filter p (T.select s)) s
                (filter-IsUnique p (T.select s) (T.select-IsUnique s)),
            find-filter k p (T.select s) (T.select-IsUnique s),
            sym (T.get-select k s),
          )
          (kept (T.get k s))
      where
        kept :
            (o : Option (Row V))
            → dropped (keep (λ r. member (diff_id r.rest) ids) o) o
              ≡ keep (λ r. not (member (diff_id r.rest) ids && is_nil r.available_at)) o
        kept none = dropped-none none
        kept (some r) = kept_if (member (diff_id r.rest) ids) r
