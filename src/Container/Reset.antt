-- ===== src/Container/Reset.antt =====
-- The tables after reset_info_of_node of plugins/beiran_package_container/util.py.
-- What becomes of a row when the node is reset.
use beiran.Base.{Bool-cases, List, Option, Text, [], ap, arith, false, if◌then◌else◌, inl, inr}
use beiran.Base.{member, none, not, refl, same, some, sym, ◌∙◌, ◌∷◌, ◌≡◌}
use beiran.Container.Model.{Progress, Row, downloading, is_null, keep, null, unset}
use beiran.Container.Model.{unset_available_at, without}
use beiran.Container.Rows.{get-write_rows, written}
use beiran.Container.Store.{delete_unavailable, delete_unavailable_objects, is_unavailable}
use beiran.Container.Store.{reset_info_of_node, reset_rows}
use beiran.Container.Table.{Table}

module _ {V : Type 0} where
  unfoldable pub reset_found : Text → Option (Row V) → Option (Row V)
  reset_found uuid none = none
  reset_found uuid (some r) = keep (λ q. not (is_unavailable q)) (some (unset_available_at uuid r))

  key-unset : (u : Text) (r : Row V) → (unset_available_at u r).key ≡ r.key
  unfolding unset_available_at
  key-unset u r = ground arith

  kept-written :
      (u : Text) (o : Option (Row V))
      → keep
          (λ q. not (is_unavailable q))
          (written (λ r. member u r.available_at) (unset_available_at u) o o)
        ≡ reset_found u o
  unfolding written reset_found keep unset_available_at
  kept-written u none = refl
  kept-written u (some r) = ground arith

  module _ (T : Table V) where
    pub get-reset :
        (u k : Text) (s : T.State)
        → T.get k (delete_unavailable T (reset_rows T u (T.select s) s)) ≡ reset_found u (T.get k s)
    unfolding delete_unavailable reset_rows
    get-reset u k s =
        rw
          (
            T.get-delete_where,
            get-write_rows T (λ r. member u r.available_at) (unset_available_at u) k (T.select s) s
                (key-unset u) (T.select-IsUnique s),
            sym (T.get-select k s),
          )
          (kept-written u (T.get k s))

module _ {V W : Type 0} (Images : Table V) (Layers : Table W) where
  pub reset_info_of_node_lem :
      (u k : Text) (i : Images.State) (l : Layers.State)
      → (Images.get k (reset_info_of_node Images Layers u (i, l)).0
          ≡ reset_found u (Images.get k i))
        × (Layers.get k (reset_info_of_node Images Layers u (i, l)).1
            ≡ reset_found u (Layers.get k l))
  unfolding reset_info_of_node delete_unavailable_objects
  reset_info_of_node_lem u k i l = (get-reset Images u k i, get-reset Layers u k l)

-- What is to be left of a row: the other nodes, and nothing if there is none and `download_progress` is
-- the text 'null'.
abbrev pub others : Text → List Text → List Text
others u [] = []
others u (n ∷ ns) = if same n u then others u ns else n ∷ others u ns

others-without : (u : Text) (ns : List Text) → without u ns ≡ others u ns
unfolding without
others-without u [] = refl
others-without u (n ∷ ns) = rw (others-without u ns) refl

others-absent : (u : Text) (ns : List Text) → member u ns ≡ false → others u ns ≡ ns
unfolding member
others-absent u [] h = refl
others-absent u (n ∷ ns) h = ground (arith, others-absent u ns)

module _ {V : Type 0} where
  abbrev pub left_over_of : Row V → List Text → Progress → Option (Row V)
  left_over_of r [] null = none
  left_over_of r [] unset = some (record r { available_at = [] })
  left_over_of r [] downloading = some (record r { available_at = [] })
  left_over_of r (n ∷ ns) progress = some (record r { available_at = n ∷ ns })

  abbrev pub left_over : Text → Option (Row V) → Option (Row V)
  left_over u none = none
  left_over u (some r) = left_over_of r (others u r.available_at) r.download_progress

  unset-others :
      (u : Text) (r : Row V)
      → unset_available_at u r ≡ record r { available_at = others u r.available_at }
  unfolding unset_available_at
  unset-others u r = elim (Bool-cases (member u r.available_at)) [
    | inl m ↦ rw m (ap (λ l. record r { available_at = l }) (others-without u r.available_at))
    | inr m ↦
        rw m (ap (λ l. record r { available_at = l }) (sym (others-absent u r.available_at m)))
  ]

  keep-left_over :
      (r : Row V) (l : List Text) (progress : Progress)
      → r.download_progress ≡ progress
      → keep (λ q. not (is_unavailable q)) (some (record r { available_at = l }))
        ≡ left_over_of r l progress
  unfolding keep is_unavailable is_null
  keep-left_over r [] null e = ground arith
  keep-left_over r [] unset e = ground arith
  keep-left_over r [] downloading e = ground arith
  keep-left_over r (n ∷ ns) progress e = refl

  reset_found-left_over : (u : Text) (o : Option (Row V)) → reset_found u o ≡ left_over u o
  unfolding reset_found
  reset_found-left_over u none = refl
  reset_found-left_over u (some r) =
      ap (λ q. keep (λ x. not (is_unavailable x)) (some q)) (unset-others u r)
      ∙ keep-left_over r (others u r.available_at) r.download_progress refl

module _ {V W : Type 0} (Images : Table V) (Layers : Table W) where
  -- Each of the two tables has, after reset_info_of_node, under every key the row it had before without
  -- the node; the row is gone exactly if no node is left and its download_progress holds the text
  -- 'null'.
  pub get-reset_info_of_node :
      (u k : Text) (i : Images.State) (l : Layers.State)
      → (Images.get k (reset_info_of_node Images Layers u (i, l)).0 ≡ left_over u (Images.get k i))
        × (Layers.get k (reset_info_of_node Images Layers u (i, l)).1
            ≡ left_over u (Layers.get k l))
  get-reset_info_of_node u k i l =
      let (images, layers) = reset_info_of_node_lem Images Layers u k i l in
      (
        images ∙ reset_found-left_over u (Images.get k i),
        layers ∙ reset_found-left_over u (Layers.get k l),
      )
