-- ===== src/Container/Model.antt =====
-- plugins/beiran_package_container/models.py: the rows of images and layers, and the lists of nodes
-- at which they are available.
-- `rest` stands for the columns that are not named. A row that is read in full and saved has the text
-- 'null' where the database had NULL; only save_image_at_node is modelled with that.
use beiran.Base.{Bool, Bool-cases, List, Option, Text, [], ap, arith, false, if◌then◌else◌, inl}
use beiran.Base.{
  inr, member, none, not, refl, true, same, same_iff, some, sym, ◌++◌, ◌||◌, ◌∙◌, ◌∷◌,
}
use beiran.Base.{◌≡◌}

-- The column `download_progress`: NULL, which is there until it is written, the JSON text 'null' of
-- Python's None, and the text of a progress.
pub data Progress : Type 0 where
  unset null downloading : Progress

unfoldable pub is_null : Progress → Bool
is_null null = true
is_null unset = false
is_null downloading = false

-- What is written back of it.
unfoldable pub written_back : Progress → Progress
written_back unset = null
written_back null = null
written_back downloading = downloading

pub record Row (V : Type 0) : Type 0 where
  pub key : Text
  pub available_at : List Text
  pub download_progress : Progress
  pub rest : V

unfoldable pub without : Text → List Text → List Text
without u [] = []
without u (n ∷ ns) = let others = without u ns in if same n u then others else n ∷ others

module _ {V : Type 0} where
  unfoldable pub set_available_at : Text → Row V → Row V
  set_available_at uuid r =
      if member uuid r.available_at
      then r
      else record r { available_at = r.available_at ++ (uuid ∷ []) }

  unfoldable pub unset_available_at : Text → Row V → Row V
  unfolding without
  unset_available_at uuid r =
      if not (member uuid r.available_at)
      then r
      else record r { available_at = without uuid r.available_at }

  abbrev pub is_available : Text → Row V → Bool
  is_available uuid r = member uuid r.available_at

pub data Availability : Type 0 where
  unavailable available local : Availability

-- What `to_dict` says of an image, for the local node's uuid.
unfoldable pub availability : Text → List Text → Availability
availability here [] = unavailable
availability here (n ∷ ns) = if not (member here (n ∷ ns)) then available else local

pub member-append :
    (u : Text) (xs ys : List Text) → member u (xs ++ ys) ≡ (member u xs || member u ys)
unfolding member
member-append u [] ys = refl
member-append u (x ∷ xs) ys = ground (arith, member-append u xs ys)

member-without :
    (u v : Text) (xs : List Text)
    → member v (without u xs) ≡ (if same u v then false else member v xs)
unfolding member without
member-without u v [] = ground arith
member-without u v (x ∷ xs) =
    ground (arith, member-without u v xs, same_iff x u, same_iff x v, same_iff u v)

module _ {V : Type 0} where
  -- A node is available after `set_available_at` if it is the one that was set or was available.
  pub is_available-set :
      (u v : Text) (r : Row V)
      → is_available v (set_available_at u r) ≡ (same u v || is_available v r)
  unfolding set_available_at member
  is_available-set u v r = ground (arith, member-append v r.available_at (u ∷ []), same_iff u v)

  pub is_available-unset :
      (u v : Text) (r : Row V)
      → is_available v (unset_available_at u r) ≡ (if same u v then false else is_available v r)
  unfolding unset_available_at
  is_available-unset u v r = ground (arith, member-without u v r.available_at, same_iff u v)

-- The rows of a query by their keys.
module _ {V : Type 0} where
  unfoldable pub find : Text → List (Row V) → Option (Row V)
  find k [] = none
  find k (r ∷ rs) = if same r.key k then some r else find k rs

  abbrev pub IsUnique : List (Row V) → Type 0
  IsUnique [] = Unit
  IsUnique (r ∷ rs) = (find r.key rs ≡ none) × IsUnique rs

  unfoldable pub keep : (Row V → Bool) → Option (Row V) → Option (Row V)
  keep p none = none
  keep p (some r) = if p r then some r else none

module _ {V : Type 0} where
  unfoldable pub filter : (Row V → Bool) → List (Row V) → List (Row V)
  filter p [] = []
  filter p (r ∷ rs) = let rest = filter p rs in if p r then r ∷ rest else rest

  pub find-filter :
      (k : Text) (p : Row V → Bool) (rs : List (Row V))
      → IsUnique rs
      → find k (filter p rs) ≡ keep p (find k rs)
  unfolding filter find keep
  find-filter k p [] h = refl
  find-filter k p (q ∷ rs) h =
      let tail = find-filter k p rs h.1 in
      let gone : q.key ≡ k → find k rs ≡ none = λ e. ap (λ j. find j rs) (sym e) ∙ h.0 in
      ground (arith, tail, gone, same_iff q.key k)

  pub filter-IsUnique :
      (p : Row V → Bool) (rs : List (Row V)) → IsUnique rs → IsUnique (filter p rs)
  unfolding filter keep
  filter-IsUnique p [] h = tt
  filter-IsUnique p (q ∷ rs) h = elim (Bool-cases (p q)) [
    | inl e ↦ rw (e) (rw (find-filter q.key p rs h.1, h.0) refl, filter-IsUnique p rs h.1)
    | inr e ↦ rw (e) (filter-IsUnique p rs h.1)
  ]

  pub key-find : (k : Text) (rs : List (Row V)) (r : Row V) → find k rs ≡ some r → r.key ≡ k
  unfolding find
  key-find k [] r h = absurd (ground arith)
  key-find k (q ∷ rs) r h = elim (Bool-cases (same q.key k)) [
    | inl e ↦ ground (arith, same_iff q.key k)
    | inr e ↦ key-find k rs r (ground arith)
  ]
