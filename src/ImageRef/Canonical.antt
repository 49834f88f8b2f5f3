-- ===== src/ImageRef/Canonical.antt =====
-- The components of a canonical reference: what `normalize_ref` is to compute, without strings.
use beiran.Base.{Bool, Bool-cases, List, Text, [], ap, false, if◌then◌else◌, inl, inr, refl, same}
use beiran.Base.{true, ◌∷◌, ◌≡◌, ◌≢◌}
use beiran.ImageRef.{default_domain, domain_of, is_domain, official_repo}
use beiran.ImageRef.Tagged.{tagged, tagged-tagged}

-- The same list with its last component tagged.
unfoldable pub retag : List Text → List Text
retag [] = []
retag (x ∷ []) = tagged x ∷ []
retag (x ∷ y ∷ ys) = x ∷ retag (y ∷ ys)

-- The components of the canonical reference.
unfoldable pub canonical : Bool → List Text → List Text
canonical index [] = domain_of index ∷ official_repo ∷ tagged [] ∷ []
canonical index (x ∷ []) = domain_of index ∷ official_repo ∷ tagged x ∷ []
canonical index (x ∷ y ∷ []) =
    if is_domain x
    then (if same x default_domain then x ∷ official_repo ∷ tagged y ∷ [] else x ∷ tagged y ∷ [])
    else domain_of index ∷ x ∷ tagged y ∷ []
canonical index (x ∷ y ∷ z ∷ rest) =
    if is_domain x then x ∷ retag (y ∷ z ∷ rest) else domain_of index ∷ x ∷ retag (y ∷ z ∷ rest)

abbrev pub IsFilled : Text → Type 0
IsFilled w = w ≢ []

retag-retag : (xs : List Text) → retag (retag xs) ≡ retag xs
unfolding retag
retag-retag [] = refl
retag-retag (x ∷ []) = ap (λ t. t ∷ []) (tagged-tagged x)
retag-retag (x ∷ y ∷ []) = ap (λ ts. x ∷ ts) (retag-retag (y ∷ []))
retag-retag (x ∷ y ∷ z ∷ zs) = ap (λ ts. x ∷ ts) (retag-retag (y ∷ z ∷ zs))

domain_of-is_domain : (index : Bool) → is_domain (domain_of index) ≡ true
unfolding domain_of is_domain
domain_of-is_domain true = refl
domain_of-is_domain false = refl

canonical_long :
    (index : Bool) (d x y : Text) (ys : List Text)
    → is_domain d ≡ true
    → canonical index (d ∷ retag (x ∷ y ∷ ys)) ≡ d ∷ retag (x ∷ y ∷ ys)
unfolding canonical retag
canonical_long index d x y [] h = rw (h, tagged-tagged)
canonical_long index d x y (z ∷ zs) h = rw h (ap (λ ts. d ∷ ts) (retag-retag (x ∷ y ∷ z ∷ zs)))

canonical_pair :
    (index : Bool) (x y : Text)
    → is_domain x ≡ true
    → same x default_domain ≡ false
    → canonical index (x ∷ tagged y ∷ []) ≡ x ∷ tagged y ∷ []
unfolding canonical
canonical_pair index x y h k = rw (h, k, tagged-tagged)

-- The canonical components are their own canonical components.
pub canonical-canonical :
    (index : Bool) (xs : List Text) → canonical index (canonical index xs) ≡ canonical index xs
unfolding canonical
canonical-canonical index [] =
    unfold retag in
    canonical_long index (domain_of index) official_repo [] [] (domain_of-is_domain index)
canonical-canonical index (x ∷ []) =
    unfold retag in
    canonical_long index (domain_of index) official_repo x [] (domain_of-is_domain index)
canonical-canonical index (x ∷ y ∷ []) = elim (Bool-cases (is_domain x)) [
  | inl h ↦ elim (Bool-cases (same x default_domain)) [
    | inl k ↦ rw (h, k) (unfold retag in canonical_long index x official_repo y [] h)
    | inr k ↦ rw (h, k) (canonical_pair index x y h k)
  ]
  | inr h ↦
      rw h
        (unfold retag in canonical_long index (domain_of index) x y [] (domain_of-is_domain index))
]
canonical-canonical index (x ∷ y ∷ z ∷ rest) = elim (Bool-cases (is_domain x)) [
  | inl h ↦ rw h (canonical_long index x y z rest h)
  | inr h ↦ rw h (
      unfold retag in
      canonical_long index (domain_of index) x y (z ∷ rest) (domain_of-is_domain index))
]
