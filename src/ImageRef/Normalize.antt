-- ===== src/ImageRef/Normalize.antt =====
-- `normalize_ref` and `marshal_normalize_ref` against the canonical components.
use beiran.Base.{All, Bool, Bool-cases, Free, List, Text, [], ap, append_assoc, arith, false, has}
use beiran.Base.{has-append, init, inl, inr, join, last_or, refl, same, split, split-All-Free}
use beiran.Base.{split-All-absent, split-join, sym, true, ℕ, ◌++◌, ◌∙◌, ◌∷◌, ◌≡◌, ◌≢◌}
use beiran.ImageRef.{assemble, at, colon, default_domain, default_tag, domain_of, is_domain}
use beiran.ImageRef.{locate, marshal, marshal_normalize_ref, marshal_ref, normalize_ref}
use beiran.ImageRef.{official_repo, repo_of, slash, split_digest, split_name_suffix, split_tag}
use beiran.ImageRef.Canonical.{IsFilled, canonical, canonical-canonical, retag}
use beiran.ImageRef.Tagged.{tagged}

-- The components of what `marshal_normalize_ref` prints.
pub repo_of-IsFilled :
    (path_comp name : Text)
    → IsFilled path_comp
    → repo_of path_comp name ≡ path_comp ++ (slash ∷ name)
unfolding repo_of
repo_of-IsFilled [] name h = absurd (h refl)
repo_of-IsFilled (c ∷ path_comp) name h = refl

pub join-IsFilled : (x : Text) (xs : List Text) → IsFilled x → IsFilled (join (slash ∷ []) (x ∷ xs))
join-IsFilled [] xs h = absurd (h refl)
join-IsFilled (c ∷ x) [] h = λ e. cc
join-IsFilled (c ∷ x) (y ∷ ys) h = λ e. cc

join-retag :
    (x y : Text) (ys : List Text)
    → join (slash ∷ []) (retag (x ∷ y ∷ ys))
      ≡ join (slash ∷ []) (init (x ∷ y ∷ ys)) ++ (slash ∷ tagged (last_or y ys))
unfolding retag
join-retag x y [] = refl
join-retag x y (z ∷ zs) = rw (append_assoc) (ap (λ t. x ++ (slash ∷ t)) (join-retag y z zs))

-- `assemble` with a path, printed.
marshal-assemble :
    (domain path_comp component : Text)
    → IsFilled path_comp
    → marshal_ref (assemble (domain, path_comp, component))
      ≡ domain ++ (slash ∷ (path_comp ++ (slash ∷ tagged component)))
unfolding assemble marshal tagged
marshal-assemble domain path_comp component h =
    rw (repo_of-IsFilled path_comp _ h)
      (ap (λ t. domain ++ (slash ∷ t)) (append_assoc path_comp _ _))

marshal-locate :
    (index : Bool) (xs : List Text)
    → All IsFilled (init xs)
    → marshal_ref (assemble (locate index xs)) ≡ join (slash ∷ []) (canonical index xs)
unfolding locate canonical retag
marshal-locate index [] h = marshal-assemble (domain_of index) official_repo [] (λ e. cc)
marshal-locate index (x ∷ []) h = marshal-assemble (domain_of index) official_repo x (λ e. cc)
marshal-locate index (x ∷ y ∷ []) h = elim (Bool-cases (is_domain x)) [
  | inl d ↦ elim (Bool-cases (same x default_domain)) [
    | inl k ↦ rw (d, k) (marshal-assemble x official_repo y (λ e. cc))
    | inr k ↦ rw (d, k) (unfold assemble marshal tagged repo_of in refl)
  ]
  | inr d ↦ rw d (marshal-assemble (domain_of index) x y h.0)
]
marshal-locate index (x ∷ y ∷ z ∷ rest) h = elim (Bool-cases (is_domain x)) [
  | inl d ↦ rw d (
      marshal-assemble x _ (last_or z rest) (join-IsFilled y (init (z ∷ rest)) h.1.0)
      ∙ ap (λ t. x ++ (slash ∷ t)) (sym (join-retag y z rest)))
  | inr d ↦ rw d (
      marshal-assemble (domain_of index) _ (last_or z rest)
        (join-IsFilled x (init (y ∷ z ∷ rest)) h.0)
      ∙ ap (λ t. domain_of index ++ (slash ∷ t)) (sym (join-retag x y (z ∷ rest))))
]

join_tagged :
    (name suffix : Text) (c : ℕ)
    → Free slash name
    → Free slash suffix
    → c ≢ slash
    → Free slash (name ++ (c ∷ suffix))
unfolding has
join_tagged name suffix c h k ne = rw (has-append, h) (ground arith)

default_tag-slash : Free slash default_tag
unfolding has
default_tag-slash = refl

slash-split_tag :
    (parts : List Text)
    → All (Free slash) parts
    → let (name, sign, suffix) = split_tag parts in Free slash (name ++ (sign ++ suffix))
unfolding split_tag
slash-split_tag [] h = unfold has in refl
slash-split_tag (name ∷ []) h =
    join_tagged name default_tag colon h.0 default_tag-slash (omega arith)
slash-split_tag (name ∷ tag ∷ parts) h = join_tagged name tag colon h.0 h.1.0 (omega arith)

slash-split_digest :
    (s : Text) (parts : List Text)
    → Free slash s
    → All (Free slash) parts
    → let (name, sign, suffix) = split_digest s parts in Free slash (name ++ (sign ++ suffix))
unfolding split_digest
slash-split_digest s (name ∷ digest ∷ []) h k = join_tagged name digest at k.0 k.1.0 (omega arith)
slash-split_digest s [] h k = slash-split_tag _ (split-All-absent slash colon s h)
slash-split_digest s (a ∷ []) h k = slash-split_tag _ (split-All-absent slash colon s h)
slash-split_digest s (a ∷ b ∷ c ∷ parts) h k = slash-split_tag _ (split-All-absent slash colon s h)

slash-tagged : (s : Text) → Free slash s → Free slash (tagged s)
unfolding tagged split_name_suffix
slash-tagged s h = slash-split_digest s (split at s) h (split-All-absent slash at s h)

slash-retag : (xs : List Text) → All (Free slash) xs → All (Free slash) (retag xs)
unfolding retag
slash-retag [] h = tt
slash-retag (x ∷ []) h = (slash-tagged x h.0, tt)
slash-retag (x ∷ y ∷ ys) h = (h.0, slash-retag (y ∷ ys) h.1)

slash-domain_of : (index : Bool) → Free slash (domain_of index)
unfolding domain_of has
slash-domain_of true = refl
slash-domain_of false = refl

slash-official : Free slash official_repo
unfolding has
slash-official = refl

slash-canonical :
    (index : Bool) (xs : List Text) → All (Free slash) xs → All (Free slash) (canonical index xs)
unfolding canonical
slash-canonical index [] h =
    (slash-domain_of index, (slash-official, (slash-tagged [] (unfold has in refl), tt)))
slash-canonical index (x ∷ []) h =
    (slash-domain_of index, (slash-official, (slash-tagged x h.0, tt)))
slash-canonical index (x ∷ y ∷ []) h =
    let t = slash-tagged y h.1.0 in ground (arith, slash-domain_of index, slash-official)
slash-canonical index (x ∷ y ∷ z ∷ rest) h =
    let t = slash-retag (y ∷ z ∷ rest) h.1 in ground (arith, slash-domain_of index)

canonical-ne-nil : (index : Bool) (xs : List Text) → canonical index xs ≢ []
unfolding canonical
canonical-ne-nil index [] = λ e. cc
canonical-ne-nil index (x ∷ []) = λ e. cc
canonical-ne-nil index (x ∷ y ∷ []) = ground arith
canonical-ne-nil index (x ∷ y ∷ z ∷ rest) = ground arith

-- A reference none of whose components but the last is empty is printed as the canonical
-- components of its own, joined by slashes.
pub marshal_normalize_ref-canonical :
    (index : Bool) (ref : Text)
    → All IsFilled (init (split slash ref))
    → marshal_normalize_ref index ref ≡ join (slash ∷ []) (canonical index (split slash ref))
unfolding marshal_normalize_ref normalize_ref
marshal_normalize_ref-canonical index ref h = marshal-locate index (split slash ref) h

-- The printed reference splits into the canonical components.
split-marshal_normalize_ref :
    (index : Bool) (ref : Text)
    → All IsFilled (init (split slash ref))
    → split slash (marshal_normalize_ref index ref) ≡ canonical index (split slash ref)
split-marshal_normalize_ref index ref h = rw (marshal_normalize_ref-canonical index ref h) (
    split-join slash _ (canonical-ne-nil index _)
      (slash-canonical index _ (split-All-Free slash ref)))

init-retag : (x : Text) (xs : List Text) → init (x ∷ retag xs) ≡ init (x ∷ xs)
unfolding retag
init-retag x [] = refl
init-retag x (y ∷ []) = refl
init-retag x (y ∷ z ∷ zs) = ap (λ ts. x ∷ ts) (init-retag y (z ∷ zs))

IsFilled-retag :
    (x : Text) (xs : List Text) → All IsFilled (init (x ∷ xs)) → All IsFilled (init (x ∷ retag xs))
IsFilled-retag x xs h = rw (init-retag x xs) h

domain_of-IsFilled : (index : Bool) → IsFilled (domain_of index)
unfolding domain_of
domain_of-IsFilled true = λ e. cc
domain_of-IsFilled false = λ e. cc

official_repo-IsFilled : IsFilled official_repo
official_repo-IsFilled = λ e. cc

canonical-IsFilled :
    (index : Bool) (xs : List Text)
    → All IsFilled (init xs)
    → All IsFilled (init (canonical index xs))
unfolding canonical retag
canonical-IsFilled index [] h = (domain_of-IsFilled index, (official_repo-IsFilled, tt))
canonical-IsFilled index (x ∷ []) h = (domain_of-IsFilled index, (official_repo-IsFilled, tt))
canonical-IsFilled index (x ∷ y ∷ []) h = elim (Bool-cases (is_domain x)) [
  | inl d ↦ elim (Bool-cases (same x default_domain)) [
    | inl k ↦ rw (d, k) (h.0, (official_repo-IsFilled, tt))
    | inr k ↦ rw (d, k) h
  ]
  | inr d ↦ rw d (domain_of-IsFilled index, h)
]
canonical-IsFilled index (x ∷ y ∷ z ∷ rest) h = elim (Bool-cases (is_domain x)) [
  | inl d ↦ rw d (IsFilled-retag x (y ∷ z ∷ rest) h)
  | inr d ↦ rw d (IsFilled-retag (domain_of index) (x ∷ y ∷ z ∷ rest) (domain_of-IsFilled index, h))
]

-- Normalising is idempotent: a reference none of whose components but the last is empty is
-- printed in a form that a second normalisation, in the same mode, prints again.
pub marshal_normalize_ref_idem :
    (index : Bool) (ref : Text)
    → All IsFilled (init (split slash ref))
    → marshal_normalize_ref index (marshal_normalize_ref index ref)
      ≡ marshal_normalize_ref index ref
marshal_normalize_ref_idem index ref h =
    let e = split-marshal_normalize_ref index ref h in
    marshal_normalize_ref-canonical index (marshal_normalize_ref index ref)
      (rw e (canonical-IsFilled index (split slash ref) h))
    ∙ rw (e, canonical-canonical) (sym (marshal_normalize_ref-canonical index ref h))
