-- ===== src/ImageRef/RoundTrip.antt =====
-- A reference built from its parts is taken apart into them.
-- A tag or a digest, as it stands behind the name.
use beiran.Base.{All, All-append, Bool, Free, List, Text, [], ap, append_assoc, arith, has}
use beiran.Base.{has-append, init-snoc, join, last_or-snoc, refl, split, split-Free, split-append}
use beiran.Base.{split-join, true, ℕ, ◌++◌, ◌∷◌, ◌≡◌, ◌≢◌}
use beiran.ImageRef.{assemble, at, colon, is_domain, locate, marshal, normalize_ref, slash}
use beiran.ImageRef.{split_name_suffix}
use beiran.ImageRef.Normalize.{join-IsFilled, repo_of-IsFilled}

pub data Pin : Type 0 where
  tag : Text → Pin
  digest : Text → Pin

abbrev pub sign_of : Pin → Text
sign_of (tag t) = colon ∷ []
sign_of (digest t) = at ∷ []

abbrev pub suffix_of : Pin → Text
suffix_of (tag t) = t
suffix_of (digest t) = t

-- A name before a tag holds neither sign, a name before a digest may hold a tag.
abbrev pub IsPinned : Text → Pin → Type 0
IsPinned name (tag t) =
    Free colon name × Free at name × Free slash name × Free colon t × Free at t × Free slash t
IsPinned name (digest t) = Free at name × Free slash name × Free at t × Free slash t

abbrev pinned : Text → Pin → Text
pinned name p = name ++ (sign_of p ++ suffix_of p)

Free-pinned : (name t : Text) (c d : ℕ) → Free c name → Free c t → d ≢ c → Free c (name ++ (d ∷ t))
unfolding has
Free-pinned name t c d h k ne = rw (has-append, h) (ground arith)

split_name_suffix-pinned :
    (name : Text) (p : Pin)
    → IsPinned name p
    → split_name_suffix (pinned name p) ≡ (name, sign_of p, suffix_of p)
unfolding split_name_suffix
split_name_suffix-pinned name (tag t) h = rw (
  split-Free at _ (Free-pinned name t at colon h.1 h.4 (omega arith)),
  split-append colon name t h.0,
  split-Free colon t h.3,
)
split_name_suffix-pinned name (digest t) h = rw (split-append at name t h.0, split-Free at t h.2)

slash-pinned : (name : Text) (p : Pin) → IsPinned name p → Free slash (pinned name p)
slash-pinned name (tag t) h = Free-pinned name t slash colon h.2 h.5 (omega arith)
slash-pinned name (digest t) h = Free-pinned name t slash at h.1 h.3 (omega arith)

join-snoc :
    (x : Text) (xs : List Text) (t : Text)
    → join (slash ∷ []) (x ∷ (xs ++ (t ∷ []))) ≡ join (slash ∷ []) (x ∷ xs) ++ (slash ∷ t)
join-snoc x [] t = refl
join-snoc x (y ∷ ys) t = rw append_assoc (ap (λ r. x ++ (slash ∷ r)) (join-snoc y ys t))

locate-snoc :
    (index : Bool) (d x : Text) (xs : List Text) (t : Text)
    → is_domain d ≡ true
    → locate index (d ∷ x ∷ (xs ++ (t ∷ []))) ≡ (d, join (slash ∷ []) (x ∷ xs), t)
unfolding locate
locate-snoc index d x [] t h = rw h
locate-snoc index d x (y ∷ ys) t h =
    rw (h, last_or-snoc y t ys) (ap (λ r. (d, join (slash ∷ []) r, t)) (init-snoc t (x ∷ y ∷ ys)))

split-marshal :
    (domain x : Text) (xs : List Text) (name : Text) (p : Pin)
    → Free slash domain
    → All (Free slash) (x ∷ xs)
    → IsPinned name p
    → split slash
        (marshal domain (join (slash ∷ []) (x ∷ xs) ++ (slash ∷ name)) (sign_of p) (suffix_of p))
      ≡ domain ∷ x ∷ (xs ++ (pinned name p ∷ []))
unfolding marshal
split-marshal domain x xs name p k free pin =
    rw (split-append slash domain _ k, append_assoc, ← join-snoc)
      (ap (λ r. domain ∷ r)
        (split-join slash (x ∷ (xs ++ (pinned name p ∷ []))) (λ e. cc)
          (free.0, All-append (Free slash) xs _ free.1 (slash-pinned name p pin, tt))))

-- The reference `domain/path/name` with a tag or a digest normalises to just these parts, whatever
-- the mode, if the domain holds a dot or a colon, the path has a component, the first of its
-- components is not empty, no component holds a slash, and the name and its tag or digest hold no
-- sign that would move the cut between them.
pub normalize_ref-marshal :
    (index : Bool) (domain x : Text) (xs : List Text) (name : Text) (p : Pin)
    → is_domain domain ≡ true
    → Free slash domain
    → x ≢ []
    → All (Free slash) (x ∷ xs)
    → IsPinned name p
    → let repo = join (slash ∷ []) (x ∷ xs) ++ (slash ∷ name) in
      normalize_ref index (marshal domain repo (sign_of p) (suffix_of p))
      ≡ record { domain = domain; repo = repo; sign = sign_of p; suffix = suffix_of p }
unfolding normalize_ref
normalize_ref-marshal index domain x xs name p h k ne free pin =
    rw (split-marshal domain x xs name p k free pin, locate-snoc index domain x xs _ h)
      (rw (split_name_suffix-pinned name p pin, assemble)
        (rw (repo_of-IsFilled _ name (join-IsFilled x xs ne))))
