-- ===== src/Container/Manifest/Cases.antt =====
-- When the dispatch of a manifest in plugins/beiran_package_container/container.py gives a value: on the
-- schema, on a media type, and on the entries of a list.
use beiran.Base.{All, Bool-cases, List, Option, Text, [], ap, arith, false, if◌then◌else◌}
use beiran.Base.{inl, inr, none, refl, same, same_iff, same_refl, some, sym, ℕ, ◌&&◌, ◌++◌}
use beiran.Base.{◌==◌, ◌∙◌, ◌↔◌, ◌∷◌, ◌≡◌, ◌⊎◌}
use beiran.Container.Manifest.{Platform, find_platform, media_of}
use beiran.Container.Registry.{Pull, PullError, failed, pulled, then_pull}

pub then_pull_iff :
    {A B : Type 0} (m : Pull A) (f : A → Pull B) (b : B)
    → (then_pull m f ≡ pulled b) ↔ ((a : A) × (m ≡ pulled a) × (f a ≡ pulled b))
then_pull_iff (pulled a) f b = (
  λ h. (a, refl, h),
  λ h. let (c, e, g) = h in let same_value : a ≡ c = cc in ap f same_value ∙ g,
)
then_pull_iff (failed e) f b = (λ h. absurd cc, λ h. absurd cc)

-- The dispatch on the schema.
pub versions_iff :
    {A : Type 0} (n : ℕ) (x y : Pull A) (e : PullError) (a : A)
    → ((if n == 1 then x else if n == 2 then y else failed e) ≡ pulled a)
      ↔ (((n ≡ 1) × (x ≡ pulled a)) ⊎ ((n ≡ 2) × (y ≡ pulled a)))
versions_iff n x y e a = (
  λ h. elim (Bool-cases (n == 1)) [
    | inl one ↦ inl (ground arith, ground arith)
    | inr other ↦ elim (Bool-cases (n == 2)) [
      | inl two ↦ inr (ground arith, ground arith)
      | inr none_of_them ↦ absurd (ground arith)
    ]
  ],
  λ h. elim h [ inl (one, g) ↦ rw (one) g | inr (two, g) ↦ rw (two) g ],
)

-- The dispatch on a media type of the header.
pub media_iff :
    {A : Type 0} (o : Option Text) (t : Text) (x y : Pull A) (a : A)
    → (then_pull (media_of o) (λ v. if same t v then x else y) ≡ pulled a) ↔ (
        ((o ≡ some t) × (x ≡ pulled a))
        ⊎ ((v : Text) × (o ≡ some v) × (same t v ≡ false) × (y ≡ pulled a)))
unfolding media_of
media_iff none t x y a =
    (λ h. absurd cc, λ h. elim h [ inl (e, g) ↦ absurd cc | inr (v, e, f, g) ↦ absurd cc ])
media_iff (some v) t x y a = (
  λ h. elim (Bool-cases (same t v)) [
    | inl e ↦ inl (ap some (sym ((same_iff t v).0 e)), ground arith)
    | inr e ↦ inr (v, refl, e, ground arith)
  ],
  λ h. elim h [
    | inl (e, g) ↦ let k : v ≡ t = ground arith in rw (k, same_refl t) g
    | inr (w, e, f, g) ↦ let k : v ≡ w = ground arith in rw (k, f) g
  ],
)

abbrev pub IsOther : Text → Text → Platform → Type 0
IsOther arch os p = (same p.architecture arch && same p.os os) ≡ false

-- The digest of the first entry for the machine.
abbrev pub IsPicked : Option Text → Text → List Platform → Text → Type 0
IsPicked go_arch os l d =
    (arch : Text) × (go_arch ≡ some arch)
    × ((others : List Platform) × (p : Platform) × (ps : List Platform) × (l ≡ others ++ (p ∷ ps))
        × All (IsOther arch os) others
        × (p.architecture ≡ arch)
        × (p.os ≡ os)
        × (p.platform_digest ≡ d))

find_platform-to :
    (arch os : Text) (l : List Platform) (d : Text)
    → find_platform (some arch) os l ≡ pulled d
    → IsPicked (some arch) os l d
unfolding find_platform
find_platform-to arch os [] d h = absurd cc
find_platform-to arch os (p ∷ ps) d h =
    elim (Bool-cases (same p.architecture arch && same p.os os)) [
      | inl e ↦ (
        arch,
        refl,
        (
          [],
          p,
          ps,
          refl,
          tt,
          (same_iff p.architecture arch).0 (ground arith),
          (same_iff p.os os).0 (ground arith),
          ground arith,
        ),
      )
      | inr e ↦
          let (a, k, (others, q, qs, split, all, m, o, g)) =
            find_platform-to arch os ps d (ground arith) in
          let same_arch : arch ≡ a = ground arith in
          (a, k, (p ∷ others, q, qs, ap (λ l. p ∷ l) split, (rw (sym same_arch) e, all), m, o, g))
    ]

find_platform-append :
    (arch os : Text) (others : List Platform) (p : Platform) (ps : List Platform)
    → All (IsOther arch os) others
    → p.architecture ≡ arch
    → p.os ≡ os
    → find_platform (some arch) os (others ++ (p ∷ ps)) ≡ pulled p.platform_digest
unfolding find_platform
find_platform-append arch os [] p ps h a o = rw (a, o, same_refl arch, same_refl os) refl
find_platform-append arch os (q ∷ others) p ps h a o =
    rw (h.0) (find_platform-append arch os others p ps h.1 a o)

pub find_platform_iff :
    (go_arch : Option Text) (os : Text) (l : List Platform) (d : Text)
    → (find_platform go_arch os l ≡ pulled d) ↔ IsPicked go_arch os l d
unfolding find_platform
find_platform_iff none os [] d = (λ h. absurd cc, λ (arch, e, k). absurd cc)
find_platform_iff none os (p ∷ ps) d = (λ h. absurd cc, λ (arch, e, k). absurd cc)
find_platform_iff (some arch) os l d = (
  find_platform-to arch os l d,
  λ (a, e, (others, p, ps, split, all, m, o, g)).
      let same_arch : arch ≡ a = ground arith in
      rw (same_arch, split) (find_platform-append a os others p ps all m o ∙ ap pulled g),
)
