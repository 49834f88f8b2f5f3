-- ===== src/Base/Strings.antt =====
-- Python's `str` as the list of its code points, with the string methods that the program calls.
use Prim.Native.Nat.{ℕ, zero, suc, ◌-◌}
use Prim.Native.Char.{code}
use Prim.Native.String.{String}
use mathlib.Core.Path.{◌≡◌, refl, ap, ◌∙◌}
use mathlib.Core.Logic.{◌≢◌, ◌↔◌, inl, inr}
use mathlib.Core.Bool.{Bool, true, false, ◌&&◌, ◌||◌}
use mathlib.Core.Option.{some}
use mathlib.Core.List.{List, [], ◌∷◌, ◌++◌}
use native.Mathlib.Omega.{arith}
use beiran.Base.Tests.{◌==◌, if◌then◌else◌, Bool-cases}
use beiran.Base.Lists.{All, length, get_elem?}

abbrev pub Text : Type 0
Text = List ℕ

-- The text of a literal.
abbrev pub codes : String → Text
codes String.[] = []
codes (String.◌∷◌ c s) = code c ∷ codes s

-- `s == t`
unfoldable pub same : Text → Text → Bool
same [] [] = true
same (a ∷ s) (b ∷ t) = a == b && same s t
same _ _ = false

pub same_iff : (s t : Text) → (same s t ≡ true) ↔ (s ≡ t)
unfolding same
same_iff [] [] = (λ _. refl, λ _. refl)
same_iff (a ∷ s) (b ∷ t) = ground (arith, same_iff s t)
same_iff [] (b ∷ t) = (λ h. cc, λ h. cc)
same_iff (a ∷ s) [] = (λ h. cc, λ h. cc)

pub same_refl : (s : Text) → same s s ≡ true
same_refl s = (same_iff s s).1 refl

-- `c in s`, for a text of one character
unfoldable pub has : ℕ → Text → Bool
has c [] = false
has c (d ∷ s) = d == c || has c s

-- `t in ts`
unfoldable pub member : Text → List Text → Bool
member t [] = false
member t (u ∷ ts) = same u t || member t ts

-- `s.startswith(p)`
unfoldable pub starts_with : Text → Text → Bool
starts_with s [] = true
starts_with [] (c ∷ p) = false
starts_with (d ∷ s) (c ∷ p) = d == c && starts_with s p

abbrev cons_head : ℕ → List Text → List Text
cons_head c [] = (c ∷ []) ∷ []
cons_head c (w ∷ ws) = (c ∷ w) ∷ ws

-- `s.split(c)`, for a separator of one character
unfoldable pub split : ℕ → Text → List Text
split c [] = [] ∷ []
split c (d ∷ s) = let rest = split c s in if d == c then [] ∷ rest else cons_head d rest

-- `s.split(p)`, for a longer separator; the number counts the characters of a match left to skip.
split_skip : Text → ℕ → Text → List Text
split_skip p n [] = [] ∷ []
split_skip p (suc n) (d ∷ s) = split_skip p n s
split_skip p zero (d ∷ s) = elim (starts_with (d ∷ s) p) [
  | true ↦ [] ∷ split_skip p (length p - 1) s
  | false ↦ cons_head d (split_skip p zero s)
]

unfoldable pub split_text : Text → Text → List Text
unfolding split_skip starts_with
split_text p s = split_skip p zero s

-- `sep.join(ws)`
abbrev pub join : Text → List Text → Text
join sep [] = []
join sep (w ∷ []) = w
join sep (w ∷ v ∷ ws) = w ++ (sep ++ join sep (v ∷ ws))

abbrev pub Free : ℕ → Text → Type 0
Free c w = has c w ≡ false

pub has-append : (c : ℕ) (s t : Text) → has c (s ++ t) ≡ (has c s || has c t)
unfolding has
has-append c [] t = refl
has-append c (d ∷ s) t = ground (arith, has-append c s t)

pub split-ne-nil : (c : ℕ) (s : Text) → split c s ≢ []
unfolding split
split-ne-nil c [] = ground arith
split-ne-nil c (d ∷ s) = ground arith

-- The parts hold no separator.
pub split-All-Free : (c : ℕ) (s : Text) → All (Free c) (split c s)
unfolding split has
split-All-Free c [] = (refl, tt)
split-All-Free c (d ∷ s) = go (split c s) (split-All-Free c s)
  where
    go :
        (ws : List Text)
        → All (Free c) ws
        → All (Free c) (if d == c then [] ∷ ws else cons_head d ws)
    go [] h = ground arith
    go (w ∷ ws) h = ground arith

pub join-split : (c : ℕ) (s : Text) → join (c ∷ []) (split c s) ≡ s
unfolding split
join-split c [] = refl
join-split c (d ∷ s) = go (split c s) (split-ne-nil c s) (join-split c s)
  where
    go :
        (ws : List Text)
        → ws ≢ []
        → join (c ∷ []) ws ≡ s
        → join (c ∷ []) (if d == c then [] ∷ ws else cons_head d ws) ≡ d ∷ s
    go [] ne h = absurd (ne refl)
    go (w ∷ []) ne h = ground arith
    go (w ∷ v ∷ ws) ne h = ground arith

pub split-Free : (c : ℕ) (w : Text) → Free c w → split c w ≡ w ∷ []
unfolding split has
split-Free c [] h = refl
split-Free c (d ∷ w) h = ground (arith, split-Free c w)

pub split-append : (c : ℕ) (w s : Text) → Free c w → split c (w ++ (c ∷ s)) ≡ w ∷ split c s
unfolding split has
split-append c [] s h = ground arith
split-append c (d ∷ w) s h = ground (arith, split-append c w s)

pub split-join :
    (c : ℕ) (ws : List Text) → ws ≢ [] → All (Free c) ws → split c (join (c ∷ []) ws) ≡ ws
split-join c [] ne h = absurd (ne refl)
split-join c (w ∷ []) ne h = split-Free c w h.0
split-join c (w ∷ v ∷ ws) ne h =
    rw (split-append c w (join (c ∷ []) (v ∷ ws)) h.0, split-join c (v ∷ ws) (λ e. cc) h.1)

-- A split at one character leaves another one where it was, absent.
pub split-All-absent : (c d : ℕ) (s : Text) → Free c s → All (Free c) (split d s)
unfolding split has
split-All-absent c d [] h = (refl, tt)
split-All-absent c d (e ∷ s) h = go (split d s) (split-All-absent c d s (ground arith))
  where
    go :
        (ws : List Text)
        → All (Free c) ws
        → All (Free c) (if e == d then [] ∷ ws else cons_head e ws)
    go [] k = ground arith
    go (w ∷ ws) k = ground arith

pub Free-append : (c : ℕ) (s t : Text) → Free c s → Free c t → Free c (s ++ t)
Free-append c s t h k = rw (has-append, h, k)

has-starts_with : (c : ℕ) (s p : Text) → starts_with s p ≡ true → has c p ≡ true → has c s ≡ true
unfolding starts_with has
has-starts_with c s [] h k = absurd (ground arith)
has-starts_with c [] (d ∷ p) h k = absurd (ground arith)
has-starts_with c (e ∷ s) (d ∷ p) h k = ground (arith, has-starts_with c s p)

-- A text that lacks a character of `p` does not start with `p`.
pub starts_with-Free : (c : ℕ) (s p : Text) → has c p ≡ true → Free c s → starts_with s p ≡ false
starts_with-Free c s p k h = elim (Bool-cases (starts_with s p)) [
  | inl e ↦ absurd (ground (arith, has-starts_with c s p e k))
  | inr e ↦ e
]

pub starts_with-append : (p s : Text) → starts_with (p ++ s) p ≡ true
unfolding starts_with
starts_with-append [] s = refl
starts_with-append (c ∷ p) s = ground (arith, starts_with-append p s)

Free-tail : (c d : ℕ) (s : Text) → Free c (d ∷ s) → Free c s
unfolding has
Free-tail c d s h = ground arith

split_skip-Free : (c : ℕ) (p s : Text) → has c p ≡ true → Free c s → split_skip p zero s ≡ s ∷ []
unfolding split_skip
split_skip-Free c p [] k h = refl
split_skip-Free c p (d ∷ s) k h =
    rw (starts_with-Free c (d ∷ s) p k h, split_skip)
      (rw (split_skip-Free c p s k (Free-tail c d s h)))

split_skip-skip : (q p s : Text) → split_skip q (length p) (p ++ s) ≡ split_skip q zero s
unfolding split_skip
split_skip-skip q [] s = refl
split_skip-skip q (c ∷ p) s = split_skip-skip q p s

-- The split at a prefix: the text before it is empty, and what follows lacks a character of it.
pub split_text-prefix :
    (c d : ℕ) (p s : Text)
    → has c (d ∷ p) ≡ true
    → Free c s
    → split_text (d ∷ p) ((d ∷ p) ++ s) ≡ [] ∷ s ∷ []
unfolding split_text split_skip
split_text-prefix c d p s k h =
    let e : suc (length p) - 1 ≡ length p = omega arith in
    rw (starts_with-append (d ∷ p) s, split_text, split_skip, e)
      (ap (λ r. [] ∷ r) (split_skip-skip (d ∷ p) p s ∙ split_skip-Free c (d ∷ p) s k h))

split_skip-ne-nil : (p : Text) (n : ℕ) (s : Text) → split_skip p n s ≢ []
unfolding split_skip
split_skip-ne-nil p n [] = ground arith
split_skip-ne-nil p (suc n) (d ∷ s) = split_skip-ne-nil p n s
split_skip-ne-nil p zero (d ∷ s) = go (starts_with (d ∷ s) p) (split_skip p zero s)
  where
    cons_head-ne-nil : (ws : List Text) → cons_head d ws ≢ []
    cons_head-ne-nil [] = ground arith
    cons_head-ne-nil (w ∷ ws) = ground arith

    go :
        (b : Bool) (rest : List Text)
        → (let cut : List Text = elim b [
          | true ↦ [] ∷ split_skip p (length p - 1) s
          | false ↦ cons_head d rest
        ] in
            cut)
          ≢ []
    go true rest = ground arith
    go false rest = cons_head-ne-nil rest

split_skip-hit :
    (p : Text) (d : ℕ) (s : Text)
    → starts_with (d ∷ s) p ≡ true
    → split_skip p zero (d ∷ s) ≡ [] ∷ split_skip p (length p - 1) s
unfolding split_skip
split_skip-hit p d s h = rw (h, split_skip) refl

second-some : (ws : List Text) → ws ≢ [] → (w : Text) × (get_elem? ([] ∷ ws) 1 ≡ some w)
second-some [] h = absurd (h refl)
second-some (w ∷ ws) h = (w, refl)

-- A text that starts with the separator has a part after it.
pub split_text-second :
    (c : ℕ) (p s : Text)
    → starts_with s (c ∷ p) ≡ true
    → (w : Text) × (get_elem? (split_text (c ∷ p) s) 1 ≡ some w)
unfolding split_text
split_text-second c p [] h = absurd (unfold starts_with in ground arith)
split_text-second c p (d ∷ s) h =
    let n : ℕ = length (c ∷ p) - 1 in
    let (w, e) = second-some (split_skip (c ∷ p) n s) (split_skip-ne-nil (c ∷ p) n s) in
    (w, ap (λ ws. get_elem? ws 1) (split_skip-hit (c ∷ p) d s h) ∙ e)
