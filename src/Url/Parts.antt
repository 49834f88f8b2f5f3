-- ===== src/Url/Parts.antt =====
-- Where the methods of `str` that urlparse calls cut a text.
use beiran.Base.{Bool, Bool-cases, Free, Text, [], all_chars, ap, arith, codes, false, has, inl}
use beiran.Base.{inr, is_digit, not, refl, split-Free, true, ℕ, ◌++◌, ◌==◌, ◌||◌, ◌∷◌, ◌≡◌}
use beiran.Url.{after_last, is_lower, is_upper, lower, partition, split_netloc}

pub all_chars-imp :
    (p q : ℕ → Bool) (s : Text)
    → ((c : ℕ) → p c ≡ true → q c ≡ true)
    → all_chars p s ≡ true
    → all_chars q s ≡ true
unfolding all_chars
all_chars-imp p q [] f h = refl
all_chars-imp p q (c ∷ s) f h = ground (arith, f c, all_chars-imp p q s f)

pub all_chars-Free :
    (p : ℕ → Bool) (c : ℕ) (s : Text) → p c ≡ false → all_chars p s ≡ true → Free c s
unfolding all_chars has
all_chars-Free p c [] f h = refl
all_chars-Free p c (d ∷ s) f h = elim (Bool-cases (d == c)) [
  | inl e ↦ let same_char : d ≡ c = ground arith in absurd (ground (arith, ap p same_char))
  | inr e ↦ rw e (all_chars-Free p c s f (ground arith))
]

pub partition-append : (c : ℕ) (w s : Text) → Free c w → partition c (w ++ (c ∷ s)) ≡ (w, s)
unfolding partition has
partition-append c [] s h = ground arith
partition-append c (d ∷ w) s h = ground (arith, partition-append c w s)

pub partition-Free : (c : ℕ) (w : Text) → Free c w → partition c w ≡ (w, [])
unfolding partition has
partition-Free c [] h = refl
partition-Free c (d ∷ w) h = ground (arith, partition-Free c w)

-- A character of the host and the port, not a delimiter.
unfoldable pub is_net_char : ℕ → Bool
is_net_char c = not (has c (codes "/?#"))

pub split_netloc-append :
    (c : ℕ) (w s : Text)
    → has c (codes "/?#") ≡ true
    → all_chars is_net_char w ≡ true
    → split_netloc (w ++ (c ∷ s)) ≡ (w, c ∷ s)
unfolding split_netloc all_chars is_net_char
split_netloc-append c [] s k h = rw k refl
split_netloc-append c (d ∷ w) s k h = ground (arith, split_netloc-append c w s k)

pub split_netloc-all : (w : Text) → all_chars is_net_char w ≡ true → split_netloc w ≡ (w, [])
unfolding split_netloc all_chars is_net_char
split_netloc-all [] h = refl
split_netloc-all (d ∷ w) h = ground (arith, split_netloc-all w)

pub after_last-Free : (c : ℕ) (w : Text) → Free c w → after_last c w ≡ w
unfolding after_last
after_last-Free c w h = rw (split-Free c w h) refl

-- A lower-case letter, a digit, a dot or a dash: what the names of protocols and hosts consist of.
unfoldable pub is_name_char : ℕ → Bool
is_name_char c = is_lower c || is_digit c || has c (codes ".-")

pub lower-name : (s : Text) → all_chars is_name_char s ≡ true → lower s ≡ s
unfolding all_chars lower is_name_char is_lower is_upper has
lower-name [] h = refl
lower-name (c ∷ s) h = ground (arith, lower-name s)
