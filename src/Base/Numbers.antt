-- ===== src/Base/Numbers.antt =====
-- Python's `str` of a natural number, and the digits that it has.
use Prim.Native.Nat.{ℕ, zero, suc, ◌+◌, ◌/◌, ◌%◌, ◌≤◌}
use mathlib.Core.Path.{◌≡◌}
use mathlib.Core.Logic.{inl, inr}
use mathlib.Core.Bool.{Bool, true, ◌&&◌}
use mathlib.Core.List.{[], ◌∷◌, ◌++◌}
use native.Mathlib.Omega.{arith}
use beiran.Base.Tests.{ltb, leb, if◌then◌else◌, Bool-cases}
use beiran.Base.Strings.{Text}
use beiran.Base.Int.{ℤ, pos, negsuc}

-- `c.isdigit()` on ASCII text
abbrev pub is_digit : ℕ → Bool
is_digit c = leb b'0' c && leb c b'9'

unfoldable pub all_chars : (ℕ → Bool) → Text → Bool
all_chars p [] = true
all_chars p (c ∷ s) = p c && all_chars p s

-- The digits, on as much fuel as the number is large.
unfoldable pub print_nat : ℕ → ℕ → Text
print_nat zero n = (b'0' + n) ∷ []
print_nat (suc fuel) n =
    let rest = print_nat fuel (n / 10) in
    if ltb n 10 then (b'0' + n) ∷ [] else rest ++ ((b'0' + n % 10) ∷ [])

-- `str(n)`
unfoldable pub str : ℕ → Text
str n = print_nat n n

pub all_chars-append :
    (p : ℕ → Bool) (s t : Text)
    → all_chars p s ≡ true
    → all_chars p t ≡ true
    → all_chars p (s ++ t) ≡ true
unfolding all_chars
all_chars-append p [] t h k = k
all_chars-append p (c ∷ s) t h k = ground (arith, all_chars-append p s t)

all_chars-print_nat : (fuel n : ℕ) → n ≤ fuel → all_chars is_digit (print_nat fuel n) ≡ true
unfolding all_chars print_nat
all_chars-print_nat zero n h = ground arith
all_chars-print_nat (suc fuel) n h = elim (Bool-cases (ltb n 10)) [
  | inl e ↦ rw e (ground arith)
  | inr e ↦ rw e (
      all_chars-append is_digit (print_nat fuel (n / 10)) ((b'0' + n % 10) ∷ [])
        (all_chars-print_nat fuel (n / 10) (omega arith)) (ground arith))
]

pub all_chars-str : (n : ℕ) → all_chars is_digit (str n) ≡ true
unfolding str
all_chars-str n = all_chars-print_nat n n (omega arith)

-- `str(z)`
unfoldable pub str_ℤ : ℤ → Text
str_ℤ (pos n) = str n
str_ℤ (negsuc n) = b'-' ∷ str (suc n)

-- `z + 1`
unfoldable pub suc_ℤ : ℤ → ℤ
suc_ℤ (pos n) = pos (suc n)
suc_ℤ (negsuc zero) = pos 0
suc_ℤ (negsuc (suc n)) = negsuc n
