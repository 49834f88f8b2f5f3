-- ===== src/Subpath/Printed.antt =====
-- `int` of beiran/util.py's texts reads back what `str` prints.
use beiran.Base.{Bool, Bool-cases, Text, [], all_chars, all_chars-str, ap, append-nil}
use beiran.Base.{append_assoc, arith, false, inl, inr, is_digit, is_nil, ltb, negate, negsuc, pos}
use beiran.Base.{print_nat, refl, str, str_ℤ, suc, sym, true, zero, ℕ, ℤ, ◌%◌, ◌*◌, ◌++◌, ◌+◌}
use beiran.Base.{◌-◌, ◌/◌, ◌<◌, ◌==◌, ◌∙◌, ◌∷◌, ◌≡◌, ◌≤◌}
use beiran.Subpath.{decimal, int, is_decimal, is_space, ok, signed, strip_left}

decimal-digit :
    (m d : ℕ) (seen : Bool) (t : Text)
    → d < 10
    → decimal m seen ((b'0' + d) ∷ t) ≡ decimal (m * 10 + d) true t
unfolding decimal
decimal-digit m d seen t h =
    let digit : is_decimal (b'0' + d) ≡ true = unfold is_decimal in ground arith in
    let value : (b'0' + d) - b'0' ≡ d = omega arith in rw (digit, value) refl

decimal-one :
    (n : ℕ) (seen : Bool) (t : Text) → n < 10 → decimal 0 seen ((b'0' + n) ∷ t) ≡ decimal n true t
decimal-one n seen t h = decimal-digit 0 n seen t h ∙ ap (λ m. decimal m true t) (omega arith)

decimal-print_nat :
    (fuel n : ℕ) (seen : Bool) (t : Text)
    → n ≤ fuel
    → decimal 0 seen (print_nat fuel n ++ t) ≡ decimal n true t
unfolding print_nat
decimal-print_nat zero n seen t h = decimal-one n seen t (omega arith)
decimal-print_nat (suc fuel) n seen t h = elim (Bool-cases (ltb n 10)) [
  | inl e ↦ rw e (decimal-one n seen t (ground arith))
  | inr e ↦
      rw
        (
          e,
          append_assoc (print_nat fuel (n / 10)) ((b'0' + n % 10) ∷ []) t,
          decimal-print_nat fuel (n / 10) seen ((b'0' + n % 10) ∷ t) (omega arith),
        )
        (decimal-digit (n / 10) (n % 10) true t (omega arith)
          ∙ ap (λ m. decimal m true t) (omega arith))
]

int-digits :
    (s : Text) (n : ℕ) → all_chars is_digit s ≡ true → decimal 0 false s ≡ ok n → int s ≡ ok (pos n)
unfolding int all_chars strip_left signed
int-digits [] n h e = absurd cc
int-digits (c ∷ s) n h e =
    let no_space : is_space c ≡ false = unfold is_space in ground arith in
    let no_minus : (c == b'-') ≡ false = ground arith in
    let no_plus : (c == b'+') ≡ false = ground arith in rw (no_space, no_minus, no_plus, e) refl

decimal-str : (n : ℕ) → decimal 0 false (str n) ≡ ok n
unfolding str decimal
decimal-str n =
    ap (λ t. decimal 0 false t) (sym (append-nil (print_nat n n)))
    ∙ decimal-print_nat n n false [] (omega arith)

pub int-str : (n : ℕ) → int (str n) ≡ ok (pos n)
int-str n = int-digits (str n) n (all_chars-str n) (decimal-str n)

number-not_nil : (s : Text) (n : ℕ) → int s ≡ ok (pos n) → is_nil s ≡ false
unfolding int strip_left signed
number-not_nil [] n e = absurd cc
number-not_nil (c ∷ s) n e = refl

pub is_nil-str : (n : ℕ) → is_nil (str n) ≡ false
is_nil-str n = number-not_nil (str n) n (int-str n)

pub int-str_ℤ : (z : ℤ) → int (str_ℤ z) ≡ ok z
unfolding str_ℤ
int-str_ℤ (pos n) = int-str n
int-str_ℤ (negsuc n) =
    unfold int strip_left signed is_space in rw (decimal-str (suc n)) (unfold negate in refl)
