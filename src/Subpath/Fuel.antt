-- ===== src/Subpath/Fuel.antt =====
-- The fuel of the loops in `parse_subpath` is enough.
-- An error is not a lack of fuel.
use beiran.Base.{Bool, Option, Text, [], arith, codes, false, if◌then◌else◌, length, suc, true}
use beiran.Base.{zero, ℕ, ℤ, ◌*◌, ◌+◌, ◌-◌, ◌∷◌, ◌≢◌, ◌≤◌}
use beiran.Subpath.{Error, Result, Rule, corrupt, decimal, err, ext_str, index_error, int}
use beiran.Subpath.{int_list, int_or, key_rest, ok, out_of_fuel, parse_subpath, pop_bracket}
use beiran.Subpath.{range, range_rest, range_step, root, selector, selectors, signed, strip_left}
use beiran.Subpath.{value_error, ◌>>=◌}

Settled {ℓ} : {A : Type ℓ} → Result A → Type 0
Settled (ok a) = Unit
Settled (err e) = e ≢ out_of_fuel

-- The same, and at most `n` characters are left.
Leaves {ℓ} : {A : Type ℓ} → ℕ → Result (A × Text) → Type 0
Leaves n (ok (a, rest)) = length rest ≤ n
Leaves n (err e) = e ≢ out_of_fuel

module _ {ℓ} {A : Type ℓ} where
  Settled-ok : (a : A) → Settled (ok a)
  unfolding Settled
  Settled-ok a = tt

  Settled-if : (b : Bool) (r s : Result A) → Settled r → Settled s → Settled (if b then r else s)
  Settled-if true r s h k = h
  Settled-if false r s h k = k

  Leaves-if :
      (n : ℕ) (b : Bool) (r s : Result (A × Text))
      → Leaves n r
      → Leaves n s
      → Leaves n (if b then r else s)
  Leaves-if n true r s h k = h
  Leaves-if n false r s h k = k

module _ {ℓ κ} {A : Type ℓ} {B : Type κ} where
  Settled-bind :
      (m : Result A) (f : A → Result B) → Settled m → ((a : A) → Settled (f a)) → Settled (m >>= f)
  unfolding Settled
  Settled-bind (ok a) f h k = k a
  Settled-bind (err e) f h k = h

  Leaves-bind :
      (n : ℕ) (m : Result A) (f : A → Result (B × Text))
      → Settled m
      → ((a : A) → Leaves n (f a))
      → Leaves n (m >>= f)
  unfolding Settled Leaves
  Leaves-bind n (ok a) f h k = k a
  Leaves-bind n (err e) f h k = h

  -- What the first step leaves bounds what the second one may read.
  Leaves-bind_rest :
      (j n : ℕ) (m : Result (A × Text)) (f : A × Text → Result (B × Text))
      → Leaves j m
      → ((a : A) (rest : Text) → length rest ≤ j → Leaves n (f (a, rest)))
      → Leaves n (m >>= f)
  unfolding Leaves
  Leaves-bind_rest j n (ok (a, rest)) f h k = k a rest h
  Leaves-bind_rest j n (err e) f h k = h

  Settled-bind_rest :
      (j : ℕ) (m : Result (A × Text)) (f : A × Text → Result B)
      → Leaves j m
      → ((a : A) (rest : Text) → length rest ≤ j → Settled (f (a, rest)))
      → Settled (m >>= f)
  unfolding Leaves Settled
  Settled-bind_rest j (ok (a, rest)) f h k = k a rest h
  Settled-bind_rest j (err e) f h k = h

ruleset settled_rules = (Settled-ok, Settled-if, Settled-bind)

decimal-Settled : (n : ℕ) (seen : Bool) (s : Text) → Settled (decimal n seen s)
unfolding decimal Settled
decimal-Settled n true [] = tt
decimal-Settled n false [] = λ e. cc
decimal-Settled n seen (c ∷ s) =
    ground (arith, decimal-Settled (n * 10 + (c - b'0')) true s, decimal-Settled n false s)

Settled-err {ℓ} : (A : Type ℓ) (e : Error) → e ≢ out_of_fuel → Settled {A = A} (err e)
unfolding Settled
Settled-err A e h = h

signed-Settled : (s : Text) → Settled (signed s)
unfolding signed
signed-Settled [] = Settled-err ℤ value_error (λ e. cc)
signed-Settled (c ∷ s) = search (settled_rules, decimal-Settled)

int-Settled : (s : Text) → Settled (int s)
unfolding int
int-Settled s = signed-Settled (strip_left s)

int_or-Settled {ℓ} :
    {A : Type ℓ} (wrap : ℤ → A) (default : A) (s : Text) → Settled (int_or wrap default s)
unfolding int_or
int_or-Settled wrap default [] = Settled-ok default
int_or-Settled wrap default (c ∷ s) = search (settled_rules, int-Settled)

length-ext_str : (oend s : Text) → length (ext_str oend s).1 ≤ length s
unfolding ext_str
length-ext_str oend [] = omega arith
length-ext_str oend (c ∷ s) = ground (arith, length-ext_str oend s)

Leaves-ok {ℓ} :
    {A : Type ℓ} (n : ℕ) (a : A) (rest : Text) → length rest ≤ n → Leaves n (ok (a, rest))
unfolding Leaves
Leaves-ok n a rest h = h

Leaves-err {ℓ} : (A : Type ℓ) (n : ℕ) (e : Error) → e ≢ out_of_fuel → Leaves {A = A} n (err e)
unfolding Leaves
Leaves-err A n e h = h

int_list-Leaves : (fuel : ℕ) (s : Text) → length s ≤ fuel → Leaves (length s) (int_list fuel s)
unfolding int_list
int_list-Leaves fuel [] h = Leaves-err _ _ _ (λ e. cc)
int_list-Leaves zero (c ∷ s) h = absurd (omega arith)
int_list-Leaves (suc fuel) (c ∷ s) h =
    let rest = (ext_str (codes ",]") s).1 in
    let le = length-ext_str (codes ",]") s in
    let again = int_list-Leaves fuel rest (omega arith) in
    Leaves-if _ _ _ _ (Leaves-ok _ [] s (omega arith)) (
      Leaves-bind _ (int _) _ (int-Settled _) (λ n.
        Leaves-bind_rest (length rest) _ (int_list fuel rest) _ again
          (λ ns left short. Leaves-ok _ (n ∷ ns) left (omega arith))))

pop_bracket-Leaves : (n : ℕ) (r : Rule) (s : Text) → length s ≤ n → Leaves n (pop_bracket r s)
unfolding pop_bracket
pop_bracket-Leaves n r [] h = Leaves-err _ _ _ (λ e. cc)
pop_bracket-Leaves n r (c ∷ s) h = Leaves-ok n r s (omega arith)

range_step-Leaves :
    (n : ℕ) (start : ℤ) (end : Option ℤ) (s : Text)
    → length s ≤ n
    → Leaves n (range_step start end s)
unfolding range_step
range_step-Leaves n start end [] h = Leaves-err _ _ _ (λ e. cc)
range_step-Leaves n start end (c ∷ s) h =
    let le = length-ext_str (codes "]") s in
    Leaves-if n _ _ _
      (Leaves-bind n _ _ (int_or-Settled _ _ _)
        (λ by. pop_bracket-Leaves n (range start end by) _ (omega arith)))
      (Leaves-ok n _ s (omega arith))

range_rest-Leaves : (n : ℕ) (string s : Text) → length s ≤ n → Leaves n (range_rest string s)
unfolding range_rest
range_rest-Leaves n string [] h = Leaves-err _ _ _ (λ e. cc)
range_rest-Leaves n string (c ∷ s) h =
    let le = length-ext_str (codes ":]") s in
    Leaves-if n _ _ _
      (Leaves-bind n _ _ (int_or-Settled _ _ _) (λ start.
        Leaves-bind n _ _ (int_or-Settled _ _ _)
          (λ end. range_step-Leaves n start end _ (omega arith))))
      (Leaves-if n _ _ _
        (Leaves-bind n (int string) _ (int-Settled string) (λ m.
          Leaves-bind_rest (length (c ∷ s)) n (int_list (length (c ∷ s)) (c ∷ s)) _
            (int_list-Leaves (length (c ∷ s)) (c ∷ s) (omega arith))
            (λ ms left short. Leaves-ok n _ left (omega arith))))
        (Leaves-err _ n corrupt (λ e. cc)))

key_rest-Leaves : (s : Text) → Leaves (length s) (key_rest s)
unfolding key_rest
key_rest-Leaves [] = Leaves-err _ _ _ (λ e. cc)
key_rest-Leaves (c ∷ s) =
    let le = length-ext_str (codes ".[") (c ∷ s) in
    Leaves-if _ _ _ _ (Leaves-ok _ _ s (omega arith)) (Leaves-ok _ _ _ (omega arith))

selector-Leaves : (c : ℕ) (s : Text) → Leaves (length s) (selector c s)
unfolding selector
selector-Leaves c s =
    let le = length-ext_str (codes ":,") s in
    Leaves-if _ _ _ _ (key_rest-Leaves s) (
      Leaves-if _ _ _ _ (range_rest-Leaves (length s) _ _ (omega arith))
        (Leaves-err _ _ corrupt (λ e. cc)))

selectors-Settled : (fuel : ℕ) (s : Text) → length s ≤ fuel → Settled (selectors fuel s)
unfolding selectors
selectors-Settled fuel [] h = Settled-ok []
selectors-Settled zero (c ∷ s) h = absurd (omega arith)
selectors-Settled (suc fuel) (c ∷ s) h =
    Settled-bind_rest (length s) (selector c s) _ (selector-Leaves c s) (λ rule left short.
      Settled-bind (selectors fuel left) _ (selectors-Settled fuel left (omega arith))
        (λ rules. Settled-ok (rule ∷ rules)))

parse_subpath-Settled : (s : Text) → Settled (parse_subpath s)
unfolding parse_subpath
parse_subpath-Settled [] = Settled-err _ index_error (λ e. cc)
parse_subpath-Settled (c ∷ s) =
    Settled-if _ _ _
      (Settled-bind (selectors (length s) s) _ (selectors-Settled (length s) s (omega arith))
        (λ rules. Settled-ok (root ∷ rules)))
      (Settled-err _ corrupt (λ e. cc))

ne_of_Settled {ℓ} : {A : Type ℓ} (r : Result A) → Settled r → r ≢ err out_of_fuel
unfolding Settled
ne_of_Settled (ok a) h = λ e. cc
ne_of_Settled (err e) h = λ p. h (cc)

-- `parse_subpath` ends on every text: it gives a list of rules, or raises one of the errors of the
-- code, and never runs out of the fuel that stands for its loops.
pub parse_subpath-ends : (s : Text) → parse_subpath s ≢ err out_of_fuel
parse_subpath-ends s = ne_of_Settled (parse_subpath s) (parse_subpath-Settled s)
