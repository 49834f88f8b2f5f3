-- ===== src/Subpath.antt =====
-- `parse_subpath` of beiran/util.py, and `int` as far as it is called there (on ASCII text).
pub mod Fuel
pub mod Printed
mod Tests
use beiran.Base.{Bool, List, Option, Text, [], codes, false, has, if◌then◌else◌, leb, leb_ℤ}
use beiran.Base.{length, negate, none, pos, some, suc, true, zero, ℕ, ℤ, ◌&&◌, ◌*◌, ◌+◌, ◌-◌}
use beiran.Base.{◌==◌, ◌||◌, ◌∷◌}
use beiran.Nodes.{found}

pub data Error : Type 0 where
  corrupt index_error value_error type_error zero_division parser_error out_of_fuel : Error

pub data Result {ℓ} (A : Type ℓ) : Type ℓ where
  ok : A → Result A
  err : Error → Result A

infixl 5 ◌>>=◌
abbrev pub ◌>>=◌ {ℓ κ} : {A : Type ℓ} {B : Type κ} → Result A → (A → Result B) → Result B
ok a >>= f = f a
err e >>= f = err e

-- The dictionaries of `_helper`: `key none` is `.*`, and `choice` a range given as a list.
pub data Rule : Type 0 where
  root : Rule
  key : Option Text → Rule
  range : ℤ → Option ℤ → ℤ → Rule
  choice : List ℤ → Rule

unfoldable pub is_space : ℕ → Bool
is_space c = c == 32 || (leb 9 c && leb c 13) || (leb 28 c && leb c 31)

all_space : Text → Bool
all_space [] = true
all_space (c ∷ s) = is_space c && all_space s

is_decimal : ℕ → Bool
is_decimal c = leb b'0' c && leb c b'9'

unfoldable pub strip_left : Text → Text
unfolding is_space
strip_left [] = []
strip_left (c ∷ s) = let rest = strip_left s in if is_space c then rest else c ∷ s

-- The digits of an `int`, single underscores between them; the flag says that a digit came last.
decimal : ℕ → Bool → Text → Result ℕ
decimal n seen [] = if seen then ok n else err value_error
decimal n seen (c ∷ s) =
    let digit = decimal (n * 10 + (c - b'0')) true s in
    let underscore = decimal n false s in
    if is_decimal c
    then digit
    else if c == b'_' && seen
    then underscore
    else if seen && all_space (c ∷ s)
    then ok n
    else err value_error

signed : Text → Result ℤ
signed [] = err value_error
signed (c ∷ s) =
    if c == b'-'
    then (decimal 0 false s >>= λ n. ok (negate n))
    else if c == b'+'
    then (decimal 0 false s >>= λ n. ok (pos n))
    else (decimal 0 false (c ∷ s) >>= λ n. ok (pos n))

unfoldable pub int : Text → Result ℤ
unfolding is_space all_space is_decimal strip_left decimal signed negate
int s = signed (strip_left s)

-- `int(string) if string else default`
int_or {ℓ} : {A : Type ℓ} → (ℤ → A) → A → Text → Result A
int_or wrap default [] = ok default
int_or wrap default (c ∷ s) = int (c ∷ s) >>= λ n. ok (wrap n)

-- `_ext_str`: the characters up to one of `oend`, and what is left of `olist`.
ext_str : Text → Text → Text × Text
ext_str oend [] = ([], [])
ext_str oend (c ∷ olist) =
    let (ostr, rest) = ext_str oend olist in
    if has c oend then ([], c ∷ olist) else (c ∷ ostr, rest)

insert_sorted : ℤ → List ℤ → List ℤ
insert_sorted a [] = a ∷ []
insert_sorted a (b ∷ bs) = if leb_ℤ a b then a ∷ b ∷ bs else b ∷ insert_sorted a bs

unfoldable pub sorted : List ℤ → List ℤ
unfolding insert_sorted leb_ℤ
sorted [] = []
sorted (a ∷ bs) = insert_sorted a (sorted bs)

-- `while chars.pop(0) != ']'`: what the loop appends to `tlist`, and the characters left.
int_list : ℕ → Text → Result (List ℤ × Text)
int_list fuel [] = err index_error
int_list zero (c ∷ chars) = err out_of_fuel
int_list (suc fuel) (c ∷ chars) =
    let (string, rest) = ext_str (codes ",]") chars in
    let more = int string >>= λ n. int_list fuel rest >>= λ found. ok (n ∷ found.0, found.1) in
    if c == b']' then ok ([], chars) else more

-- `chars.pop(0)` of the closing bracket, whatever character stands there.
pop_bracket : Rule → Text → Result (Rule × Text)
pop_bracket rule [] = err index_error
pop_bracket rule (c ∷ rest) = ok (rule, rest)

-- From the character behind the end of a range: a colon and a step, or (whatever it is) none.
range_step : ℤ → Option ℤ → Text → Result (Rule × Text)
range_step start end [] = err index_error
range_step start end (c ∷ chars) =
    if c == b':'
    then (let (string, rest) = ext_str (codes "]") chars in
        int_or (λ n. n) (pos 1) string >>= λ by. pop_bracket (range start end by) rest)
    else ok (range start end (pos 1), chars)

-- From the character behind the first number of a range.
range_rest : Text → Text → Result (Rule × Text)
range_rest string [] = err index_error
range_rest string (c ∷ chars) =
    if c == b':'
    then (int_or (λ n. n) (pos 0) string >>= λ start.
        let (string, rest) = ext_str (codes ":]") chars in
        int_or some none string >>= λ end. range_step start end rest)
    else if c == b','
    then (int string >>= λ n. int_list (length (c ∷ chars)) (c ∷ chars) >>= λ more.
        ok (choice (sorted (n ∷ more.0)), more.1))
    else err corrupt

-- `chars[0]` is read before it is known to be there.
key_rest : Text → Result (Rule × Text)
key_rest [] = err index_error
key_rest (c ∷ chars) =
    if c == b'*'
    then ok (key none, chars)
    else (let (name, rest) = ext_str (codes ".[") (c ∷ chars) in ok (key (some name), rest))

-- The body of the loop, behind `char = chars.pop(0)`.
selector : ℕ → Text → Result (Rule × Text)
selector char chars =
    if char == b'.'
    then key_rest chars
    else if char == b'['
    then (let (string, rest) = ext_str (codes ":,") chars in range_rest string rest)
    else err corrupt

selectors : ℕ → Text → Result (List Rule)
selectors fuel [] = ok []
selectors zero (char ∷ chars) = err out_of_fuel
selectors (suc fuel) (char ∷ chars) =
    selector char chars >>= λ found. selectors fuel found.1 >>= λ rules. ok (found.0 ∷ rules)

-- Every round of the loop takes a character, so the length of the text is fuel enough.
unfoldable pub parse_subpath : Text → Result (List Rule)
unfolding int int_or ext_str sorted int_list pop_bracket range_step range_rest key_rest selector
    selectors
parse_subpath [] = err index_error
parse_subpath (c ∷ chars) =
    if c == b'$'
    then (selectors (length chars) chars >>= λ rules. ok (root ∷ rules))
    else err corrupt
