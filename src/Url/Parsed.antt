-- ===== src/Url/Parsed.antt =====
-- urlparse on an address with a scheme, and the host and port of a network location.
use beiran.Base.{Bool, Free, Text, all_chars, all_chars-append, all_chars-str, ap, arith, codes}
use beiran.Base.{has, has-append, is_digit, leb, member, refl, same, some, starts_with, str, true}
use beiran.Base.{ℕ, ◌++◌, ◌==◌, ◌||◌, ◌∷◌, ◌≡◌, ◌≤◌}
use beiran.Subpath.Printed.{int-str, is_nil-str}
use beiran.Url.{ParseResult, cut_params, host_info, in_range, is_lower, is_scheme_char, is_upper}
use beiran.Url.{lower, lower_host, partition, split_netloc, split_scheme, split_slashes}
use beiran.Url.{url_hostname, url_port, urlparse}
use beiran.Url.Parts.{after_last-Free, all_chars-Free, all_chars-imp, is_name_char, is_net_char}
use beiran.Url.Parts.{lower-name, partition-append}

abbrev pub scheme_of : Text → Text
scheme_of w = codes "beiran+" ++ w

scheme-char : (c : ℕ) → is_name_char c ≡ true → is_scheme_char c ≡ true
unfolding is_name_char is_scheme_char has
scheme-char c h = ground arith

is_scheme :
    (w : Text) → all_chars is_scheme_char w ≡ true → all_chars is_scheme_char (scheme_of w) ≡ true
unfolding is_scheme_char all_chars is_lower is_upper has
is_scheme w h = h

lower_scheme : (w : Text) → lower w ≡ w → lower (scheme_of w) ≡ scheme_of w
unfolding lower is_upper
lower_scheme w h = ap scheme_of h

split_scheme-append :
    (w rest : Text)
    → all_chars is_scheme_char w ≡ true
    → lower w ≡ w
    → split_scheme (scheme_of w ++ (b':' ∷ b'/' ∷ rest)) ≡ (scheme_of w, b'/' ∷ rest)
unfolding split_scheme
split_scheme-append w rest h l =
    let free : Free b':' (scheme_of w) =
      all_chars-Free is_scheme_char b':' (scheme_of w)
        (unfold is_scheme_char is_lower is_upper has in refl) (is_scheme w h) in
    rw
      (
        partition-append b':' (scheme_of w) (b'/' ∷ rest) free,
        is_scheme w h,
        lower_scheme w l,
        has-append,
        free,
      )
      (unfold all_chars has in refl)

no_params : (w path : Text) → cut_params (scheme_of w) path ≡ path
unfolding cut_params member same
no_params w path = refl

-- The parts of an address that begins with a scheme and two slashes.
pub urlparse-cut :
    (w rest netloc tail before_fragment fragment path query : Text)
    → all_chars is_scheme_char w ≡ true
    → lower w ≡ w
    → split_netloc rest ≡ (netloc, tail)
    → Free b'[' netloc
    → Free b']' netloc
    → partition b'#' tail ≡ (before_fragment, fragment)
    → partition b'?' before_fragment ≡ (path, query)
    → urlparse (scheme_of w ++ (b':' ∷ b'/' ∷ b'/' ∷ rest))
      ≡ some (record { scheme = scheme_of w; netloc = netloc; path = path; fragment = fragment })
unfolding urlparse split_slashes starts_with
urlparse-cut w rest netloc tail before_fragment fragment path query h l n left right f q =
    rw (split_scheme-append w (b'/' ∷ rest) h l, n, left, right, f, q, no_params w path) refl

-- A character of a host and a port.
is_netloc_char : ℕ → Bool
is_netloc_char c = is_name_char c || c == b':'

abbrev pub netloc_of : Text → ℕ → Text
netloc_of name n = name ++ (b':' ∷ str n)

netloc-chars :
    (name : Text) (n : ℕ)
    → all_chars is_name_char name ≡ true
    → all_chars is_netloc_char (netloc_of name n) ≡ true
unfolding is_netloc_char is_name_char is_lower has all_chars
netloc-chars name n h =
    all_chars-append is_netloc_char name (b':' ∷ str n)
      (all_chars-imp is_name_char is_netloc_char name (λ c k. ground arith) h)
      (all_chars-imp is_digit is_netloc_char (str n) (λ c k. unfold is_name_char in ground arith)
        (all_chars-str n))

-- None of the delimiters stands in a network location.
pub netloc-Free :
    (c : ℕ) (name : Text) (n : ℕ)
    → has c (codes "[]@/?#%") ≡ true
    → all_chars is_name_char name ≡ true
    → Free c (netloc_of name n)
unfolding is_netloc_char is_name_char has is_lower
netloc-Free c name n k h =
    all_chars-Free is_netloc_char c (netloc_of name n) (ground arith) (netloc-chars name n h)

pub netloc-net :
    (name : Text) (n : ℕ)
    → all_chars is_name_char name ≡ true
    → all_chars is_net_char (netloc_of name n) ≡ true
unfolding is_netloc_char is_name_char has is_lower is_net_char
netloc-net name n h =
    all_chars-imp is_netloc_char is_net_char (netloc_of name n) (λ c k. ground arith)
      (netloc-chars name n h)

pub name-Free :
    (c : ℕ) (name : Text)
    → has c (codes "[]@/?#%:+") ≡ true
    → all_chars is_name_char name ≡ true
    → Free c name
unfolding is_name_char has is_lower
name-Free c name k h = all_chars-Free is_name_char c name (ground arith) h

host_info-append :
    (name : Text) (n : ℕ)
    → all_chars is_name_char name ≡ true
    → host_info (netloc_of name n) ≡ (name, str n)
unfolding host_info
host_info-append name n h =
    rw
      (
        after_last-Free b'@' (netloc_of name n) (netloc-Free b'@' name n (unfold has in refl) h),
        netloc-Free b'[' name n (unfold has in refl) h,
      )
      (partition-append b':' name (str n) (name-Free b':' name (unfold has in refl) h))

pub url_hostname-name :
    (u : ParseResult) (c : ℕ) (name : Text) (n : ℕ)
    → all_chars is_name_char (c ∷ name) ≡ true
    → u.netloc ≡ netloc_of (c ∷ name) n
    → url_hostname u ≡ some (c ∷ name)
unfolding url_hostname lower_host
url_hostname-name u c name n h e =
    rw
      (
        e,
        host_info-append (c ∷ name) n h,
        name-Free b'%' (c ∷ name) (unfold has in refl) h,
        lower-name (c ∷ name) h,
      )
      refl

pub url_port-number :
    (u : ParseResult) (name : Text) (n : ℕ)
    → all_chars is_name_char name ≡ true
    → n ≤ 65535
    → u.netloc ≡ netloc_of name n
    → url_port u ≡ some (some n)
unfolding url_port in_range
url_port-number u name n h small e =
    let fits : leb n 65535 ≡ true = ground arith in
    rw (e, host_info-append name n h, is_nil-str n, int-str n, fits) refl
