-- ===== src/Url.antt =====
-- `urllib.parse.urlparse` of Python 3.6, as far as beiran/models/node.py reads its result, on ASCII
-- text: the scheme, the path, the fragment and the host of the address, and its port.
pub mod Parts
pub mod Parsed
use beiran.Base.{Bool, List, Option, Text, [], all_chars, codes, drop, has, if◌then◌else◌}
use beiran.Base.{is_digit, is_nil, join, last_or, leb, member, negsuc, none, not, pos, same, some}
use beiran.Base.{split, starts_with, ℕ, ℤ, ◌&&◌, ◌++◌, ◌+◌, ◌==◌, ◌||◌, ◌∷◌}
use beiran.Subpath.{Result, err, int, ok}

-- `s.partition(c)`, without the separator
unfoldable pub partition : ℕ → Text → Text × Text
partition c [] = ([], [])
partition c (d ∷ s) =
    let (before_c, after_c) = partition c s in if d == c then ([], s) else (d ∷ before_c, after_c)

-- `s.rpartition(c)[2]`
unfoldable pub after_last : ℕ → Text → Text
after_last c s = last_or [] (split c s)

-- `_splitnetloc`: the text up to one of the delimiters `/?#`, and the rest with it.
unfoldable pub split_netloc : Text → Text × Text
split_netloc [] = ([], [])
split_netloc (c ∷ s) =
    let (netloc, rest) = split_netloc s in
    if has c (codes "/?#") then ([], c ∷ s) else (c ∷ netloc, rest)

unfoldable pub is_lower : ℕ → Bool
is_lower c = leb b'a' c && leb c b'z'

unfoldable pub is_upper : ℕ → Bool
is_upper c = leb b'A' c && leb c b'Z'

-- `scheme_chars`
unfoldable pub is_scheme_char : ℕ → Bool
is_scheme_char c = is_lower c || is_upper c || is_digit c || has c (codes "+-.")

-- `str.lower` on ASCII text
unfoldable pub lower : Text → Text
lower [] = []
lower (c ∷ s) = (if is_upper c then c + 32 else c) ∷ lower s

-- What stands before the first colon is the scheme if it has the characters of one; digits alone behind
-- it would be a port.
split_scheme : Text → Text × Text
split_scheme url =
    let (name, rest) = partition b':' url in
    if has b':' url
      && not (is_nil name)
      && all_chars is_scheme_char name
      && (is_nil rest || not (all_chars is_digit rest))
    then (lower name, rest)
    else ([], url)

split_slashes : Text → Text × Text
split_slashes url = if starts_with url (codes "//") then split_netloc (drop 2 url) else ([], url)

-- `uses_params`, as the schemes stand there
abbrev uses_params : List Text
uses_params =
    []
    ∷ codes "ftp"
    ∷ codes "hdl"
    ∷ codes "prospero"
    ∷ codes "http"
    ∷ codes "imap"
    ∷ codes "https"
    ∷ codes "shttp"
    ∷ codes "rtsp"
    ∷ codes "rtspu"
    ∷ codes "sip"
    ∷ codes "sips"
    ∷ codes "mms"
    ∷ codes "sftp"
    ∷ codes "tel"
    ∷ []

-- `_splitparams`: the last component of the path is cut at a semicolon.
cut_last : List Text → List Text
cut_last [] = []
cut_last (w ∷ []) = (partition b';' w).0 ∷ []
cut_last (w ∷ v ∷ ws) = w ∷ cut_last (v ∷ ws)

cut_params : Text → Text → Text
cut_params scheme path =
    if member scheme uses_params then join (b'/' ∷ []) (cut_last (split b'/' path)) else path

pub record ParseResult : Type 0 where
  pub scheme : Text
  pub netloc : Text
  pub path : Text
  pub fragment : Text

-- `none` is the ValueError of an unbalanced bracket.
unfoldable pub urlparse : Text → Option ParseResult
unfolding partition split_netloc all_chars is_lower is_upper is_scheme_char lower split_scheme
    split_slashes cut_last cut_params has split starts_with member same
urlparse url =
    let (scheme, rest) = split_scheme url in
    let (netloc, tail) = split_slashes rest in
    let (before_fragment, fragment) = partition b'#' tail in
    if (has b'[' netloc && not (has b']' netloc)) || (has b']' netloc && not (has b'[' netloc))
    then none
    else some (record {
      scheme = scheme;
      netloc = netloc;
      path = cut_params scheme (partition b'?' before_fragment).0;
      fragment = fragment;
    })

-- `_hostinfo`: the host and the port, as text
host_info : Text → Text × Text
host_info netloc =
    let address = after_last b'@' netloc in
    if has b'[' address
    then (
      (partition b']' (partition b'[' address).1).0,
      (partition b':' (partition b']' (partition b'[' address).1).1).1,
    )
    else partition b':' address

-- The zone of an IPv6 address stays as it is.
lower_host : Text → Text
lower_host host =
    let (name, zone) = partition b'%' host in
    if has b'%' host then lower name ++ (b'%' ∷ zone) else lower host

unfoldable pub url_hostname : ParseResult → Option Text
unfolding partition after_last has split is_upper lower host_info lower_host
url_hostname u =
    let host = (host_info u.netloc).0 in if is_nil host then none else some (lower_host host)

in_range : Result ℤ → Option (Option ℕ)
in_range (ok (pos n)) = if leb n 65535 then some (some n) else none
in_range (ok (negsuc n)) = none
in_range (err e) = none

-- `none` is the ValueError of what is not a number, or not one of a port.
unfoldable pub url_port : ParseResult → Option (Option ℕ)
unfolding partition after_last has split host_info in_range
url_port u =
    let digits = (host_info u.netloc).1 in
    if is_nil digits then some none else in_range (int digits)
