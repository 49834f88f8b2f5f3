-- ===== src/Address/RoundTrip.antt =====
-- parse_address undoes build_node_address.
use beiran.Address.{Location, address_format, build_node_address, format, is_given, is_unix}
use beiran.Address.{of_port, of_url, parse_address, port_or_default, port_str, protocol_of}
use beiran.Address.{protocol_or_http, transport_of, unix_socket_str}
use beiran.Base.{Free, Free-append, Option, Text, [], all_chars, ap, append-nil, append_assoc}
use beiran.Base.{arith, codes, false, has, is_nil, none, refl, some, split, split-Free, str, sym}
use beiran.Base.{true, ℕ, ◌++◌, ◌∙◌, ◌∷◌, ◌≡◌, ◌≤◌}
use beiran.Url.{ParseResult, is_scheme_char, partition, split_netloc, urlparse}
use beiran.Url.Parsed.{name-Free, netloc-Free, netloc-net, netloc_of, scheme_of}
use beiran.Url.Parsed.{url_hostname-name, url_port-number, urlparse-cut}
use beiran.Url.Parts.{all_chars-imp, is_name_char, is_net_char, lower-name, partition-Free}
use beiran.Url.Parts.{partition-append, split_netloc-all, split_netloc-append}

abbrev pub net_location : Option Text → Text → Option Text → Option ℕ → Location
net_location protocol host path port = record {
  host = some host;
  path = path;
  port = port;
  protocol = protocol;
  socket = false;
}

-- A nonempty text of lower-case letters, digits, dots and dashes.
abbrev pub IsName : Text → Type 0
IsName s = (is_nil s ≡ false) × (all_chars is_name_char s ≡ true)

-- The uuid as it stands in the address, if it stands there.
abbrev pub fragment_of : Option Text → Text
fragment_of none = []
fragment_of (some u) = u

unfoldable pub suffix : Option Text → Text
suffix none = []
suffix (some []) = []
suffix (some (c ∷ u)) = b'#' ∷ c ∷ u

pub partition-suffix :
    (w : Text) (uuid : Option Text)
    → Free b'#' w
    → partition b'#' (w ++ suffix uuid) ≡ (w, fragment_of uuid)
unfolding suffix
partition-suffix w none h = rw (append-nil w) (partition-Free b'#' w h)
partition-suffix w (some []) h = rw (append-nil w) (partition-Free b'#' w h)
partition-suffix w (some (c ∷ u)) h = partition-append b'#' w (c ∷ u) h

pub split_netloc-suffix :
    (w : Text) (uuid : Option Text)
    → all_chars is_net_char w ≡ true
    → split_netloc (w ++ suffix uuid) ≡ (w, suffix uuid)
unfolding suffix
split_netloc-suffix w none h = rw (append-nil w) (split_netloc-all w h)
split_netloc-suffix w (some []) h = rw (append-nil w) (split_netloc-all w h)
split_netloc-suffix w (some (c ∷ u)) h = split_netloc-append b'#' w (c ∷ u) (unfold has in refl) h

-- The address up to the uuid.
unfoldable pub front : Text → Text → Text
front w rest = scheme_of w ++ (b':' ∷ b'/' ∷ b'/' ∷ rest)

pub build-suffix :
    (l : Location) (uuid : Option Text) (w rest : Text)
    → address_format l uuid ≡ front w rest ++ (b'#' ∷ format uuid)
    → Free b'#' (front w rest)
    → build_node_address l uuid ≡ front w rest ++ suffix uuid
unfolding build_node_address is_given suffix format
build-suffix l none w rest e h =
    rw (e, partition-append b'#' (front w rest) (codes "None") h, append-nil (front w rest)) refl
build-suffix l (some []) w rest e h =
    rw (e, partition-append b'#' (front w rest) [] h, append-nil (front w rest)) refl
build-suffix l (some (c ∷ u)) w rest e h = e

pub front-Free :
    (c : ℕ) (w rest : Text)
    → Free c (scheme_of w)
    → Free c (b':' ∷ b'/' ∷ b'/' ∷ rest)
    → Free c (front w rest)
unfolding front
front-Free c w rest h k = Free-append c (scheme_of w) (b':' ∷ b'/' ∷ b'/' ∷ rest) h k

pub front-append :
    (w rest t : Text) → front w rest ++ t ≡ scheme_of w ++ (b':' ∷ b'/' ∷ b'/' ∷ (rest ++ t))
unfolding front
front-append w rest t = append_assoc (scheme_of w) (b':' ∷ b'/' ∷ b'/' ∷ rest) t

pub scheme-no_hash : (w : Text) → all_chars is_name_char w ≡ true → Free b'#' (scheme_of w)
unfolding has
scheme-no_hash w h = name-Free b'#' w refl h

pub name-scheme : (w : Text) → all_chars is_name_char w ≡ true → all_chars is_scheme_char w ≡ true
unfolding is_name_char is_scheme_char has
name-scheme w h = all_chars-imp is_name_char is_scheme_char w (λ c k. ground arith) h

pub net_front-no_hash :
    (w host : Text) (n : ℕ)
    → all_chars is_name_char w ≡ true
    → all_chars is_name_char host ≡ true
    → Free b'#' (front w (netloc_of host n))
net_front-no_hash w host n h k =
    front-Free b'#' w (netloc_of host n) (scheme-no_hash w h)
      (unfold has in netloc-Free b'#' host n refl k)

pub build-net :
    (protocol uuid path : Option Text) (host : Text) (port : Option ℕ)
    → all_chars is_name_char (protocol_or_http protocol) ≡ true
    → all_chars is_name_char host ≡ true
    → build_node_address (net_location protocol host path port) uuid
      ≡ front (protocol_or_http protocol) (netloc_of host (port_or_default port)) ++ suffix uuid
unfolding address_format unix_socket_str port_str format
build-net protocol uuid path host port h k =
    build-suffix (net_location protocol host path port) uuid (protocol_or_http protocol)
      (netloc_of host (port_or_default port))
      (ap (λ r. scheme_of (protocol_or_http protocol) ++ (b':' ∷ b'/' ∷ b'/' ∷ r))
          (sym (append_assoc host (b':' ∷ str (port_or_default port)) (b'#' ∷ format uuid)))
        ∙ sym (
            front-append (protocol_or_http protocol) (netloc_of host (port_or_default port))
              (b'#' ∷ format uuid)))
      (net_front-no_hash (protocol_or_http protocol) host (port_or_default port) h k)

abbrev net_url : Text → Text → ℕ → Text → ParseResult
net_url w host n fragment = record {
  scheme = scheme_of w;
  netloc = netloc_of host n;
  path = [];
  fragment = fragment;
}

split-scheme_of : (w : Text) → Free b'+' w → split b'+' (scheme_of w) ≡ codes "beiran" ∷ w ∷ []
unfolding split
split-scheme_of w h = rw (split-Free b'+' w h) refl

parse-net :
    (w host : Text) (n : ℕ) (fragment : Text)
    → IsName w
    → IsName host
    → n ≤ 65535
    → of_url (some (net_url w host n fragment))
      ≡ some (record {
        transport = transport_of w;
        protocol = w;
        hostname = some host;
        path = [];
        port = some n;
        fragment = fragment;
        unix_socket = false;
      })
unfolding of_url of_port protocol_of is_unix
parse-net w [] n fragment p h small = absurd cc
parse-net w (c ∷ host) n fragment p h small =
    rw
      (
        url_port-number (net_url w (c ∷ host) n fragment) (c ∷ host) n h.1 small refl,
        url_hostname-name (net_url w (c ∷ host) n fragment) c host n h.1 refl,
        split-scheme_of w (name-Free b'+' w (unfold has in refl) p.1),
      )
      refl

-- The parts of an address without a socket are those that it was built from, with http and 8888 as
-- the protocol and the port where none is given, except for the path, which is read back as empty. The
-- protocol and the host are texts of lower-case letters, digits, dots and dashes, not empty, and the
-- port is at most 65535.
pub parse_address-build_node_address :
    (protocol uuid path : Option Text) (host : Text) (port : Option ℕ)
    → IsName (protocol_or_http protocol)
    → IsName host
    → port_or_default port ≤ 65535
    → parse_address (build_node_address (net_location protocol host path port) uuid)
      ≡ some (record {
        transport = transport_of (protocol_or_http protocol);
        protocol = protocol_or_http protocol;
        hostname = some host;
        path = [];
        port = some (port_or_default port);
        fragment = fragment_of uuid;
        unix_socket = false;
      })
unfolding parse_address
parse_address-build_node_address protocol uuid path host port p h small =
    rw
      (
        build-net protocol uuid path host port p.1 h.1,
        front-append (protocol_or_http protocol) (netloc_of host (port_or_default port))
            (suffix uuid),
        parsed,
      )
      (parse-net (protocol_or_http protocol) host (port_or_default port) (fragment_of uuid) p h
        small)
  where
    parsed :
        urlparse (
          scheme_of (protocol_or_http protocol)
          ++ (b':' ∷ b'/' ∷ b'/' ∷ (netloc_of host (port_or_default port) ++ suffix uuid)))
        ≡ some (net_url (protocol_or_http protocol) host (port_or_default port) (fragment_of uuid))
    parsed =
        urlparse-cut (protocol_or_http protocol)
          (netloc_of host (port_or_default port) ++ suffix uuid)
          (netloc_of host (port_or_default port)) (suffix uuid) [] (fragment_of uuid) [] []
          (name-scheme (protocol_or_http protocol) p.1) (lower-name (protocol_or_http protocol) p.1)
          (split_netloc-suffix (netloc_of host (port_or_default port)) uuid
            (netloc-net host (port_or_default port) h.1))
          (netloc-Free b'[' host (port_or_default port) (unfold has in refl) h.1)
          (netloc-Free b']' host (port_or_default port) (unfold has in refl) h.1)
          (partition-suffix [] uuid (unfold has in refl)) (unfold partition in refl)
