-- ===== src/Address/Sockets.antt =====
-- parse_address undoes build_node_address for a socket.
use beiran.Address.{Location, address_format, build_node_address, format, is_unix, of_port}
use beiran.Address.{of_url, parse_address, port_str, protocol_of, protocol_or_http, transport_of}
use beiran.Address.{unix_socket_str}
use beiran.Address.RoundTrip.{IsName, build-suffix, fragment_of, front, front-Free, front-append}
use beiran.Address.RoundTrip.{name-scheme, partition-suffix, suffix}
use beiran.Base.{Free, Free-append, Option, Text, [], all_chars, all_chars-append, ap}
use beiran.Base.{append_assoc, codes, has, if◌then◌else◌, none, refl, same, some, split}
use beiran.Base.{split-append, sym, true, ◌++◌, ◌+◌, ◌∙◌, ◌∷◌, ◌≡◌}
use beiran.Url.{ParseResult, after_last, is_lower, is_scheme_char, is_upper, lower, partition}
use beiran.Url.{split_netloc, url_hostname, url_port, urlparse}
use beiran.Url.Parsed.{name-Free, scheme_of, urlparse-cut}
use beiran.Url.Parts.{is_name_char, lower-name, partition-Free}

abbrev pub socket_location : Option Text → Text → Location
socket_location protocol path = record {
  host = none;
  path = some path;
  port = none;
  protocol = protocol;
  socket = true;
}

abbrev socket_scheme : Text → Text
socket_scheme w = w ++ codes "+unix"

lower-append : (s t : Text) → lower (s ++ t) ≡ lower s ++ lower t
unfolding lower
lower-append [] t = refl
lower-append (c ∷ s) t = ap (λ r. (if is_upper c then c + 32 else c) ∷ r) (lower-append s t)

socket_scheme-lower :
    (w : Text) → all_chars is_name_char w ≡ true → lower (socket_scheme w) ≡ socket_scheme w
socket_scheme-lower w h =
    rw (lower-append w (codes "+unix"), lower-name w h) (unfold lower is_upper in refl)

socket_scheme-chars :
    (w : Text) → all_chars is_name_char w ≡ true → all_chars is_scheme_char (socket_scheme w) ≡ true
socket_scheme-chars w h =
    all_chars-append is_scheme_char w (codes "+unix") (name-scheme w h)
      (unfold all_chars is_scheme_char is_lower is_upper has in refl)

socket_scheme-no_hash :
    (w : Text) → all_chars is_name_char w ≡ true → Free b'#' (scheme_of (socket_scheme w))
unfolding has
socket_scheme-no_hash w h = Free-append b'#' w (codes "+unix") (name-Free b'#' w refl h) refl

build-socket :
    (protocol uuid : Option Text) (path : Text)
    → all_chars is_name_char (protocol_or_http protocol) ≡ true
    → Free b'#' path
    → build_node_address (socket_location protocol path) uuid
      ≡ front (socket_scheme (protocol_or_http protocol)) path ++ suffix uuid
unfolding address_format unix_socket_str port_str format
build-socket protocol uuid path h k =
    build-suffix (socket_location protocol path) uuid (socket_scheme (protocol_or_http protocol))
      path
      (ap (λ r. codes "beiran+" ++ r)
          (sym (
            append_assoc (protocol_or_http protocol) (codes "+unix")
              (codes "://" ++ (path ++ (b'#' ∷ format uuid)))))
        ∙ sym (front-append (socket_scheme (protocol_or_http protocol)) path (b'#' ∷ format uuid)))
      (front-Free b'#' (socket_scheme (protocol_or_http protocol)) path
        (socket_scheme-no_hash (protocol_or_http protocol) h) (unfold has in k))

abbrev socket_url : Text → Text → Text → ParseResult
socket_url w path fragment = record {
  scheme = scheme_of (socket_scheme w);
  netloc = [];
  path = path;
  fragment = fragment;
}

split-socket_scheme :
    (w : Text)
    → Free b'+' w
    → split b'+' (scheme_of (socket_scheme w)) ≡ codes "beiran" ∷ w ∷ codes "unix" ∷ []
unfolding split
split-socket_scheme w h = rw (split-append b'+' w (codes "unix") h) refl

parse-socket :
    (w path fragment : Text)
    → all_chars is_name_char w ≡ true
    → of_url (some (socket_url w path fragment))
      ≡ some (record {
        transport = transport_of w;
        protocol = w;
        hostname = none;
        path = path;
        port = none;
        fragment = fragment;
        unix_socket = true;
      })
unfolding of_url of_port protocol_of is_unix url_port url_hostname after_last split partition has
    same
parse-socket w path fragment h = rw (split-socket_scheme w (name-Free b'+' w refl h)) refl

-- The parts of the address of a socket at an absolute path, without a question mark or a hash, are
-- those that it was built from, with http as the protocol where none is given.
parse_address-build_node_address_socket :
    (protocol uuid : Option Text) (path : Text)
    → IsName (protocol_or_http protocol)
    → Free b'?' (b'/' ∷ path)
    → Free b'#' (b'/' ∷ path)
    → parse_address (build_node_address (socket_location protocol (b'/' ∷ path)) uuid)
      ≡ some (record {
        transport = transport_of (protocol_or_http protocol);
        protocol = protocol_or_http protocol;
        hostname = none;
        path = b'/' ∷ path;
        port = none;
        fragment = fragment_of uuid;
        unix_socket = true;
      })
unfolding parse_address
parse_address-build_node_address_socket protocol uuid path p h k =
    rw
      (
        build-socket protocol uuid (b'/' ∷ path) p.1 k,
        front-append (socket_scheme (protocol_or_http protocol)) (b'/' ∷ path) (suffix uuid),
        parsed,
      )
      (parse-socket (protocol_or_http protocol) (b'/' ∷ path) (fragment_of uuid) p.1)
  where
    parsed :
        urlparse (
          scheme_of (socket_scheme (protocol_or_http protocol))
          ++ (b':' ∷ b'/' ∷ b'/' ∷ ((b'/' ∷ path) ++ suffix uuid)))
        ≡ some (socket_url (protocol_or_http protocol) (b'/' ∷ path) (fragment_of uuid))
    parsed =
        urlparse-cut (socket_scheme (protocol_or_http protocol)) ((b'/' ∷ path) ++ suffix uuid) []
          ((b'/' ∷ path) ++ suffix uuid) (b'/' ∷ path) (fragment_of uuid) (b'/' ∷ path) []
          (socket_scheme-chars (protocol_or_http protocol) p.1)
          (socket_scheme-lower (protocol_or_http protocol) p.1) (unfold split_netloc has in refl)
          (unfold has in refl) (unfold has in refl) (partition-suffix (b'/' ∷ path) uuid k)
          (partition-Free b'?' (b'/' ∷ path) h)
