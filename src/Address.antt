-- ===== src/Address.antt =====
-- The addresses of peers, `PeerAddress` of beiran/models/node.py: how one is built from its parts or
-- from another address, parsed and validated. Text is ASCII; a UUID is its `hex`. The columns that a
-- row of the database has besides stand in Rows.
pub mod RoundTrip
pub mod Stable
pub mod Sockets
pub mod Rows
mod Tests
use beiran.Base.{Bool, List, Option, Text, [], all_chars, codes, false, has, if◌then◌else◌}
use beiran.Base.{is_digit, is_nil, join, leb, length, member, none, not, same, some, split}
use beiran.Base.{split_text, starts_with, str, suc, zero, ℕ, ◌&&◌, ◌++◌, ◌==◌, ◌||◌, ◌∷◌}
use beiran.Url.{ParseResult, lower, partition, url_hostname, url_port, urlparse}

-- `'{}'.format`
unfoldable pub format : Option Text → Text
format none = codes "None"
format (some s) = s

abbrev pub default_port : ℕ
default_port = 8888

-- `port or 8888`
unfoldable pub port_or_default : Option ℕ → ℕ
port_or_default none = default_port
port_or_default (some zero) = default_port
port_or_default (some (suc n)) = suc n

-- `protocol or 'http'`
unfoldable pub protocol_or_http : Option Text → Text
protocol_or_http none = codes "http"
protocol_or_http (some []) = codes "http"
protocol_or_http (some (c ∷ s)) = c ∷ s

unfoldable pub is_given : Option Text → Bool
is_given none = false
is_given (some s) = not (is_nil s)

unix_socket_str : Bool → Text
unix_socket_str socket = if socket then codes "+unix" else []

port_str : Option ℕ → Bool → Text
port_str port socket = if socket then [] else b':' ∷ str (port_or_default port)

pub record Location : Type 0 where
  pub host : Option Text
  pub path : Option Text
  pub port : Option ℕ
  pub protocol : Option Text
  pub socket : Bool

-- No part is given.
abbrev pub no_location : Location
no_location = record { host = none; path = none; port = none; protocol = none; socket = false }

pub address_format : Location → Option Text → Text
address_format l uuid =
    codes "beiran+"
    ++ (protocol_or_http l.protocol
        ++ (unix_socket_str l.socket
            ++ (codes "://"
                ++ (format (if l.socket then l.path else l.host)
                    ++ (port_str l.port l.socket ++ (b'#' ∷ format uuid))))))

unfoldable pub build_node_address : Location → Option Text → Text
unfolding unix_socket_str port_str address_format
build_node_address l uuid =
    let address = address_format l uuid in
    if is_given uuid then address else (partition b'#' address).0

-- Whether the parts of the scheme say that it is a socket.
is_unix : List Text → Bool
is_unix (beiran ∷ protocol ∷ socket ∷ rest) = same socket (codes "unix")
is_unix _ = false

-- The second part, or the whole scheme on the IndexError.
protocol_of : Text → List Text → Text
protocol_of scheme (beiran ∷ protocol ∷ rest) = protocol
protocol_of scheme _ = scheme

unfoldable pub transport_of : Text → Text
transport_of protocol =
    if member protocol (codes "http" ∷ codes "https" ∷ []) then codes "http" else codes "tcp"

pub record Parsed : Type 0 where
  pub transport : Text
  pub protocol : Text
  pub hostname : Option Text
  pub path : Text
  pub port : Option ℕ
  pub fragment : Text
  pub unix_socket : Bool

of_port : ParseResult → Option (Option ℕ) → Option Parsed
of_port u none = none
of_port u (some n) =
    let protocol = protocol_of u.scheme (split b'+' u.scheme) in
    some (record {
      transport = transport_of protocol;
      protocol = protocol;
      hostname = url_hostname u;
      path = u.path;
      port = n;
      fragment = u.fragment;
      unix_socket = is_unix (split b'+' u.scheme);
    })

of_url : Option ParseResult → Option Parsed
of_url none = none
of_url (some u) = of_port u (url_port u)

-- `none` is a ValueError of urlparse.
unfoldable pub parse_address : Text → Option Parsed
unfolding is_unix protocol_of of_port of_url
parse_address address = of_url (urlparse address)

without : Text → Text → Text
without part s = join [] (split_text part s)

is_brace : ℕ → Bool
is_brace c = has c (codes "{}")

is_hex_digit : ℕ → Bool
is_hex_digit c = is_digit c || (leb b'a' c && leb c b'f') || (leb b'A' c && leb c b'F')

reversed_onto : Text → Text → Text
reversed_onto acc [] = acc
reversed_onto acc (c ∷ s) = reversed_onto (c ∷ acc) s

-- `strip('{}')` at the left
strip_braces : Text → Text
strip_braces [] = []
strip_braces (c ∷ s) = let rest = strip_braces s in if is_brace c then rest else c ∷ s

-- `UUID(hex).hex`, `none` being the ValueError. That `int` takes more than digits is left out.
unfoldable pub uuid_of : Text → Option Text
unfolding without is_brace is_hex_digit reversed_onto strip_braces
uuid_of hex =
    let bare = strip_braces (without (codes "uuid:") (without (codes "urn:") hex)) in
    let digits = without (codes "-") (reversed_onto [] (strip_braces (reversed_onto [] bare))) in
    if (length digits == 32) && all_chars is_hex_digit digits then some (lower digits) else none

pub record PeerAddress : Type 0 where
  pub uuid : Option Text
  pub address : Text
  pub transport : Text
  pub protocol : Text
  pub host : Option Text
  pub path : Text
  pub port : Option ℕ
  pub unix_socket : Bool

peer_address : Text → Parsed → Option Text → PeerAddress
peer_address address p uuid = record {
  uuid = uuid;
  address = address;
  transport = p.transport;
  protocol = p.protocol;
  host = p.hostname;
  path = p.path;
  port = p.port;
  unix_socket = p.unix_socket;
}

-- `if _uuid: self.uuid = UUID(_uuid)`
with_uuid : Text → Parsed → Option Text → Option Text → Option PeerAddress
with_uuid address p uuid none = none
with_uuid address p uuid (some u) = some (peer_address address p (some u))

set_fields : Text → Option Text → Option Parsed → Option PeerAddress
set_fields address uuid none = none
set_fields address uuid (some p) =
    if is_nil p.fragment
    then some (peer_address address p uuid)
    else with_uuid address p uuid (uuid_of p.fragment)

set_location : Location → Option Text → Option PeerAddress
set_location l uuid =
    let address = build_node_address l uuid in set_fields address uuid (parse_address address)

location_of : Parsed → Location
location_of p = record {
  host = p.hostname;
  path = some p.path;
  port = p.port;
  protocol = some p.protocol;
  socket = p.unix_socket;
}

relocate : Option Text → Option Parsed → Option PeerAddress
relocate uuid none = none
relocate uuid (some p) = set_location (location_of p) uuid

beiran_address : Text → Text
beiran_address addr = if starts_with addr (codes "beiran+") then addr else codes "beiran+" ++ addr

-- The parts are given; `none` is a ValueError.
unfoldable pub from_location : Location → Option Text → Option PeerAddress
unfolding peer_address with_uuid set_fields set_location
from_location l uuid = set_location l uuid

-- An address is given, which is not empty.
unfoldable pub from_address : Text → Option Text → Option PeerAddress
unfolding peer_address with_uuid set_fields set_location location_of relocate beiran_address
from_address addr uuid = relocate uuid (parse_address (beiran_address addr))

-- `PeerAddress.__init__`
unfoldable pub init_peer_address : Option Text → Location → Option Text → Option PeerAddress
init_peer_address (some (c ∷ s)) l uuid = from_address (c ∷ s) uuid
init_peer_address (some []) l uuid = from_location l uuid
init_peer_address none l uuid = from_location l uuid

format_port : Option ℕ → Text
format_port none = codes "None"
format_port (some n) = str n

-- `location`
unfoldable pub location : PeerAddress → Text
unfolding format_port
location p =
    if p.unix_socket
    then p.protocol ++ (codes "+unix://" ++ p.path)
    else p.protocol ++ (codes "://" ++ (format p.host ++ (b':' ∷ format_port p.port)))
