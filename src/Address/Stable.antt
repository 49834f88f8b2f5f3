-- ===== src/Address/Stable.antt =====
-- PeerAddress of an address that PeerAddress has built.
-- `hex` of a UUID, or none at all
use beiran.Address.{Location, Parsed, PeerAddress, address_format, beiran_address}
use beiran.Address.{build_node_address, from_address, from_location, init_peer_address}
use beiran.Address.{location_of, peer_address, port_or_default, port_str, protocol_or_http}
use beiran.Address.{relocate, set_fields, set_location, transport_of, uuid_of, with_uuid}
use beiran.Address.RoundTrip.{IsName, build-net, fragment_of, front, net_location}
use beiran.Address.RoundTrip.{parse_address-build_node_address}
use beiran.Base.{Option, Text, [], ap, codes, false, is_nil, none, refl, some, starts_with, suc}
use beiran.Base.{true, zero, ℕ, ◌∙◌, ◌∷◌, ◌≡◌, ◌≤◌}

abbrev pub IsUuid : Option Text → Type 0
IsUuid none = Unit
IsUuid (some u) = (is_nil u ≡ false) × (uuid_of u ≡ some u)

-- The peer address at a host and a port.
abbrev pub net_peer : Option Text → Option Text → Text → Option ℕ → PeerAddress
net_peer protocol uuid host port = record {
  uuid = uuid;
  address = build_node_address (net_location protocol host none port) uuid;
  transport = transport_of (protocol_or_http protocol);
  protocol = protocol_or_http protocol;
  host = some host;
  path = [];
  port = some (port_or_default port);
  unix_socket = false;
}

abbrev net_parsed : Option Text → Option Text → Text → Option ℕ → Parsed
net_parsed protocol uuid host port = record {
  transport = transport_of (protocol_or_http protocol);
  protocol = protocol_or_http protocol;
  hostname = some host;
  path = [];
  port = some (port_or_default port);
  fragment = fragment_of uuid;
  unix_socket = false;
}

set_fields-net :
    (protocol uuid : Option Text) (host : Text) (port : Option ℕ) (address : Text)
    → IsUuid uuid
    → address ≡ build_node_address (net_location protocol host none port) uuid
    → set_fields address uuid (some (net_parsed protocol uuid host port))
      ≡ some (net_peer protocol uuid host port)
unfolding set_fields peer_address with_uuid
set_fields-net protocol none host port address h e = rw e refl
set_fields-net protocol (some []) host port address h e = absurd cc
set_fields-net protocol (some (c ∷ u)) host port address h e = rw (h.1, e) refl

build_path :
    (protocol uuid path : Option Text) (host : Text) (port : Option ℕ)
    → build_node_address (net_location protocol host path port) uuid
      ≡ build_node_address (net_location protocol host none port) uuid
unfolding build_node_address address_format
build_path protocol uuid path host port = refl

set_location-net :
    (protocol uuid path : Option Text) (host : Text) (port : Option ℕ)
    → IsName (protocol_or_http protocol)
    → IsName host
    → port_or_default port ≤ 65535
    → IsUuid uuid
    → set_location (net_location protocol host path port) uuid
      ≡ some (net_peer protocol uuid host port)
unfolding set_location
set_location-net protocol uuid path host port p h small u =
    rw (parse_address-build_node_address protocol uuid path host port p h small)
      (set_fields-net protocol uuid host port _ u (build_path protocol uuid path host port))

port_again :
    (port : Option ℕ) → port_or_default (some (port_or_default port)) ≡ port_or_default port
unfolding port_or_default
port_again none = refl
port_again (some zero) = refl
port_again (some (suc n)) = refl

protocol_again :
    (protocol : Option Text)
    → protocol_or_http (some (protocol_or_http protocol)) ≡ protocol_or_http protocol
unfolding protocol_or_http
protocol_again none = refl
protocol_again (some []) = refl
protocol_again (some (c ∷ s)) = refl

-- The defaults, filled in, give the same peer address.
filled_in :
    (protocol uuid : Option Text) (host : Text) (port : Option ℕ)
    → net_peer (some (protocol_or_http protocol)) uuid host (some (port_or_default port))
      ≡ net_peer protocol uuid host port
unfolding build_node_address address_format port_str
filled_in protocol uuid host port = rw (port_again port, protocol_again protocol) refl

beiran_address-net :
    (protocol uuid path : Option Text) (host : Text) (port : Option ℕ)
    → IsName (protocol_or_http protocol)
    → IsName host
    → starts_with (build_node_address (net_location protocol host path port) uuid) (codes "beiran+")
      ≡ true
unfolding front starts_with
beiran_address-net protocol uuid path host port p h =
    rw (build-net protocol uuid path host port p.1 h.1) refl

-- The address that PeerAddress builds from a host, a protocol and a port, given to it again, leads to
-- the same peer address, but with just the uuid that is given besides: the one that stands in the
-- address is not kept. The protocol and the host are texts of lower-case letters, digits, dots and
-- dashes, not empty, the port is at most 65535, and a uuid that is given is not empty and reads back as
-- itself.
pub from_address-from_location :
    (protocol uuid other : Option Text) (host : Text) (port : Option ℕ)
    → IsName (protocol_or_http protocol)
    → IsName host
    → port_or_default port ≤ 65535
    → IsUuid uuid
    → IsUuid other
    → (from_location (net_location protocol host none port) uuid
        ≡ some (net_peer protocol uuid host port))
      × (from_address (net_peer protocol uuid host port).address other
          ≡ some (net_peer protocol other host port))
unfolding from_location from_address beiran_address relocate location_of
from_address-from_location protocol uuid other host port p h small u v = (
  set_location-net protocol uuid none host port p h small u,
  rw
      (
        beiran_address-net protocol uuid none host port p h,
        parse_address-build_node_address protocol uuid none host port p h small,
      )
      (set_location-net (some (protocol_or_http protocol)) other (some []) host
          (some (port_or_default port)) (rw (protocol_again protocol) p) h
          (rw (port_again port) small) v
        ∙ ap some (filled_in protocol other host port)),
)

init-given :
    (addr : Text) (l : Location) (uuid : Option Text)
    → is_nil addr ≡ false
    → init_peer_address (some addr) l uuid ≡ from_address addr uuid
unfolding init_peer_address
init-given [] l uuid h = absurd cc
init-given (c ∷ s) l uuid h = refl

pub init_peer_address-net :
    (protocol uuid other : Option Text) (host : Text) (port : Option ℕ) (l : Location)
    → IsName (protocol_or_http protocol)
    → IsName host
    → port_or_default port ≤ 65535
    → IsUuid uuid
    → IsUuid other
    → init_peer_address (some (net_peer protocol uuid host port).address) l other
      ≡ some (net_peer protocol other host port)
unfolding front
init_peer_address-net protocol uuid other host port l p h small u v =
    init-given (build_node_address (net_location protocol host none port) uuid) l other
      (rw (build-net protocol uuid none host port p.1 h.1) refl)
    ∙ (from_address-from_location protocol uuid other host port p h small u v).1
