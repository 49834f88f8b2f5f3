-- ===== src/Address/Tests.antt =====
-- Addresses that are built and parsed.
use beiran.Address.{PeerAddress, build_node_address, format, from_address, from_location}
use beiran.Address.{init_peer_address, is_given, no_location, parse_address, port_or_default}
use beiran.Address.{protocol_or_http, transport_of, uuid_of}
use beiran.Address.RoundTrip.{net_location, parse_address-build_node_address}
use beiran.Address.Stable.{from_address-from_location, net_peer}
use beiran.Base.{Option, Text, [], all_chars, arith, codes, false, has, member, none, print_nat}
use beiran.Base.{refl, same, some, split, split_text, starts_with, str, ℕ, ◌≡◌}
use beiran.Subpath.{int}
use beiran.Url.{after_last, is_lower, is_upper, lower, partition, split_netloc, url_hostname}
use beiran.Url.{url_port, urlparse}
use beiran.Url.Parts.{is_name_char}

abbrev some_uuid : Text
some_uuid = codes "84ae8786b9244c4fa53ecf0ca75e922d"

abbrev fields : Option PeerAddress → Option (Text × Option Text × Option ℕ × Option Text)
fields none = none
fields (some p) = some (p.address, p.host, p.port, p.uuid)

-- The uuid of an address that is given is not kept.
known_url :
    fields (
      init_peer_address
        (some (codes "beiran+http://H1:88/a?b#84ae8786b9244c4fa53ecf0ca75e922d"))
        no_location
        none)
    ≡ some (codes "beiran+http://h1:88", some (codes "h1"), some 88, none)
unfolding init_peer_address from_address from_location build_node_address parse_address urlparse
    url_hostname url_port partition starts_with split_netloc has split same member after_last str
    print_nat port_or_default protocol_or_http format is_given transport_of uuid_of split_text
    all_chars lower is_upper int
known_url = refl

discovered :
    fields (
      init_peer_address none
        (record no_location { host = some (codes "10.0.0.1") })
        (some (codes "84ae8786b9244c4fa53ecf0ca75e922d")))
    ≡ some (
      codes "beiran+http://10.0.0.1:8888#84ae8786b9244c4fa53ecf0ca75e922d",
      some (codes "10.0.0.1"),
      some 8888,
      some (codes "84ae8786b9244c4fa53ecf0ca75e922d"),
    )
unfolding init_peer_address from_address from_location build_node_address parse_address urlparse
    url_hostname url_port partition starts_with split_netloc has split same member after_last str
    print_nat port_or_default protocol_or_http format is_given transport_of uuid_of split_text
    all_chars lower is_upper int
discovered = refl

broken : fields (init_peer_address (some (codes "http://h:99999")) no_location none) ≡ none
unfolding init_peer_address from_address from_location build_node_address parse_address urlparse
    url_hostname url_port partition starts_with split_netloc has split same member after_last str
    print_nat port_or_default protocol_or_http format is_given transport_of uuid_of split_text
    all_chars lower is_upper int
broken = refl

abbrev local_host : Text
local_host = codes "10.0.0.1"

parse_address-build_node_address_example :
    parse_address
      (build_node_address (net_location (some (codes "https")) local_host none none) none)
    ≡ some (record {
      transport = codes "http";
      protocol = codes "https";
      hostname = some local_host;
      path = [];
      port = some 8888;
      fragment = [];
      unix_socket = false;
    })
unfolding all_chars is_name_char is_lower has protocol_or_http transport_of port_or_default member
    same
parse_address-build_node_address_example =
    parse_address-build_node_address (some (codes "https")) none none local_host none (refl, refl)
      (refl, refl) (unfold port_or_default in omega arith)

from_address-from_location_example :
    (from_location (net_location none local_host none none) (some some_uuid)
      ≡ some (net_peer none (some some_uuid) local_host none))
    × (from_address (net_peer none (some some_uuid) local_host none).address none
        ≡ some (net_peer none none local_host none))
unfolding all_chars is_name_char is_lower is_upper has protocol_or_http uuid_of split_text
    starts_with lower
from_address-from_location_example =
    from_address-from_location none (some some_uuid) none local_host none (refl, refl) (refl, refl)
      (unfold port_or_default in omega arith) (refl, refl) tt
