-- ===== src/Local/Collected.antt =====
-- The address in collect_node_info of beiran/daemon/lib.py is one that other nodes understand.
use beiran.Address.{init_peer_address, no_location, parse_address, port_or_default}
use beiran.Address.{protocol_or_http, transport_of}
use beiran.Address.RoundTrip.{IsName, parse_address-build_node_address}
use beiran.Address.Stable.{IsUuid, from_address-from_location, init_peer_address-net, net_peer}
use beiran.Base.{Text, [], all_chars, codes, false, has, none, refl, some, sym, ℤ, ◌∙◌, ◌≡◌, ◌≤◌}
use beiran.Local.{Files, Host, Info, collect_node_info, get_advertise_address, get_hostname}
use beiran.Local.{get_sync_version, local_node_uuid, peer_location, with_address}
use beiran.Local.{with_peer_address, with_version}
use beiran.Subpath.{Result, err, ok}
use beiran.Url.{is_lower}
use beiran.Url.Parts.{is_name_char}

collected : Host → Text → Text → ℤ → Info
collected H uuid address v = record {
  uuid = uuid;
  address = (net_peer none (some uuid) address (some H.listen_port)).address;
  hostname = get_hostname H.hostname H.gethostname;
  ip_address = address;
  port = H.listen_port;
  last_sync_version = v;
}

http_IsName : IsName (protocol_or_http none)
unfolding protocol_or_http all_chars is_name_char is_lower has
http_IsName = (refl, refl)

made :
    (H : Host) (uuid address : Text)
    → IsName address
    → port_or_default (some H.listen_port) ≤ 65535
    → IsUuid (some uuid)
    → init_peer_address none (peer_location H address) (some uuid)
      ≡ some (net_peer none (some uuid) address (some H.listen_port))
unfolding init_peer_address peer_location
made H uuid address name small u =
    (from_address-from_location none (some uuid) none address (some H.listen_port) http_IsName name
      small u tt).0

with_version-collected :
    (H : Host) (uuid address : Text) (r : Files × Result ℤ) (v : ℤ)
    → r.1 ≡ ok v
    → (with_version H uuid address (net_peer none (some uuid) address (some H.listen_port)) r).1
      ≡ some (collected H uuid address v)
unfolding with_version collected
with_version-collected H uuid address (s, err e) v h = absurd cc
with_version-collected H uuid address (s, ok w) v h = cc

with_address-collected :
    (H : Host) (s : Files) (uuid address : Text) (v : ℤ)
    → IsName address
    → port_or_default (some H.listen_port) ≤ 65535
    → IsUuid (some uuid)
    → (get_sync_version s).1 ≡ ok v
    → (with_address H (s, uuid) (some address)).1 ≡ some (collected H uuid address v)
unfolding with_address with_peer_address
with_address-collected H s uuid address v name small u h =
    rw (made H uuid address name small u)
      (with_version-collected H uuid address (get_sync_version s) v h)

-- What is collected of the local node has the version that its file holds, and an address that is
-- parsed to the address that is advertised, the port that is listened at and the node's uuid; another
-- node that is given the address with that uuid makes the peer address of it that the local node has.
-- The advertised address is a nonempty text of lower-case letters, digits, dots and dashes, the port
-- is not above 65535, and the uuid reads back as itself.
pub collect_node_info-parse_address :
    (H : Host) (uuid4 : Text) (s : Files) (address : Text) (v : ℤ)
    → get_advertise_address H.net ≡ some address
    → IsName address
    → port_or_default (some H.listen_port) ≤ 65535
    → IsUuid (some (local_node_uuid uuid4 s).1)
    → (get_sync_version (local_node_uuid uuid4 s).0).1 ≡ ok v
    → (i : Info) × ((collect_node_info H uuid4 s).1 ≡ some i)
      × (i.last_sync_version ≡ v)
      × (parse_address i.address
          ≡ some (record {
            transport = transport_of (codes "http");
            protocol = codes "http";
            hostname = some address;
            path = [];
            port = some (port_or_default (some H.listen_port));
            fragment = (local_node_uuid uuid4 s).1;
            unix_socket = false;
          }))
      × (init_peer_address (some i.address) no_location (some i.uuid)
          ≡ init_peer_address none
              (record no_location { host = some address; port = some H.listen_port })
              (some (local_node_uuid uuid4 s).1))
unfolding collect_node_info collected protocol_or_http peer_location
collect_node_info-parse_address H uuid4 s address v a name small u h =
    let r : Files × Text = local_node_uuid uuid4 s in
    (
      collected H r.1 address v,
      rw a (with_address-collected H r.0 r.1 address v name small u h),
      refl,
      parse_address-build_node_address none (some r.1) none address (some H.listen_port) http_IsName
          name small,
      init_peer_address-net none (some r.1) (some r.1) address (some H.listen_port) no_location
            http_IsName name small u u
          ∙ sym (made H r.1 address name small u),
    )
