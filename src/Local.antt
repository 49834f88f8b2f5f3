-- ===== src/Local.antt =====
-- beiran/daemon/lib.py: what the daemon knows of the local node, its uuid and the version of its state,
-- which are kept in files, and `on_plugin_state_update` of beiran/daemon/main.py, which counts the
-- version up. The random uuid is an argument, and so are the netifaces package, the addresses that
-- Python's ipaddress takes, and what the platform and the settings say. There is a listen address in
-- the settings, always.
pub mod Kept
pub mod Collected
pub mod Counted
mod Tests
use beiran.Address.{Location, PeerAddress, format, init_peer_address, is_given, no_location}
use beiran.Address.{uuid_of}
use beiran.Base.{Option, Text, codes, if◌then◌else◌, length, none, not, pos, same, some, str_ℤ}
use beiran.Base.{suc_ℤ, ℕ, ℤ, ◌==◌}
use beiran.Subpath.{Result, err, int, ok}

-- The cached uuid, uuid.conf and the sync_version file; `none` is a file that is not there.
pub record Files : Type 0 where
  pub cached : Option Text
  pub uuid_conf : Option Text
  pub sync_version : Option Text

new_uuid : Text → Files → Files × Text
new_uuid uuid4 s = (record s { cached = some uuid4; uuid_conf = some uuid4 }, uuid4)

-- `len(uuid_hex) != 32` of the text in the file
of_uuid : Text → Text → Files → Option Text → Files × Text
of_uuid uuid4 uuid_hex s none = new_uuid uuid4 s
of_uuid uuid4 uuid_hex s (some u) =
    if length uuid_hex == 32 then (record s { cached = some u }, u) else new_uuid uuid4 s

of_uuid_file : Text → Files → Option Text → Files × Text
of_uuid_file uuid4 s none = new_uuid uuid4 s
of_uuid_file uuid4 s (some uuid_hex) = of_uuid uuid4 uuid_hex s (uuid_of uuid_hex)

of_cache : Text → Files → Option Text → Files × Text
of_cache uuid4 s none = of_uuid_file uuid4 s s.uuid_conf
of_cache uuid4 s (some u) = (s, u)

unfoldable pub local_node_uuid : Text → Files → Files × Text
unfolding new_uuid of_uuid of_uuid_file of_cache
local_node_uuid uuid4 s = of_cache uuid4 s s.cached

-- The cache is a global of the process.
abbrev pub restart : Files → Files
restart s = record s { cached = none }

unfoldable pub update_sync_version_file : ℤ → Files → Files
update_sync_version_file version s = record s { sync_version = some (str_ℤ version) }

of_version_file : Files → Option Text → Files × Result ℤ
of_version_file s none = (record s { sync_version = some (str_ℤ (pos 0)) }, ok (pos 0))
of_version_file s (some t) = (s, int t)

unfoldable pub get_sync_version : Files → Files × Result ℤ
unfolding of_version_file
get_sync_version s = of_version_file s s.sync_version

pub record Net : Type 0 where
  -- `config.listen_address`, and `ip_address(address).compressed`
  pub listen_address : Text
  pub compressed : Text → Option Text
  pub default_interface : Text
  pub interface_address : Text → Text

-- `none` is the ValueError.
get_listen_address : Net → Option Text
get_listen_address N = N.compressed N.listen_address

advertise : Net → Option Text → Option Text
advertise N none = none
advertise N (some listen_address) =
    if not (same listen_address (codes "0.0.0.0"))
    then some listen_address
    else some (N.interface_address N.default_interface)

unfoldable pub get_advertise_address : Net → Option Text
unfolding get_listen_address advertise
get_advertise_address N = advertise N (get_listen_address N)

-- `config.hostname`, and that of the socket
unfoldable pub get_hostname : Option Text → Text → Text
get_hostname hostname gethostname = if is_given hostname then format hostname else gethostname

pub record Info : Type 0 where
  pub uuid : Text
  pub address : Text
  pub hostname : Text
  pub ip_address : Text
  pub port : ℕ
  pub last_sync_version : ℤ

-- What is read of the settings, the socket and the platform.
pub record Host : Type 0 where
  pub net : Net
  pub listen_port : ℕ
  pub hostname : Option Text
  pub gethostname : Text

peer_location : Host → Text → Location
peer_location H address = record no_location { host = some address; port = some H.listen_port }

with_version : Host → Text → Text → PeerAddress → Files × Result ℤ → Files × Option Info
with_version H uuid address p (s, err e) = (s, none)
with_version H uuid address p (s, ok version) = (
  s,
  some (record {
    uuid = uuid;
    address = p.address;
    hostname = get_hostname H.hostname H.gethostname;
    ip_address = address;
    port = H.listen_port;
    last_sync_version = version;
  }),
)

with_peer_address : Host → Text → Files → Text → Option PeerAddress → Files × Option Info
with_peer_address H uuid s address none = (s, none)
with_peer_address H uuid s address (some p) = with_version H uuid address p (get_sync_version s)

with_address : Host → Files × Text → Option Text → Files × Option Info
with_address H (s, uuid) none = (s, none)
with_address H (s, uuid) (some address) =
    with_peer_address H uuid s address
      (init_peer_address none (peer_location H address) (some uuid))

-- `none` is a ValueError.
unfoldable pub collect_node_info : Host → Text → Files → Files × Option Info
unfolding peer_location with_version with_peer_address with_address
collect_node_info H uuid4 s = with_address H (local_node_uuid uuid4 s) (get_advertise_address H.net)

-- The daemon's version, the row of the local node and the files.
pub record Daemon : Type 0 where
  pub sync_state_version : ℤ
  pub last_sync_version : ℤ
  pub files : Files

unfoldable pub on_plugin_state_update : Daemon → Daemon
on_plugin_state_update d =
    let version = suc_ℤ d.sync_state_version in
    record {
      sync_state_version = version;
      last_sync_version = version;
      files = update_sync_version_file version d.files;
    }

with_info : Files × Option Info → Option Daemon
with_info (s, none) = none
with_info (s, some info) = some (record {
  sync_state_version = info.last_sync_version;
  last_sync_version = info.last_sync_version;
  files = s;
})

-- The versions with which `main` begins.
unfoldable pub start : Host → Text → Files → Option Daemon
unfolding with_info
start H uuid4 s = with_info (collect_node_info H uuid4 s)
