-- ===== src/Local/Tests.antt =====
-- Inputs for the theorems on the local node.
use beiran.Address.{build_node_address, format, from_location, init_peer_address, is_given}
use beiran.Address.{no_location, parse_address, port_or_default, protocol_or_http, transport_of}
use beiran.Address.{uuid_of}
use beiran.Base.{Text, [], all_chars, arith, codes, false, has, member, negsuc, none, pos}
use beiran.Base.{print_nat, refl, same, some, split, split_text, starts_with, str, str_ℤ, suc_ℤ}
use beiran.Base.{◌≡◌}
use beiran.Local.{Daemon, Files, Host, Info, collect_node_info, get_advertise_address}
use beiran.Local.{get_sync_version, local_node_uuid, on_plugin_state_update, restart, start}
use beiran.Local.{update_sync_version_file}
use beiran.Local.Collected.{collect_node_info-parse_address}
use beiran.Local.Counted.{start-updates, updates, version_of}
use beiran.Local.Kept.{IsHex, local_node_uuid-IsKept}
use beiran.Subpath.{int}
use beiran.Url.{after_last, is_lower, is_upper, lower, partition, split_netloc, url_hostname}
use beiran.Url.{url_port, urlparse}
use beiran.Url.Parts.{is_name_char}

abbrev first_uuid : Text
first_uuid = codes "0123456789abcdef0123456789abcdef"

abbrev second_uuid : Text
second_uuid = codes "fedcba9876543210fedcba9876543210"

-- A first run: the uuid file is broken, and no version has been written.
abbrev first_run : Files
first_run = record { cached = none; uuid_conf = some (codes "0123"); sync_version = none }

abbrev host_address : Text
host_address = codes "10.0.0.1"

abbrev some_host : Host
some_host = record {
  net = record {
    listen_address = codes "0.0.0.0";
    compressed = λ a. some a;
    default_interface = codes "eth0";
    interface_address = λ i. host_address;
  };
  listen_port = 8888;
  hostname = none;
  gethostname = codes "node";
}

abbrev first_daemon : Daemon
first_daemon = record {
  sync_state_version = pos 0;
  last_sync_version = pos 0;
  files = record {
    cached = some first_uuid;
    uuid_conf = some first_uuid;
    sync_version = some (codes "0");
  };
}

local_node_uuid-IsKept_example :
    ((local_node_uuid second_uuid (local_node_uuid first_uuid first_run).0).1
      ≡ (local_node_uuid first_uuid first_run).1)
    × ((local_node_uuid second_uuid (restart (local_node_uuid first_uuid first_run).0)).1
        ≡ (local_node_uuid first_uuid first_run).1)
unfolding uuid_of split_text has all_chars lower is_upper
local_node_uuid-IsKept_example =
    local_node_uuid-IsKept first_uuid second_uuid first_run (refl, refl) refl

first_IsHex : IsHex first_uuid
unfolding uuid_of split_text has all_chars lower is_upper
first_IsHex = (refl, refl)

-- The first start, evaluated.
first_start : start some_host first_uuid first_run ≡ some first_daemon
unfolding start collect_node_info local_node_uuid get_advertise_address get_sync_version str_ℤ str
    print_nat same init_peer_address from_location build_node_address parse_address urlparse format
    is_given transport_of member url_hostname url_port partition starts_with split_netloc has split
    after_last uuid_of split_text all_chars lower is_upper int protocol_or_http port_or_default
first_start = refl

start-updates_example :
    version_of (start some_host second_uuid (restart (updates 12 first_daemon).files))
    ≡ some (updates 12 first_daemon).sync_state_version
start-updates_example =
    start-updates some_host first_uuid second_uuid first_run 12 first_daemon first_IsHex refl
      first_start

-- Twelve updates, evaluated.
twelve_updates : (updates 12 first_daemon).files.sync_version ≡ some (codes "12")
unfolding on_plugin_state_update update_sync_version_file str_ℤ suc_ℤ str print_nat
twelve_updates = refl

abbrev kept_version : Files
kept_version = record {
  cached = none;
  uuid_conf = some first_uuid;
  sync_version = some (codes "-3");
}

collect_node_info-parse_address_example :
    (i : Info) × ((collect_node_info some_host second_uuid kept_version).1 ≡ some i)
    × (i.last_sync_version ≡ negsuc 2)
    × (parse_address i.address
        ≡ some (record {
          transport = transport_of (codes "http");
          protocol = codes "http";
          hostname = some host_address;
          path = [];
          port = some (port_or_default (some 8888));
          fragment = (local_node_uuid second_uuid kept_version).1;
          unix_socket = false;
        }))
    × (init_peer_address (some i.address) no_location (some i.uuid)
        ≡ init_peer_address none
            (record no_location { host = some host_address; port = some 8888 })
            (some (local_node_uuid second_uuid kept_version).1))
unfolding get_advertise_address same local_node_uuid uuid_of split_text has all_chars lower is_upper
    is_name_char is_lower get_sync_version port_or_default int starts_with
collect_node_info-parse_address_example =
    collect_node_info-parse_address some_host second_uuid kept_version host_address (negsuc 2) refl
      (refl, refl) (omega arith) (refl, refl) refl
