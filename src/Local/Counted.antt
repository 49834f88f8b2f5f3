-- ===== src/Local/Counted.antt =====
-- The version of the daemon's state outlives the process: the sync_version file of
-- beiran/daemon/lib.py, as the start and on_plugin_state_update of beiran/daemon/main.py use it.
use beiran.Address.{PeerAddress, init_peer_address}
use beiran.Base.{Option, Text, ap, arith, none, pos, refl, some, str_ℤ, suc, suc_ℤ, sym, zero, ℕ}
use beiran.Base.{ℤ, ◌∙◌, ◌≡◌}
use beiran.Local.{Daemon, Files, Host, collect_node_info, get_advertise_address, get_sync_version}
use beiran.Local.{local_node_uuid, new_uuid, of_cache, of_uuid, of_uuid_file, of_version_file}
use beiran.Local.{on_plugin_state_update, peer_location, restart, start, update_sync_version_file}
use beiran.Local.{with_address, with_info, with_peer_address, with_version}
use beiran.Local.Kept.{IsHex, local_node_uuid-IsKept}
use beiran.Subpath.{Result, err, int, ok}
use beiran.Subpath.Printed.{int-str_ℤ}

-- So many updates of the plugins.
abbrev pub updates : ℕ → Daemon → Daemon
updates zero d = d
updates (suc n) d = on_plugin_state_update (updates n d)

abbrev pub version_of : Option Daemon → Option ℤ
version_of none = none
version_of (some d) = some d.sync_state_version

-- The sync_version file holds the version.
abbrev Holds : Files → ℤ → Type 0
Holds s v = (t : Text) × (s.sync_version ≡ some t) × (int t ≡ ok v)

-- The daemon's version is in its file, and what the files say of the uuid is as in `s`.
record IsCounted (s : Files) (d : Daemon) : Type 0 where
  same_cached : d.files.cached ≡ s.cached
  same_uuid : d.files.uuid_conf ≡ s.uuid_conf
  held : Holds d.files d.sync_state_version

on_plugin_state_update-IsCounted :
    (s : Files) (d : Daemon) → IsCounted s d → IsCounted s (on_plugin_state_update d)
unfolding on_plugin_state_update update_sync_version_file
on_plugin_state_update-IsCounted s d c = record {
  same_cached = c.same_cached;
  same_uuid = c.same_uuid;
  held = let v : ℤ = suc_ℤ d.sync_state_version in (str_ℤ v, refl, int-str_ℤ v);
}

updates-IsCounted : (s : Files) (n : ℕ) (d : Daemon) → IsCounted s d → IsCounted s (updates n d)
updates-IsCounted s zero d c = c
updates-IsCounted s (suc n) d c =
    on_plugin_state_update-IsCounted s (updates n d) (updates-IsCounted s n d c)

-- The address of the local node can be made.
peer_of : Host → Text → Option Text → Option PeerAddress
unfolding peer_location
peer_of H uuid none = none
peer_of H uuid (some address) = init_peer_address none (peer_location H address) (some uuid)

module _ (H : Host) (s : Files) (uuid : Text) where
  with_version-started :
      (address : Text) (p : PeerAddress) (r : Files × Result ℤ) (d : Daemon)
      → with_info (with_version H uuid address p r) ≡ some d
      → r ≡ (d.files, ok d.sync_state_version)
  unfolding with_version with_info
  with_version-started address p (s', err e) d h = absurd cc
  with_version-started address p (s', ok v) d h = cc

  with_peer-started :
      (address : Text) (o : Option PeerAddress) (d : Daemon)
      → with_info (with_peer_address H uuid s address o) ≡ some d
      → ((p : PeerAddress) × (o ≡ some p))
        × (get_sync_version s ≡ (d.files, ok d.sync_state_version))
  unfolding with_peer_address with_info
  with_peer-started address none d h = absurd cc
  with_peer-started address (some p) d h =
      ((p, refl), with_version-started address p (get_sync_version s) d h)

  with_address-started :
      (o : Option Text) (d : Daemon)
      → with_info (with_address H (s, uuid) o) ≡ some d
      → ((p : PeerAddress) × (peer_of H uuid o ≡ some p))
        × (get_sync_version s ≡ (d.files, ok d.sync_state_version))
  unfolding with_address peer_of with_info
  with_address-started none d h = absurd cc
  with_address-started (some address) d h =
      with_peer-started address (init_peer_address none (peer_location H address) (some uuid)) d h

  with_version-starts :
      (address : Text) (p : PeerAddress) (r : Files × Result ℤ) (v : ℤ)
      → r.1 ≡ ok v
      → version_of (with_info (with_version H uuid address p r)) ≡ some v
  unfolding with_version with_info
  with_version-starts address p (s', err e) v h = absurd cc
  with_version-starts address p (s', ok w) v h = cc

  with_address-starts :
      (o : Option Text) (p : PeerAddress) (v : ℤ)
      → peer_of H uuid o ≡ some p
      → (get_sync_version s).1 ≡ ok v
      → version_of (with_info (with_address H (s, uuid) o)) ≡ some v
  unfolding with_address peer_of with_peer_address
  with_address-starts none p v e h = absurd cc
  with_address-starts (some address) p v e h =
      rw e (with_version-starts address p (get_sync_version s) v h)

of_version_file-Holds :
    (s : Files) (o : Option Text) (d : Daemon)
    → s.sync_version ≡ o
    → of_version_file s o ≡ (d.files, ok d.sync_state_version)
    → IsCounted s d
unfolding of_version_file
of_version_file-Holds s none d e h =
    let files : record s { sync_version = some (str_ℤ (pos 0)) } ≡ d.files = ap (λ r. r.0) h in
    let version : ok (pos 0) ≡ ok d.sync_state_version = ap (λ r. r.1) h in
    record {
      same_cached = sym (ap (λ f. f.cached) files);
      same_uuid = sym (ap (λ f. f.uuid_conf) files);
      held = (str_ℤ (pos 0), sym (ap (λ f. f.sync_version) files), int-str_ℤ (pos 0) ∙ version);
    }
of_version_file-Holds s (some t) d e h =
    let files : s ≡ d.files = ap (λ r. r.0) h in
    let version : int t ≡ ok d.sync_state_version = ap (λ r. r.1) h in
    record {
      same_cached = sym (ap (λ f. f.cached) files);
      same_uuid = sym (ap (λ f. f.uuid_conf) files);
      held = (t, sym (ap (λ f. f.sync_version) files) ∙ e, version);
    }

-- The uuid does not depend on the sync_version file, which stays.
local_node_uuid-agree :
    (uuid4 : Text) (s t : Files)
    → s.cached ≡ none
    → t.cached ≡ none
    → s.uuid_conf ≡ t.uuid_conf
    → (local_node_uuid uuid4 s).1 ≡ (local_node_uuid uuid4 t).1
unfolding local_node_uuid
local_node_uuid-agree uuid4 s t c d e = ground (arith, of_cache, of_uuid_file, of_uuid, new_uuid)

local_node_uuid-sync_version :
    (uuid4 : Text) (s : Files) → (local_node_uuid uuid4 s).0.sync_version ≡ s.sync_version
unfolding local_node_uuid
local_node_uuid-sync_version uuid4 s = ground (arith, of_cache, of_uuid_file, of_uuid, new_uuid)

get_sync_version-Holds : (s : Files) (v : ℤ) → Holds s v → (get_sync_version s).1 ≡ ok v
unfolding get_sync_version
get_sync_version-Holds s v (t, e, h) = rw (e, of_version_file) h

-- A daemon that starts with no uuid in its cache has, after any number of updates of its plugins, a
-- version in memory that the next start reads from the files again, whatever uuid is drawn then; what
-- uuid4 draws is 32 characters long and reads back as itself.
pub start-updates :
    (H : Host) (uuid4 other : Text) (s : Files) (n : ℕ) (d : Daemon)
    → IsHex uuid4
    → s.cached ≡ none
    → start H uuid4 s ≡ some d
    → version_of (start H other (restart (updates n d).files))
      ≡ some (updates n d).sync_state_version
unfolding start collect_node_info get_sync_version
start-updates H uuid4 other s n d x c h =
    let r : Files × Text = local_node_uuid uuid4 s in
    let (made, read) = with_address-started H r.0 r.1 (get_advertise_address H.net) d h in
    let counted : IsCounted r.0 (updates n d) =
      updates-IsCounted r.0 n d (of_version_file-Holds r.0 r.0.sync_version d refl read) in
    let v : ℤ = (updates n d).sync_state_version in
    let files : Files = restart (updates n d).files in
    let again : Files × Text = local_node_uuid other files in
    let same_uuid : again.1 ≡ r.1 =
      local_node_uuid-agree other files (restart r.0) refl refl counted.same_uuid
      ∙ (local_node_uuid-IsKept uuid4 other s x c).1 in
    let (t, there, reads) = counted.held in
    with_address-starts H again.0 again.1 (get_advertise_address H.net) made.0 v
      (ap (λ u. peer_of H u (get_advertise_address H.net)) same_uuid ∙ made.1)
      (get_sync_version-Holds again.0 v
        (t, local_node_uuid-sync_version other files ∙ there, reads))
