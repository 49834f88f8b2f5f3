-- ===== src/Bootstrap/Tests.antt =====
-- A node of the database with one connection, and two known URLs, one of them at the same host.
use beiran.Address.{PeerAddress, port_or_default, protocol_or_http}
use beiran.Address.Stable.{net_peer}
use beiran.Base.{List, Text, [], all_chars, arith, codes, has, inl, member, none, refl, same}
use beiran.Base.{some, ◌∷◌, ◌≡◌}
use beiran.Bootstrap.{probe_without_discovery}
use beiran.Bootstrap.Known.{probe_without_discovery-known}
use beiran.Url.{is_lower}
use beiran.Url.Parts.{is_name_char}

abbrev seen_host : Text
seen_host = codes "10.0.0.1"

abbrev seen_uuid : Text
seen_uuid = codes "84ae8786b9244c4fa53ecf0ca75e922d"

abbrev connections_of : Text → List PeerAddress
connections_of u = net_peer none (some seen_uuid) seen_host none ∷ []

probe_without_discovery-known_example :
    probe_without_discovery (codes "me") connections_of (codes "you" ∷ codes "me" ∷ []) (
      codes "beiran+http://10.0.0.2:8888"
      ∷ (net_peer none none seen_host none).address
      ∷ codes "beiran+http://10.0.0.3:8888"
      ∷ [])
    ≡ probe_without_discovery
        (codes "me")
        connections_of
        (codes "you" ∷ codes "me" ∷ [])
        (codes "beiran+http://10.0.0.2:8888" ∷ codes "beiran+http://10.0.0.3:8888" ∷ [])
unfolding all_chars is_name_char is_lower has protocol_or_http same member
probe_without_discovery-known_example =
    probe_without_discovery-known (codes "me") connections_of none none (some seen_uuid) seen_host
      none (codes "you") (codes "you" ∷ codes "me" ∷ []) (codes "beiran+http://10.0.0.2:8888" ∷ [])
      (codes "beiran+http://10.0.0.3:8888" ∷ []) (refl, refl) (refl, refl)
      (unfold port_or_default in omega arith) tt refl refl (inl refl)
