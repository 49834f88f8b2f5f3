-- ===== src/Container/Chain/Tests.antt =====
-- The mappings of an image of two layers, for a stand-in for the hex digest.
use beiran.Base.{List, Text, [], codes, member, refl, same, some, starts_with, true, ◌∷◌, ◌≡◌}
use beiran.Base.Dict.{insert, lookup}
use beiran.Container.Chain.{Mappings, get_diffid_by_digest, set_mapping_v2}
use beiran.Container.Chain.Ids.{IsMapped, Layer, diff_ids, digests, set_mapping_v2-IsMapped}
use beiran.Container.Chain.Lookup.{get_diffid_by_digest-set_mapping_v2}
use beiran.ImageRef.{add_idpref}

abbrev shout : Text → Text
shout s = b'h' ∷ s

abbrev no_mappings : Mappings
no_mappings = record { diffid_mapping = []; layerdb_mapping = [] }

abbrev base : Layer
base = (codes "d1", codes "g1")

abbrev upper : List Layer
upper = (codes "d2", codes "g2") ∷ []

set_mapping_v2-IsMapped_example :
    ((set_mapping_v2 shout (diff_ids (base ∷ upper)) (digests (base ∷ upper)) no_mappings).1 ≡ true)
    × IsMapped shout
        (set_mapping_v2 shout (diff_ids (base ∷ upper)) (digests (base ∷ upper)) no_mappings).0
        []
        (base ∷ upper)
unfolding member same
set_mapping_v2-IsMapped_example =
    set_mapping_v2-IsMapped shout base upper no_mappings (refl, (refl, tt))

chained :
    lookup
      (codes "d2")
      (set_mapping_v2 shout
        (diff_ids (base ∷ upper))
        (digests (base ∷ upper))
        no_mappings).0.layerdb_mapping
    ≡ some (codes "sha256:hd1 d2")
unfolding lookup insert set_mapping_v2 add_idpref same starts_with
chained = refl

get_diffid_by_digest-set_mapping_v2_example :
    let mapping =
      (set_mapping_v2 shout
        (diff_ids (base ∷ upper))
        (digests (base ∷ upper))
        no_mappings).0.diffid_mapping in
    (k : Text) × (get_diffid_by_digest (codes "g2") mapping ≡ some k)
    × (lookup k mapping ≡ some (codes "g2"))
unfolding member same
get_diffid_by_digest-set_mapping_v2_example =
    get_diffid_by_digest-set_mapping_v2 shout (codes "g2") base upper no_mappings tt
      (refl, (refl, tt)) refl
