-- ===== src/Container/Chain/Lookup.antt =====
-- get_diffid_by_digest of plugins/beiran_package_container/container.py on the mapping of diff ids.
-- A dict has each key once.
use beiran.Base.{Bool, Bool-cases, List, Option-cases, Text, [], ap, arith, false, inl, inr}
use beiran.Base.{member, none, refl, same, same_iff, some, sym, true, ◌∙◌, ◌∷◌, ◌≡◌, ◌≢◌}
use beiran.Base.Dict.{Dict, insert, lookup, lookup-insert}
use beiran.Container.Chain.{Mappings, get_diffid_by_digest, map_diff_ids, next_chain_id}
use beiran.Container.Chain.{set_mapping_v2, store}
use beiran.Container.Chain.Ids.{IsDistinct, IsMapped, Layer, diff_ids, digests}
use beiran.Container.Chain.Ids.{set_mapping_v2-IsMapped}

abbrev pub IsKeyed : Dict Text → Type 0
IsKeyed [] = Unit
IsKeyed ((k, v) ∷ d) = (lookup k d ≡ none) × IsKeyed d

insert-IsKeyed : (k v : Text) (d : Dict Text) → IsKeyed d → IsKeyed (insert k v d)
unfolding insert lookup
insert-IsKeyed k v [] h = (refl, tt)
insert-IsKeyed k v ((j, w) ∷ d) h = elim (Bool-cases (same j k)) [
  | inl e ↦ rw (e) h
  | inr e ↦ rw (e) (
    ground (arith, lookup-insert j k v d, same_iff j k, same_iff k j, h.0),
    insert-IsKeyed k v d h.1,
  )
]

find_digest-lookup :
    (g k : Text) (d : Dict Text)
    → IsKeyed d
    → get_diffid_by_digest g d ≡ some k
    → lookup k d ≡ some g
unfolding get_diffid_by_digest lookup
find_digest-lookup g k [] h e = absurd (ground arith)
find_digest-lookup g k ((j, v) ∷ d) h e =
    let tail = find_digest-lookup g k d h.1 in
    let gone : j ≡ k → lookup k d ≡ none = λ p. ap (λ x. lookup x d) (sym p) ∙ h.0 in
    elim (Bool-cases (same v g)) [
      | inl p ↦ ground (arith, same_iff v g, same_iff j k)
      | inr p ↦ ground (arith, tail, gone, same_iff j k)
    ]

find_digest-has :
    (g k : Text) (d : Dict Text) → lookup k d ≡ some g → get_diffid_by_digest g d ≢ none
unfolding get_diffid_by_digest lookup
find_digest-has g k [] e = absurd (ground arith)
find_digest-has g k ((j, v) ∷ d) e = ground (arith, find_digest-has g k d, same_iff v g)

module _ (hexdigest : Text → Text) where
  map_diff_ids-IsKeyed :
      (top : Bool) (chain : Text) (ds gs : List Text) (m : Mappings)
      → IsKeyed m.diffid_mapping
      → IsKeyed (map_diff_ids hexdigest top chain ds gs m).0.diffid_mapping
  unfolding map_diff_ids store
  map_diff_ids-IsKeyed top chain [] gs m h = h
  map_diff_ids-IsKeyed top chain (d ∷ ds) [] m h = h
  map_diff_ids-IsKeyed top chain (d ∷ ds) (g ∷ gs) m h =
      let next = next_chain_id hexdigest top chain d in
      map_diff_ids-IsKeyed false next ds gs (store hexdigest d g next m)
        (insert-IsKeyed d g m.diffid_mapping h)

  digest-IsMapped :
      (g : Text) (m : Mappings) (below : List Text) (ls : List Layer)
      → IsMapped hexdigest m below ls
      → member g (digests ls) ≡ true
      → (k : Text) × (lookup k m.diffid_mapping ≡ some g)
  unfolding member
  digest-IsMapped g m below [] h e = absurd (ground arith)
  digest-IsMapped g m below ((d, q) ∷ ls) h e = elim (Bool-cases (same q g)) [
    | inl p ↦ (d, h.1 ∙ ap some ((same_iff q g).0 p))
    | inr p ↦ digest-IsMapped g m (d ∷ below) ls h.2 (ground arith)
  ]

  set_mapping-IsKeyed :
      (l : Layer) (ls : List Layer) (m : Mappings)
      → IsKeyed m.diffid_mapping
      → IsKeyed (set_mapping_v2 hexdigest (diff_ids (l ∷ ls)) (digests (l ∷ ls)) m).0.diffid_mapping
  unfolding set_mapping_v2
  set_mapping-IsKeyed (d, q) ls m h =
      map_diff_ids-IsKeyed true d (d ∷ diff_ids ls) (q ∷ digests ls) m h

  -- After the loop of schema 2 on an image whose diff ids are distinct, get_diffid_by_digest finds,
  -- for the digest of each of its layers, a diff id that is mapped to this digest, if the mapping had
  -- each key once before.
  pub get_diffid_by_digest-set_mapping_v2 :
      (g : Text) (l : Layer) (ls : List Layer) (m : Mappings)
      → IsKeyed m.diffid_mapping
      → IsDistinct (diff_ids (l ∷ ls))
      → member g (digests (l ∷ ls)) ≡ true
      → let mapping =
          (set_mapping_v2 hexdigest (diff_ids (l ∷ ls)) (digests (l ∷ ls)) m).0.diffid_mapping in
        (k : Text) × (get_diffid_by_digest g mapping ≡ some k) × (lookup k mapping ≡ some g)
  get_diffid_by_digest-set_mapping_v2 g l ls m keyed distinct e =
      let mapped = (set_mapping_v2 hexdigest (diff_ids (l ∷ ls)) (digests (l ∷ ls)) m).0 in
      let mapping = mapped.diffid_mapping in
      let (k, at_k) =
        digest-IsMapped g mapped [] (l ∷ ls) ((set_mapping_v2-IsMapped hexdigest l ls m distinct).1)
          e in
      elim (Option-cases (get_diffid_by_digest g mapping)) [
        | inl none_found ↦ absurd (find_digest-has g k mapping at_k none_found)
        | inr (j, found_j) ↦
            (j, found_j, find_digest-lookup g j mapping (set_mapping-IsKeyed l ls m keyed) found_j)
      ]
