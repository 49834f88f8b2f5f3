-- ===== src/Container/Chain/Ids.antt =====
-- The mappings after the loops of fetch_config_schema_v1 and fetch_config_schema_v2 of
-- plugins/beiran_package_container/container.py, against the chain ids of the OCI image format.
-- A layer of an image: its diff id and its digest.
use beiran.Base.{Bool, List, Text, [], ap, arith, false, if◌then◌else◌, member, refl, same}
use beiran.Base.{same_refl, some, true, ◌∙◌, ◌∷◌, ◌≡◌}
use beiran.Base.Dict.{lookup, lookup-insert}
use beiran.Container.Chain.{Mappings, calc_chain_id, map_descriptors, map_diff_ids, next_chain_id}
use beiran.Container.Chain.{set_mapping_v1, set_mapping_v2, store}

abbrev pub Layer : Type 0
Layer = Text × Text

abbrev pub diff_ids : List Layer → List Text
diff_ids [] = []
diff_ids ((d, g) ∷ ls) = d ∷ diff_ids ls

abbrev pub digests : List Layer → List Text
digests [] = []
digests ((d, g) ∷ ls) = g ∷ digests ls

abbrev pub IsDistinct : List Text → Type 0
IsDistinct [] = Unit
IsDistinct (d ∷ ds) = (member d ds ≡ false) × IsDistinct ds

module _ (hexdigest : Text → Text) where
  -- The chain id of the layers up to one, the last layer first.
  unfoldable pub chain_id_of : List Text → Text
  chain_id_of [] = []
  chain_id_of (d ∷ []) = d
  chain_id_of (d ∷ e ∷ below) = calc_chain_id hexdigest (chain_id_of (e ∷ below)) d

  -- Each of the layers, which lie on the ones given first, has its chain id and its digest.
  abbrev pub IsMapped : Mappings → List Text → List Layer → Type 0
  IsMapped m below [] = Unit
  IsMapped m below ((d, g) ∷ ls) =
      (lookup d m.layerdb_mapping ≡ some (chain_id_of (d ∷ below)))
      × (lookup d m.diffid_mapping ≡ some g)
      × IsMapped m (d ∷ below) ls

  lookup-store :
      (k d g chain : Text) (m : Mappings)
      → (lookup k (store hexdigest d g chain m).layerdb_mapping
          ≡ (if same d k then some chain else lookup k m.layerdb_mapping))
        × (lookup k (store hexdigest d g chain m).diffid_mapping
            ≡ (if same d k then some g else lookup k m.diffid_mapping))
  unfolding store
  lookup-store k d g chain m =
      (lookup-insert k d chain m.layerdb_mapping, lookup-insert k d g m.diffid_mapping)

  lookup-map_diff_ids :
      (top : Bool) (chain k : Text) (ls : List Layer) (m : Mappings)
      → member k (diff_ids ls) ≡ false
      → (lookup k (map_diff_ids hexdigest top chain (diff_ids ls) (digests ls) m).0.layerdb_mapping
          ≡ lookup k m.layerdb_mapping)
        × (lookup k (map_diff_ids hexdigest top chain (diff_ids ls) (digests ls) m).0.diffid_mapping
            ≡ lookup k m.diffid_mapping)
  unfolding map_diff_ids member
  lookup-map_diff_ids top chain k [] m h = (refl, refl)
  lookup-map_diff_ids top chain k ((d, g) ∷ ls) m h =
      let next = next_chain_id hexdigest top chain d in
      let (a, b) =
        lookup-map_diff_ids false next k ls (store hexdigest d g next m) (ground arith) in
      (
        a ∙ (rw ((lookup-store k d g next m).0) (ground arith)),
        b ∙ (rw ((lookup-store k d g next m).1) (ground arith)),
      )

  map_diff_ids-returns :
      (top : Bool) (chain : Text) (ls : List Layer) (m : Mappings)
      → (map_diff_ids hexdigest top chain (diff_ids ls) (digests ls) m).1 ≡ true
  unfolding map_diff_ids
  map_diff_ids-returns top chain [] m = refl
  map_diff_ids-returns top chain ((d, g) ∷ ls) m =
      let next = next_chain_id hexdigest top chain d in
      map_diff_ids-returns false next ls (store hexdigest d g next m)

  lookup-head :
      (chain d g : Text) (ls : List Layer) (m : Mappings)
      → member d (diff_ids ls) ≡ false
      → let r =
          map_diff_ids hexdigest false chain
            (diff_ids ls)
            (digests ls)
            (store hexdigest d g chain m) in
        (lookup d r.0.layerdb_mapping ≡ some chain) × (lookup d r.0.diffid_mapping ≡ some g)
  lookup-head chain d g ls m h =
      let stored = lookup-store d d g chain m in
      let (a, b) = lookup-map_diff_ids false chain d ls (store hexdigest d g chain m) h in
      (a ∙ (rw (stored.0, same_refl d) refl), b ∙ (rw (stored.1, same_refl d) refl))

  map_diff_ids-IsMapped :
      (chain d g : Text) (below : List Text) (ls : List Layer) (m : Mappings)
      → chain ≡ chain_id_of (d ∷ below)
      → IsDistinct (d ∷ diff_ids ls)
      → IsMapped
          (map_diff_ids hexdigest false chain
            (diff_ids ls)
            (digests ls)
            (store hexdigest d g chain m)).0
          below
          ((d, g) ∷ ls)
  unfolding map_diff_ids next_chain_id chain_id_of
  map_diff_ids-IsMapped chain d g below [] m e h =
      let (a, b) = lookup-head chain d g [] m h.0 in (a ∙ ap some e, b, tt)
  map_diff_ids-IsMapped chain d g below ((c, q) ∷ ls) m e h =
      let (a, b) = lookup-head chain d g ((c, q) ∷ ls) m h.0 in
      let next = calc_chain_id hexdigest chain c in
      let above =
        map_diff_ids-IsMapped next c q (d ∷ below) ls (store hexdigest d g chain m)
          (ap (λ x. calc_chain_id hexdigest x c) e) h.1 in
      (a ∙ ap some e, b, above)

  -- If the diff ids of the layers of an image are distinct, the loop of schema 2 ends without an
  -- error, and maps each diff id to the chain id and to the digest of its layer.
  pub set_mapping_v2-IsMapped :
      (l : Layer) (ls : List Layer) (m : Mappings)
      → IsDistinct (diff_ids (l ∷ ls))
      → ((set_mapping_v2 hexdigest (diff_ids (l ∷ ls)) (digests (l ∷ ls)) m).1 ≡ true)
        × IsMapped (set_mapping_v2 hexdigest (diff_ids (l ∷ ls)) (digests (l ∷ ls)) m).0 [] (l ∷ ls)
  unfolding set_mapping_v2 map_diff_ids next_chain_id chain_id_of
  set_mapping_v2-IsMapped (d, g) ls m h = (
    map_diff_ids-returns false d ls (store hexdigest d g d m),
    map_diff_ids-IsMapped d d g [] ls m refl h,
  )

  map_descriptors-map_diff_ids :
      (top : Bool) (chain : Text) (ls : List Layer) (m : Mappings)
      → map_descriptors hexdigest top chain (digests ls) (diff_ids ls) m
        ≡ map_diff_ids hexdigest top chain (diff_ids ls) (digests ls) m
  unfolding map_descriptors map_diff_ids
  map_descriptors-map_diff_ids top chain [] m = refl
  map_descriptors-map_diff_ids top chain ((d, g) ∷ ls) m =
      let next = next_chain_id hexdigest top chain d in
      map_descriptors-map_diff_ids false next ls (store hexdigest d g next m)

  -- On as many diff ids as digests, the loops of the two schemas do the same.
  set_mapping_v1-set_mapping_v2 :
      (ls : List Layer) (m : Mappings)
      → set_mapping_v1 hexdigest (diff_ids ls) (digests ls) m
        ≡ set_mapping_v2 hexdigest (diff_ids ls) (digests ls) m
  unfolding set_mapping_v1 set_mapping_v2
  set_mapping_v1-set_mapping_v2 [] m = refl
  set_mapping_v1-set_mapping_v2 ((d, g) ∷ ls) m =
      map_descriptors-map_diff_ids true d ((d, g) ∷ ls) m
