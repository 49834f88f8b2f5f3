-- ===== src/Docker/Mappings/Sources.antt =====
-- Where the entries of the mappings of plugins/beiran_interface_docker/util.py come from.
use beiran.Base.{Bool, Bool-cases, List, Option, Text, [], arith, codes, false, if◌then◌else◌}
use beiran.Base.{inl, inr, member, none, not, refl, same, same_iff, some, sym, true, ◌∷◌, ◌≡◌}
use beiran.Base.{◌⊎◌}
use beiran.Base.Dict.{Dict, insert, lookup, lookup-insert, values}
use beiran.Docker.Mappings.{
  Mappings, digest_of_file, first_digest, get_diffid_mappings, get_digest_by_diffid,
}
use beiran.Docker.Mappings.{get_layerdb_mappings, go_on, has_digest, list_digests}
use beiran.Docker.Mappings.{list_layer_dirs, map_chain_id, map_digest, map_digest_file}
use beiran.Docker.Mappings.{map_digest_files, map_layer_dir, map_layer_dirs, strip}
use beiran.Docker.Storage.{>>=-eq-raises, Storage, digest_path, done, layerdb_path, no_file}
use beiran.Docker.Storage.{no_index, no_index-no_file, no_key-no_file, or_raise, raises, under}
use beiran.ImageRef.{add_idpref, del_idpref}

module _ (D : Storage) where
  -- The digest is that of a file that holds the diff id, or docker's metadata of the diff id gives it.
  abbrev pub HasDigest : Text → Option Text → Type 0
  HasDigest diff_id digest =
      (get_digest_by_diffid D diff_id ≡ done digest)
      ⊎ ((f : Text) × (c : Text) × (digest ≡ some (add_idpref f))
          × (D.file (under D (digest_path D) f) ≡ some c)
          × (strip c ≡ diff_id))

  -- The chain id is that of a layer in the layer database, whose `diff` is the diff id.
  abbrev pub HasChainId : Text → Text → Type 0
  HasChainId diff_id chain_id =
      (f : Text) × (c : Text) × (chain_id ≡ add_idpref f)
      × (D.file (under D (under D (layerdb_path D) f) (codes "diff")) ≡ some c)
      × (strip c ≡ diff_id)

  pub record IsSourced (m : Mappings) : Type 0 where
    pub digests : (k : Text) (g : Option Text) → lookup k m.diffid_mapping ≡ some g → HasDigest k g
    pub chain_ids : (k c : Text) → lookup k m.layerdb_mapping ≡ some c → HasChainId k c

  pub insert_digest-IsSourced :
      (k : Text) (g : Option Text) (m : Mappings)
      → HasDigest k g
      → IsSourced m
      → IsSourced (record m { diffid_mapping = insert k g m.diffid_mapping })
  insert_digest-IsSourced k g m new h = record {
    digests = λ j f e. elim (Bool-cases (same k j)) [
      | inl own ↦
          let j_is : k ≡ j = (same_iff k j).0 own in
          let f_is : g ≡ f = ground (arith, lookup-insert j k g m.diffid_mapping) in
          coerce j f j_is f_is
      | inr other ↦ h.digests j f (ground (arith, lookup-insert j k g m.diffid_mapping))
    ];
    chain_ids = h.chain_ids;
  }
    where
      coerce : (j : Text) (f : Option Text) → k ≡ j → g ≡ f → HasDigest j f
      coerce j f p q = rw (sym p, sym q) new

  pub insert_chain_id-IsSourced :
      (k g : Text) (m : Mappings)
      → HasChainId k g
      → IsSourced m
      → IsSourced (record m { layerdb_mapping = insert k g m.layerdb_mapping })
  insert_chain_id-IsSourced k g m new h = record {
    digests = h.digests;
    chain_ids = λ j f e. elim (Bool-cases (same k j)) [
      | inl own ↦
          let j_is : k ≡ j = (same_iff k j).0 own in
          let f_is : g ≡ f = ground (arith, lookup-insert j k g m.layerdb_mapping) in
          coerce j f j_is f_is
      | inr other ↦ h.chain_ids j f (ground (arith, lookup-insert j k g m.layerdb_mapping))
    ];
  }
    where
      coerce : (j f : Text) → k ≡ j → g ≡ f → HasChainId j f
      coerce j f p q = rw (sym p, sym q) new

  map_digest-IsSourced :
      (f : Text) (m : Mappings) (o : Option Text)
      → D.file (under D (digest_path D) f) ≡ o
      → IsSourced m
      → IsSourced (map_digest D (add_idpref f) m o).0
  unfolding map_digest
  map_digest-IsSourced f m none e h = h
  map_digest-IsSourced f m (some c) e h =
      insert_digest-IsSourced (strip c) (some (add_idpref f)) m (inr (f, c, refl, e, refl)) h

  if-IsSourced :
      (b : Bool) (m : Mappings) (out : Mappings × Bool)
      → IsSourced m
      → IsSourced out.0
      → IsSourced (if b then (m, true) else out).0
  if-IsSourced true m out h k = h
  if-IsSourced false m out h k = k

  map_digest_file-IsSourced :
      (f : Text) (m : Mappings) → IsSourced m → IsSourced (map_digest_file D f m).0
  unfolding map_digest_file
  map_digest_file-IsSourced f m h =
      if-IsSourced (has_digest (add_idpref f) m.diffid_mapping) m _ h (
        if-IsSourced (D.isdir (under D (digest_path D) f)) m _ h
          (map_digest-IsSourced f m (D.file (under D (digest_path D) f)) refl h))

  map_chain_id-IsSourced :
      (f : Text) (m : Mappings) (o : Option Text)
      → D.file (under D (under D (layerdb_path D) f) (codes "diff")) ≡ o
      → IsSourced m
      → IsSourced (map_chain_id D (add_idpref f) m o).0
  unfolding map_chain_id
  map_chain_id-IsSourced f m none e h = h
  map_chain_id-IsSourced f m (some c) e h =
      insert_chain_id-IsSourced (strip c) (add_idpref f) m (f, c, refl, e, refl) h

  map_layer_dir-IsSourced :
      (f : Text) (m : Mappings) → IsSourced m → IsSourced (map_layer_dir D f m).0
  unfolding map_layer_dir
  map_layer_dir-IsSourced f m h =
      let dir = under D (layerdb_path D) f in
      if-IsSourced (member (add_idpref f) (values m.layerdb_mapping)) m _ h (
        if-IsSourced (not (D.isdir dir)) m _ h
          (map_chain_id-IsSourced f m (D.file (under D dir (codes "diff"))) refl h))

  go_on-IsSourced :
      (rest : Mappings → Mappings × Bool) (out : Mappings × Bool)
      → IsSourced out.0
      → ((m : Mappings) → IsSourced m → IsSourced (rest m).0)
      → IsSourced (go_on rest out).0
  unfolding go_on
  go_on-IsSourced rest (m, true) h k = k m h
  go_on-IsSourced rest (m, false) h k = h

  map_digest_files-IsSourced :
      (fs : List Text) (m : Mappings) → IsSourced m → IsSourced (map_digest_files D fs m).0
  unfolding map_digest_files
  map_digest_files-IsSourced [] m h = h
  map_digest_files-IsSourced (f ∷ fs) m h =
      go_on-IsSourced (λ n. map_digest_files D fs n) (map_digest_file D f m)
        (map_digest_file-IsSourced f m h) (λ n k. map_digest_files-IsSourced fs n k)

  map_layer_dirs-IsSourced :
      (fs : List Text) (m : Mappings) → IsSourced m → IsSourced (map_layer_dirs D fs m).0
  unfolding map_layer_dirs
  map_layer_dirs-IsSourced [] m h = h
  map_layer_dirs-IsSourced (f ∷ fs) m h =
      go_on-IsSourced (λ n. map_layer_dirs D fs n) (map_layer_dir D f m)
        (map_layer_dir-IsSourced f m h) (λ n k. map_layer_dirs-IsSourced fs n k)

  pub get_diffid_mappings-IsSourced :
      (m : Mappings) → IsSourced m → IsSourced (get_diffid_mappings D m).0
  unfolding get_diffid_mappings
  get_diffid_mappings-IsSourced m h = go (D.listdir (digest_path D))
    where
      go : (o : Option (List Text)) → IsSourced (list_digests D o m).0
      go none = h
      go (some fs) = map_digest_files-IsSourced fs m h

  pub get_layerdb_mappings-IsSourced :
      (m : Mappings) → IsSourced m → IsSourced (get_layerdb_mappings D m).0
  unfolding get_layerdb_mappings
  get_layerdb_mappings-IsSourced m h = go (D.listdir (layerdb_path D))
    where
      go : (o : Option (List Text)) → IsSourced (list_layer_dirs D o m).0
      go none = h
      go (some fs) = map_layer_dirs-IsSourced fs m h

module _ (D : Storage) where
  -- `json.load` of an open file does not raise FileNotFoundError.
  abbrev pub ReadsJson : Type 0
  ReadsJson = (content : Text) → ¬ (D.json_load content ≡ raises no_file)

  module _ (json_reads : ReadsJson) where
    first_digest-no_file : (cs : List (Dict Text)) → ¬ (first_digest cs ≡ raises no_file)
    unfolding first_digest
    first_digest-no_file [] h = absurd cc
    first_digest-no_file (c ∷ cs) h = no_key-no_file _ h

    digest_of_file-no_file : (o : Option Text) → ¬ (digest_of_file D o ≡ raises no_file)
    unfolding digest_of_file
    digest_of_file-no_file none h = absurd cc
    digest_of_file-no_file (some content) h =
        elim (>>=-eq-raises (D.json_load content) _ no_file h) [
          | inl e ↦ json_reads content e
          | inr (entries, _, h1) ↦ elim (>>=-eq-raises (first_digest entries) _ no_file h1) [
            | inl e ↦ first_digest-no_file entries e
            | inr (digest, _, e) ↦ absurd cc
          ]
        ]

    pub get_digest_by_diffid-no_file :
        (diffid : Text) → ¬ (get_digest_by_diffid D diffid ≡ raises no_file)
    unfolding get_digest_by_diffid
    get_digest_by_diffid-no_file diffid h =
        elim (>>=-eq-raises (or_raise no_index (del_idpref diffid)) _ no_file h) [
          | inl e ↦ no_index-no_file _ e
          | inr (name, _, e) ↦ digest_of_file-no_file _ e
        ]
