-- ===== src/Container/Digests/Addressed.antt =====
-- get_layer_diffid of plugins/beiran_package_container/container.py gives the digest of a file.
use beiran.Base.{Bool, List, Option, Text, [], ap, append-nil, append_assoc, arith, codes, false}
use beiran.Base.{if◌then◌else◌, length, none, refl, same, same_refl, some, suc, sym, take, true}
use beiran.Base.{zero, ℕ, ◌++◌, ◌<◌, ◌∙◌, ◌∷◌, ◌≡◌, ◌≤◌}
use beiran.Base.Dict.{erase, insert, lookup, lookup-insert}
use beiran.Container.Chain.{Mappings}
use beiran.Container.Digests.{Digested, Hasher, bad_gzip, chunk_size, concat, copy_chunks}
use beiran.Container.Digests.{decompress_gz_layer, digested, drop, get_layer_diffid, hash_chunks}
use beiran.Container.Digests.{hash_file, hashed, keep_layer, move_layer, no_fuel, no_layer_file}
use beiran.Container.Digests.{no_path, not_had, of_had, of_storage, prefixed, unbound, undigested}
use beiran.Container.Digests.{unzip_file, unzip_layer, unzip_to}
use beiran.Container.Layers.{Had, Job, Source, ensure_having_layer, get_layer_tar_file, had}
use beiran.Container.Layers.{lacks}
use beiran.Container.Registry.{Login}
use beiran.ImageRef.{Ref, add_idpref}

take-drop : (n : ℕ) (s : Text) → take n s ++ drop n s ≡ s
take-drop zero s = refl
take-drop (suc n) [] = refl
take-drop (suc n) (c ∷ s) = ap (λ r. c ∷ r) (take-drop n s)

length-drop : (n : ℕ) (s : Text) → length (drop n s) ≤ length s
length-drop zero s = omega arith
length-drop (suc n) [] = omega arith
length-drop (suc n) (c ∷ s) = omega (arith, length-drop n s)

-- A chunk is not empty, so the rest is shorter.
shorter : (c : ℕ) (s : Text) (n : ℕ) → length (drop (suc n) (c ∷ s)) ≤ length s
shorter c s n = length-drop n s

regroup : (fed s : Text) → (fed ++ take chunk_size s) ++ drop chunk_size s ≡ fed ++ s
regroup fed s =
    append_assoc fed (take chunk_size s) (drop chunk_size s)
    ∙ ap (λ r. fed ++ r) (take-drop chunk_size s)

hash_chunks-append :
    (fuel : ℕ) (fed rest : Text)
    → length rest < fuel
    → hash_chunks fuel fed rest ≡ some (fed ++ rest)
unfolding hash_chunks
hash_chunks-append zero fed rest h = absurd (omega arith)
hash_chunks-append (suc fuel) fed [] h = ap some (sym (append-nil fed))
hash_chunks-append (suc fuel) fed (c ∷ s) h =
    hash_chunks-append fuel (fed ++ take chunk_size (c ∷ s)) (drop chunk_size (c ∷ s))
      (omega (arith, shorter c s 131071))
    ∙ ap some (regroup fed (c ∷ s))

copy_chunks-append :
    (fuel : ℕ) (fed tarf rest : Text)
    → length rest < fuel
    → copy_chunks fuel fed tarf rest ≡ some (fed ++ rest, tarf ++ rest)
unfolding copy_chunks
copy_chunks-append zero fed tarf rest h = absurd (omega arith)
copy_chunks-append (suc fuel) fed tarf [] h = rw (append-nil fed, append-nil tarf) refl
copy_chunks-append (suc fuel) fed tarf (c ∷ s) h =
    copy_chunks-append fuel (fed ++ take chunk_size (c ∷ s)) (tarf ++ take chunk_size (c ∷ s))
      (drop chunk_size (c ∷ s)) (omega (arith, shorter c s 131071))
    ∙ (rw (regroup fed (c ∷ s), regroup tarf (c ∷ s)) refl)

module _ (H : Hasher) (S : Source) where
  -- A file has the bytes of which the diff id is the digest, and the loops did not run out of fuel.
  abbrev pub IsAddressed : Job × Digested Text → Type 0
  IsAddressed (j, digested id) =
      (path : Text) × (chunks : List Text) × (lookup path j.files ≡ some chunks)
      × (id ≡ add_idpref (H.hexdigest (concat chunks)))
  IsAddressed (j, undigested no_fuel) = ⊥
  IsAddressed (j, undigested (not_had e)) = Unit
  IsAddressed (j, undigested no_layer_file) = Unit
  IsAddressed (j, undigested bad_gzip) = Unit
  IsAddressed (j, undigested unbound) = Unit
  IsAddressed (j, undigested no_path) = Unit

  hash_file-IsAddressed :
      (path : Text) (j : Job) (o : Option (List Text))
      → lookup path j.files ≡ o
      → IsAddressed (prefixed H S (j, hash_file H S o))
  unfolding hash_file prefixed hashed
  hash_file-IsAddressed path j none e = tt
  hash_file-IsAddressed path j (some chunks) e =
      let all_fed =
        hash_chunks-append (suc (length (concat chunks))) [] (concat chunks) (omega arith) in
      rw (all_fed) (path, chunks, e, refl)

  concat-one : (s : Text) → concat (s ∷ []) ≡ s
  unfolding concat
  concat-one s = append-nil s

  unzip_layer-IsAddressed :
      (tmp_file : Text) (j : Job) (o : Option Text)
      → IsAddressed (prefixed H S (unzip_layer H S tmp_file j o))
  unfolding unzip_layer keep_layer move_layer prefixed
  unzip_layer-IsAddressed tmp_file j none = tt
  unzip_layer-IsAddressed tmp_file j (some contents) =
      let copied = copy_chunks-append (suc (length contents)) [] [] contents (omega arith) in
      rw (copied) (go (get_layer_tar_file S (H.hexdigest contents)))
    where
      kept : Job
      kept = record j { files = insert tmp_file (contents ∷ []) j.files }

      go :
          (o : Option Text)
          → IsAddressed
              (prefixed H S (move_layer H S (H.hexdigest contents) tmp_file contents kept o))
      go none = tt
      go (some path) = (
        path,
        contents ∷ [],
        rw (lookup-insert path path (contents ∷ []) (erase tmp_file kept.files), same_refl) refl,
        rw (concat-one contents) refl,
      )

  unzip_file-IsAddressed :
      (tmp_file : Text) (j : Job) (o : Option (List Text))
      → IsAddressed (prefixed H S (unzip_file H S tmp_file j o))
  unfolding unzip_file prefixed
  unzip_file-IsAddressed tmp_file j none = tt
  unzip_file-IsAddressed tmp_file j (some chunks) =
      unzip_layer-IsAddressed tmp_file j (H.gunzip (concat chunks))

  decompress-IsAddressed :
      (gzip_file : Text) (j : Job)
      → IsAddressed (prefixed H S (decompress_gz_layer H S gzip_file j))
  unfolding decompress_gz_layer
  decompress-IsAddressed gzip_file j = go (get_layer_tar_file S H.temporary)
    where
      go : (o : Option Text) → IsAddressed (prefixed H S (unzip_to H S gzip_file j o))
      go none = unfold prefixed in tt
      go (some tmp_file) = unzip_file-IsAddressed tmp_file j (lookup gzip_file j.files)

  if-IsAddressed :
      (b : Bool) (x y : Job × Digested Text)
      → IsAddressed x
      → IsAddressed y
      → IsAddressed (if b then x else y)
  if-IsAddressed true x y h k = h
  if-IsAddressed false x y h k = k

  of_had-IsAddressed : (r : Job × Had (Text × Text)) → IsAddressed (of_had H S r)
  unfolding of_had of_storage
  of_had-IsAddressed (j, lacks e) = tt
  of_had-IsAddressed (j, had (storage, path)) =
      if-IsAddressed (same storage (codes "cache")) _ _
        (hash_file-IsAddressed path j (lookup path j.files) refl)
        (if-IsAddressed (same storage (codes "cache-gz")) _ _ (decompress-IsAddressed path j) tt)

  -- If get_layer_diffid returns a diff id, there is a file afterwards of whose bytes it is the digest;
  -- its loops over the chunks of a file end.
  pub get_layer_diffid-IsAddressed :
      (login : Login) (ref : Ref) (digest : Text) (m : Mappings) (j : Job)
      → IsAddressed (get_layer_diffid H S login ref digest m j)
  unfolding get_layer_diffid
  get_layer_diffid-IsAddressed login ref digest m j =
      of_had-IsAddressed (ensure_having_layer S login ref digest m j)
