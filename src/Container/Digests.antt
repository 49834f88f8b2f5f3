-- ===== src/Container/Digests.antt =====
-- plugins/beiran_package_container/container.py: the diff id of a layer (get_layer_diffid and
-- decompress_gz_layer).
-- A hash object is the bytes that it was fed, of which `hexdigest` is SHA-256. What `gzip` reads from a
-- file is a parameter, and so is the random name of the temporary file. The loops over the chunks run
-- on fuel, one more than there are bytes; `none` says that it ran out. What is left of the temporary
-- file when the compressed one is broken is left out.
pub mod Addressed
mod Tests
use beiran.Base.{List, Option, Text, [], codes, drop, if◌then◌else◌, is_nil, length, none, same}
use beiran.Base.{some, suc, take, zero, ℕ, ◌++◌, ◌∷◌}
use beiran.Base.Dict.{erase, insert, lookup}
use beiran.Container.Chain.{Mappings}
use beiran.Container.Layers.{Had, Job, LayerError, Source, ensure_having_layer}
use beiran.Container.Layers.{get_layer_tar_file, had, lacks}
use beiran.Container.Registry.{Login}
use beiran.ImageRef.{Ref, add_idpref}

-- `2048 * tmp_hash.block_size`
abbrev chunk_size : ℕ
chunk_size = 131072

unfoldable pub concat : List Text → Text
concat [] = []
concat (c ∷ cs) = c ++ concat cs

-- The loop over the chunks of a file: the bytes that the hash object was fed.
hash_chunks : ℕ → Text → Text → Option Text
hash_chunks zero fed rest = none
hash_chunks (suc fuel) fed rest =
    let next = hash_chunks fuel (fed ++ take chunk_size rest) (drop chunk_size rest) in
    if is_nil rest then some fed else next

-- The same with the file that is written.
copy_chunks : ℕ → Text → Text → Text → Option (Text × Text)
copy_chunks zero fed tarf rest = none
copy_chunks (suc fuel) fed tarf rest =
    let chunk = take chunk_size rest in
    let next = copy_chunks fuel (fed ++ chunk) (tarf ++ chunk) (drop chunk_size rest) in
    if is_nil rest then some (fed, tarf) else next

pub data DigestError : Type 0 where
  not_had : LayerError → DigestError
  no_layer_file bad_gzip unbound no_path no_fuel : DigestError

pub data Digested (A : Type 0) : Type 0 where
  digested : A → Digested A
  undigested : DigestError → Digested A

pub record Hasher : Type 0 where
  pub hexdigest : Text → Text
  pub gunzip : Text → Option Text
  -- `uuid.uuid4().hex`
  pub temporary : Text

module _ (H : Hasher) (S : Source) where
  -- `os.rename`, and the diff id.
  move_layer : Text → Text → Text → Job → Option Text → Job × Digested Text
  move_layer diff_id tmp_file tarf j none = (j, undigested no_path)
  move_layer diff_id tmp_file tarf j (some tar_layer_path) = (
    record j { files = insert tar_layer_path (tarf ∷ []) (erase tmp_file j.files) },
    digested diff_id,
  )

  keep_layer : Text → Job → Option (Text × Text) → Job × Digested Text
  keep_layer tmp_file j none = (j, undigested no_fuel)
  keep_layer tmp_file j (some (fed, tarf)) =
      let diff_id = H.hexdigest fed in
      move_layer diff_id tmp_file tarf (record j { files = insert tmp_file (tarf ∷ []) j.files })
        (get_layer_tar_file S diff_id)

  unzip_layer : Text → Job → Option Text → Job × Digested Text
  unzip_layer tmp_file j none = (j, undigested bad_gzip)
  unzip_layer tmp_file j (some contents) =
      keep_layer tmp_file j (copy_chunks (suc (length contents)) [] [] contents)

  unzip_file : Text → Job → Option (List Text) → Job × Digested Text
  unzip_file tmp_file j none = (j, undigested no_layer_file)
  unzip_file tmp_file j (some chunks) = unzip_layer tmp_file j (H.gunzip (concat chunks))

  unzip_to : Text → Job → Option Text → Job × Digested Text
  unzip_to gzip_file j none = (j, undigested no_path)
  unzip_to gzip_file j (some tmp_file) = unzip_file tmp_file j (lookup gzip_file j.files)

  unfoldable pub decompress_gz_layer : Text → Job → Job × Digested Text
  unfolding concat copy_chunks move_layer keep_layer unzip_layer unzip_file unzip_to
  decompress_gz_layer gzip_file j = unzip_to gzip_file j (get_layer_tar_file S H.temporary)

  hashed : Option Text → Digested Text
  hashed none = undigested no_fuel
  hashed (some fed) = digested (H.hexdigest fed)

  hash_file : Option (List Text) → Digested Text
  hash_file none = undigested no_layer_file
  hash_file (some chunks) =
      let contents = concat chunks in hashed (hash_chunks (suc (length contents)) [] contents)

  prefixed : Job × Digested Text → Job × Digested Text
  prefixed (j, digested diff_id) = (j, digested (add_idpref diff_id))
  prefixed (j, undigested e) = (j, undigested e)

  of_storage : Text → Text → Job → Job × Digested Text
  of_storage storage layer_path j =
      if same storage (codes "cache")
      then prefixed (j, hash_file (lookup layer_path j.files))
      else if same storage (codes "cache-gz")
      then prefixed (decompress_gz_layer layer_path j)
      else (j, undigested unbound)

  of_had : Job × Had (Text × Text) → Job × Digested Text
  of_had (j, lacks e) = (j, undigested (not_had e))
  of_had (j, had (storage, layer_path)) = of_storage storage layer_path j

  unfoldable pub get_layer_diffid : Login → Ref → Text → Mappings → Job → Job × Digested Text
  unfolding concat hash_chunks hashed hash_file prefixed of_storage of_had
  get_layer_diffid login ref digest m j = of_had (ensure_having_layer S login ref digest m j)
