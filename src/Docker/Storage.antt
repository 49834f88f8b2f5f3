-- ===== src/Docker/Storage.antt =====
-- plugins/beiran_interface_docker/util.py: what DockerUtil reads from the storage of docker.
-- The files are an argument: their contents, the listings of the directories, which paths exist, and
-- what the JSON parser reads.
-- The path of the storage is taken without braces, so `format` fills in the one name.
pub mod Found
use beiran.Base.{
  Bool, List, Option, Text, [], codes, false, if◌then◌else◌, inl, inr, none, refl, same,
}
use beiran.Base.{some, true, ◌++◌, ◌==◌, ◌∷◌, ◌≡◌, ◌⊎◌}
use beiran.Base.Dict.{Dict}
use beiran.ImageRef.{del_idpref}

-- The exceptions; `no_file` is FileNotFoundError, `no_key` KeyError, `no_index` IndexError,
-- `bad_number` and `no_value` ValueError, `bad_json` JSONDecodeError, `no_attribute` AttributeError,
-- `no_node` and `no_image` DoesNotExist, and `daemon_failed` aiodocker's DockerError.
pub data DockerError : Type 0 where
  no_file no_key no_index bad_number bad_json no_attribute no_value : DockerError
  no_node no_image daemon_failed : DockerError
  cannot_find_layer_mapping layer_not_found layer_metadata_not_found : DockerError

pub data Outcome (A : Type 0) : Type 0 where
  done : A → Outcome A
  raises : DockerError → Outcome A

infixl 5 ◌>>=◌
abbrev pub ◌>>=◌ : {A B : Type 0} → Outcome A → (A → Outcome B) → Outcome B
done a >>= f = f a
raises e >>= f = raises e

abbrev pub or_raise : {A : Type 0} → DockerError → Option A → Outcome A
or_raise e none = raises e
or_raise e (some a) = done a

pub >>=-eq-done :
    {A B : Type 0} (m : Outcome A) (f : A → Outcome B) {b : B}
    → (m >>= f) ≡ done b
    → (a : A) × (m ≡ done a) × (f a ≡ done b)
>>=-eq-done (done a) f h = (a, refl, h)
>>=-eq-done (raises e) f h = cc

pub >>=-eq-raises :
    {A B : Type 0} (m : Outcome A) (f : A → Outcome B) (e : DockerError)
    → (m >>= f) ≡ raises e
    → (m ≡ raises e) ⊎ ((a : A) × (m ≡ done a) × (f a ≡ raises e))
>>=-eq-raises (done a) f e h = inr (a, refl, h)
>>=-eq-raises (raises k) f e h = inl cc

pub no_index-no_file : {A : Type 0} (o : Option A) → or_raise no_index o ≡ raises no_file → ⊥
no_index-no_file none h = absurd cc
no_index-no_file (some b) h = absurd cc

pub no_key-no_file : {A : Type 0} (o : Option A) → or_raise no_key o ≡ raises no_file → ⊥
no_key-no_file none h = absurd cc
no_key-no_file (some b) h = absurd cc

pub record Storage : Type 0 where
  pub storage : Text
  pub file : Text → Option Text
  pub exists : Text → Bool
  pub listdir : Text → Option (List Text)
  pub isdir : Text → Bool
  pub json_load : Text → Outcome (List (Dict Text))

-- `chain_id.replace(':', '/')`
abbrev pub replace_colons : Text → Text
replace_colons [] = []
replace_colons (c ∷ s) = (if c == b':' then b'/' else c) ∷ replace_colons s

module _ (D : Storage) where
  abbrev pub digest_path : Text
  digest_path = D.storage ++ codes "/image/overlay2/distribution/diffid-by-digest/sha256"

  abbrev pub v2metadata_path : Text
  v2metadata_path = D.storage ++ codes "/image/overlay2/distribution/v2metadata-by-diffid/sha256"

  abbrev pub layerdb_path : Text
  layerdb_path = D.storage ++ codes "/image/overlay2/layerdb/sha256"

  abbrev pub layerdir_path : Text → Text
  layerdir_path layer_dir_name =
      D.storage ++ (codes "/overlay2/" ++ (layer_dir_name ++ codes "/diff"))

  abbrev pub config_path : Text
  config_path = D.storage ++ codes "/image/overlay2/imagedb/content/sha256"

  -- The path of a file in a directory, joined by a slash.
  abbrev pub under : Text → Text → Text
  under dir name = dir ++ (b'/' ∷ name)

  abbrev pub read : Text → Outcome Text
  read path = or_raise no_file (D.file path)

  abbrev pub cache_id_file : Text → Text
  cache_id_file chain_id =
      D.storage
      ++ (codes "/image/overlay2/layerdb/" ++ (replace_colons chain_id ++ codes "/cache-id"))

  unfoldable pub get_cache_id_from_chain_id : Text → Outcome Text
  get_cache_id_from_chain_id chain_id = read (cache_id_file chain_id)

  abbrev diff_path : Text → Text
  diff_path layer_dir_name = under (under layerdb_path layer_dir_name) (codes "diff")

  abbrev cache_id_path : Text → Text
  cache_id_path diff_file_name = under (under layerdb_path diff_file_name) (codes "cache-id")

  -- The loop over the layer database: the directory whose `diff` is the given one, or the empty text.
  find_diff : Text → List Text → Outcome Text
  find_diff diff_1 [] = done []
  find_diff diff_1 (layer_dir_name ∷ names) = elim (D.file (diff_path layer_dir_name)) [
    | none ↦ raises no_file
    | some diff_2 ↦ elim (same diff_2 diff_1) [
      | true ↦ done layer_dir_name
      | false ↦ find_diff diff_1 names
    ]
  ]

  find_layer_dir : Option Text → Outcome (Option Text)
  find_layer_dir none = done none
  find_layer_dir (some diff_1) = do
    names ← or_raise no_file (D.listdir layerdb_path)
    diff_file_name ← find_diff diff_1 names
    cache_id ← read (cache_id_path diff_file_name)
    done (some (layerdir_path cache_id))

  unfoldable pub docker_find_layer_dir_by_digest : Text → Outcome (Option Text)
  unfolding find_layer_dir find_diff
  docker_find_layer_dir_by_digest digest = do
    name ← or_raise no_index (del_idpref digest)
    find_layer_dir (D.file (under digest_path name))
