-- ===== src/ImageRef.antt =====
-- plugins/beiran_package_container/image_ref.py: references to container images.
pub mod Tagged
pub mod Canonical
pub mod Normalize
pub mod RoundTrip
pub mod Ids
mod Tests
use beiran.Base.{Bool, List, Option, Text, [], codes, get_elem?, has, if◌then◌else◌, init, join}
use beiran.Base.{last_or, none, not, same, some, split, split_text, starts_with, take, ℕ, ◌&&◌}
use beiran.Base.{◌++◌, ◌||◌, ◌∷◌}

abbrev pub default_domain : Text
default_domain = codes "docker.io"

abbrev pub default_index_domain : Text
default_index_domain = codes "index.docker.io"

abbrev pub official_repo : Text
official_repo = codes "library"

abbrev pub default_tag : Text
default_tag = codes "latest"

abbrev pub id_prefix : Text
id_prefix = codes "sha256:"

abbrev pub slash : ℕ
slash = b'/'

abbrev pub colon : ℕ
colon = b':'

abbrev pub at : ℕ
at = b'@'

-- The dictionary that `normalize_ref` returns.
pub record Ref : Type 0 where
  pub domain : Text
  pub repo : Text
  pub sign : Text
  pub suffix : Text

unfoldable pub is_domain : Text → Bool
unfolding has
is_domain s = has colon s || has b'.' s

unfoldable pub is_digest : Text → Bool
unfolding has
is_digest s = has at s

unfoldable pub is_tag : Text → Bool
unfolding has
is_tag s = has colon s && not (has at s)

-- The part of `split_name_suffix` below its first `if`. `str.split` never returns an empty list.
split_tag : List Text → Text × Text × Text
split_tag [] = ([], colon ∷ [], default_tag)
split_tag (name ∷ []) = (name, colon ∷ [], default_tag)
split_tag (name ∷ tag ∷ _) = (name, colon ∷ [], tag)

split_digest : Text → List Text → Text × Text × Text
split_digest s (name ∷ digest ∷ []) = (name, at ∷ [], digest)
split_digest s _ = split_tag (split colon s)

unfoldable pub split_name_suffix : Text → Text × Text × Text
unfolding split_digest split_tag
split_name_suffix s = split_digest s (split at s)

pub domain_of : Bool → Text
domain_of index = if index then default_index_domain else default_domain

-- The branches of `normalize_ref` on the number of components: the domain, `path_comp`, and the
-- component that holds the name and the suffix.
locate : Bool → List Text → Text × Text × Text
locate index [] = (domain_of index, official_repo, [])
locate index (name ∷ []) = (domain_of index, official_repo, name)
locate index (first ∷ name ∷ []) =
    if is_domain first
    then (first, (if same first default_domain then official_repo else []), name)
    else (domain_of index, first, name)
locate index (first ∷ second ∷ third ∷ rest) =
    let name = last_or third rest in
    if is_domain first
    then (first, join (slash ∷ []) (init (second ∷ third ∷ rest)), name)
    else (domain_of index, join (slash ∷ []) (init (first ∷ second ∷ third ∷ rest)), name)

pub repo_of : Text → Text → Text
repo_of [] name = name
repo_of path_comp name = path_comp ++ (slash ∷ name)

assemble : Text × Text × Text → Ref
assemble (domain, path_comp, component) =
    let (name, sign, suffix) = split_name_suffix component in
    record { domain = domain; repo = repo_of path_comp name; sign = sign; suffix = suffix }

unfoldable pub normalize_ref : Bool → Text → Ref
unfolding domain_of locate repo_of assemble
normalize_ref index ref = assemble (locate index (split slash ref))

unfoldable pub marshal : Text → Text → Text → Text → Text
marshal domain repo sign suffix = domain ++ (slash ∷ (repo ++ (sign ++ suffix)))

abbrev pub marshal_ref : Ref → Text
marshal_ref r = marshal r.domain r.repo r.sign r.suffix

unfoldable pub marshal_normalize_ref : Bool → Text → Text
marshal_normalize_ref index ref = marshal_ref (normalize_ref index ref)

unfoldable pub add_default_tag : Text → Text
unfolding has
add_default_tag name = if has colon name then name else name ++ (colon ∷ default_tag)

unfoldable pub add_idpref : Text → Text
unfolding starts_with
add_idpref id = if starts_with id id_prefix then id else id_prefix ++ id

-- `none` is the `IndexError` of `[1]`.
unfoldable pub del_idpref : Text → Option Text
unfolding starts_with
del_idpref id =
    if not (starts_with id id_prefix) then some id else get_elem? (split_text id_prefix id) 1

-- `none` is the `IndexError` of `[1]`.
unfoldable pub image_ref_summary : Text → Option Text
image_ref_summary sha = elim (get_elem? (split colon sha) 1) [
  | none ↦ none
  | some digest ↦ some (take 12 digest)
]
