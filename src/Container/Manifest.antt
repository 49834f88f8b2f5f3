-- ===== src/Container/Manifest.antt =====
-- plugins/beiran_package_container/container.py: which handler gets the manifest of an image
-- (create_or_download_config, fetch_manifest_list).
pub mod Cases
pub mod Dispatch
mod Tests
use beiran.Base.{List, Option, Text, [], codes, if◌then◌else◌, join, none, same, some, true, ℕ}
use beiran.Base.{◌&&◌, ◌==◌, ◌∷◌}
use beiran.Base.Dict.{Dict, lookup, values}
use beiran.Container.Registry.{Login, Pull, Registry, failed, fetch_image_manifest}
use beiran.Container.Registry.{manifest_failed, no_key, no_type_match, pulled, then_pull}
use beiran.ImageRef.{Ref, add_idpref, normalize_ref}

pub record Platform : Type 0 where
  pub architecture : Text
  pub os : Text
  pub platform_digest : Text

-- What the dispatch reads of a manifest; `media_type` is `none` where the key is missing.
pub record Manifest : Type 0 where
  pub schema_version : ℕ
  pub media_type : Option Text
  pub manifests : List Platform

-- `schema_v2_header`, a dict of media types.
abbrev pub SchemaHeader : Type 0
SchemaHeader = Dict Text

abbrev pub join_schema : SchemaHeader → Text
join_schema schema_v2_header = join (codes ", ") (values schema_v2_header)

-- `schema_v2_header[key]`
pub media_of : Option Text → Pull Text
media_of none = failed no_key
media_of (some t) = pulled t

-- `config_json_str`, `config_digest` and `repo_digest`
abbrev pub Config : Type 0
Config = Text × Text × Text

-- The machine (`arch` is `none` if `platform.machine()` is not in the mapping), `json.dumps` with the
-- digest of SHA-256, and the handlers of the two schemas.
pub record Puller : Type 0 where
  pub registry : Registry Manifest
  pub go_arch : Option Text
  pub go_os : Text
  pub dumps : Manifest → Text
  pub hexdigest : Text → Text
  pub fetch_config_schema_v1 : Ref → Manifest → Pull Config
  pub fetch_config_schema_v2 : Ref → Manifest → Pull Config

-- The loop over `manifestlist['manifests']`.
pub find_platform : Option Text → Text → List Platform → Pull Text
find_platform arch os [] = failed manifest_failed
find_platform none os (p ∷ ps) = failed no_key
find_platform (some arch) os (p ∷ ps) =
    let rest = find_platform (some arch) os ps in
    if same p.architecture arch && same p.os os then pulled p.platform_digest else rest

abbrev pub no_login : Login
no_login = (none, none)

module _ (P : Puller) (header : SchemaHeader) where
  fetch : Ref → Text → Pull Manifest
  fetch ref tag_or_digest =
      fetch_image_manifest P.registry no_login ref.domain ref.repo tag_or_digest
        (join_schema header)

  -- The formatting of a text by `%d` is a TypeError.
  platform_media : Ref → Manifest → Option Text → Pull Config
  platform_media ref m none = failed no_key
  platform_media ref m (some t) =
      then_pull (media_of (lookup (codes "manifest") header))
        (λ v. if same t v then P.fetch_config_schema_v2 ref m else failed no_type_match)

  pull_platform : Ref → Manifest → Pull Config
  pull_platform ref m =
      if m.schema_version == 1
      then P.fetch_config_schema_v1 ref m
      else if m.schema_version == 2
      then platform_media ref m m.media_type
      else failed manifest_failed

  of_list : Manifest → Config → Pull Config
  of_list list (config_json_str, config_digest, _) =
      pulled (config_json_str, config_digest, add_idpref (P.hexdigest (P.dumps list)))

  unfoldable pub fetch_manifest_list : Ref → Manifest → Pull Config
  unfolding find_platform fetch media_of platform_media pull_platform of_list
  fetch_manifest_list ref list =
      then_pull
        (then_pull (find_platform P.go_arch P.go_os list.manifests)
          (λ manifest_digest. then_pull (fetch ref manifest_digest) (pull_platform ref)))
        (of_list list)

  list_media : Ref → Manifest → Text → Pull Config
  list_media ref m t =
      then_pull (media_of (lookup (codes "manifest-list") header))
        (λ v. if same t v then fetch_manifest_list ref m else failed no_type_match)

  image_media : Ref → Manifest → Option Text → Pull Config
  image_media ref m none = failed no_key
  image_media ref m (some t) =
      then_pull (media_of (lookup (codes "manifest") header))
        (λ v. if same t v then P.fetch_config_schema_v2 ref m else list_media ref m t)

  pull_image : Ref → Manifest → Pull Config
  pull_image ref m =
      if m.schema_version == 1
      then P.fetch_config_schema_v1 ref m
      else if m.schema_version == 2
      then image_media ref m m.media_type
      else failed manifest_failed

  unfoldable pub create_or_download_config : Text → Pull Config
  unfolding media_of list_media image_media pull_image fetch
  create_or_download_config tag =
      let ref = normalize_ref true tag in then_pull (fetch ref ref.suffix) (pull_image ref)
