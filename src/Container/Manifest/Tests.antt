-- ===== src/Container/Manifest/Tests.antt =====
-- An image for two machines.
use beiran.Base.{
  [], codes, has, if◌then◌else◌, join, none, not, refl, same, some, split, starts_with, ◌∷◌,
}
use beiran.Base.{true, ◌↔◌, ◌≡◌}
use beiran.Base.Dict.{lookup, values}
use beiran.Container.Manifest.{Manifest, Platform, Puller, SchemaHeader}
use beiran.Container.Manifest.{create_or_download_config, fetch_manifest_list}
use beiran.Container.Manifest.Dispatch.{IsConfigOfImage, Serves, create_or_download_config_iff}
use beiran.Container.Registry.{
  Response, failed, fetch_image_manifest, get_auth_requirements, no_key, pulled, request,
}
use beiran.Http.{answered, async_req}
use beiran.ImageRef.{add_idpref, is_domain, normalize_ref, split_name_suffix}

abbrev header : SchemaHeader
header =
    (codes "manifest", codes "m")
    ∷ (codes "manifest-list", codes "list")
    ∷ (codes "signed-manifest", codes "signed")
    ∷ (codes "type", codes "json")
    ∷ []

abbrev arm64 : Platform
arm64 = record {
  architecture = codes "arm64";
  os = codes "linux";
  platform_digest = codes "sha256:1";
}

abbrev amd64 : Platform
amd64 = record {
  architecture = codes "amd64";
  os = codes "linux";
  platform_digest = codes "sha256:2";
}

abbrev image_list : Manifest
image_list = record {
  schema_version = 2;
  media_type = some (codes "list");
  manifests = arm64 ∷ amd64 ∷ [];
}

abbrev image : Manifest
image = record { schema_version = 2; media_type = some (codes "m"); manifests = [] }

abbrev granting : Response
granting = record { status = 200; www_authenticate = none }

abbrev puller : Puller
puller = record {
  registry = record {
    heads = λ u. answered [] granting ∷ [];
    gets = λ u req accept.
        if not (same accept (codes "m, list, signed, json"))
        then []
        else if same u (codes "https://r.io/v2/a/manifests/latest")
        then answered [] (200, image_list) ∷ []
        else answered [] (200, image) ∷ [];
    token = λ h. none;
    b64encode = λ s. s;
  };
  go_arch = some (codes "amd64");
  go_os = codes "linux";
  dumps = λ m. codes "dump";
  hexdigest = λ s. b'h' ∷ s;
  fetch_config_schema_v1 = λ r m. failed no_key;
  fetch_config_schema_v2 = λ r m. pulled (codes "config", codes "digest", codes "repo");
}

create_or_download_config_iff_example :
    (create_or_download_config puller header (codes "r.io/a")
      ≡ pulled (codes "config", codes "digest", codes "sha256:hdump"))
    ↔ ((m : Manifest) × Serves puller header
          (normalize_ref true (codes "r.io/a"))
          (normalize_ref true (codes "r.io/a")).suffix
          m
        × IsConfigOfImage puller header
            (normalize_ref true (codes "r.io/a"))
            m
            (codes "config", codes "digest", codes "sha256:hdump"))
create_or_download_config_iff_example =
    create_or_download_config_iff puller header (codes "r.io/a")
      (codes "config", codes "digest", codes "sha256:hdump")

-- The config of the image for this machine, with the digest of the list.
create_or_download_config_list :
    create_or_download_config puller header (codes "r.io/a")
    ≡ pulled (codes "config", codes "digest", codes "sha256:hdump")
unfolding create_or_download_config fetch_manifest_list fetch_image_manifest request
    get_auth_requirements normalize_ref is_domain split has same async_req split_name_suffix
    add_idpref starts_with lookup values join
create_or_download_config_list = refl
