-- ===== src/Container/Layers/Tests.antt =====
-- A layer that is downloaded, and one whose download fails.
use beiran.Base.{[], codes, none, pos, refl, same, some, split_text, starts_with, true, ℕ, ◌∷◌}
use beiran.Base.{◌≡◌, ◌⊎◌}
use beiran.Base.Dict.{insert, lookup}
use beiran.Container.Chain.{Mappings, get_diffid_by_digest}
use beiran.Container.Layers.{Job, Source, dl_init, download_layer_from_origin}
use beiran.Container.Layers.{ensure_having_layer, had, is_some, lacks, layer_download_failed}
use beiran.Container.Layers.Cached.{ensure_having_layer_lem}
use beiran.Container.Registry.{Login, Response, get_auth_requirements}
use beiran.Http.{answered, async_req, async_write_file_stream}
use beiran.ImageRef.{Ref, del_idpref}
use beiran.Subpath.{int}

abbrev granting : Response
granting = record { status = 200; www_authenticate = none }

-- The registry answers the download with the status that is given.
abbrev source : ℕ → Source
source download_status = record {
  layer_tar_path = codes "/c/tar";
  layer_gz_path = codes "/c/gz";
  origin = record {
    heads = λ u. answered [] granting ∷ [];
    gets = λ u req accept. [];
    token = λ h. none;
    b64encode = λ s. s;
  };
  sizes = λ u req. answered [] (some (codes "3")) ∷ [];
  streams = λ u req. answered (codes "abc" ∷ []) download_status ∷ [];
  ensure_layer_func = λ g. ([], []);
}

abbrev no_login : Login
no_login = (none, none)

abbrev ref : Ref
ref = record { domain = codes "r.io"; repo = codes "a"; sign = codes ":"; suffix = codes "latest" }

abbrev mappings : Mappings
mappings = record {
  diffid_mapping = (codes "sha256:d", codes "sha256:g") ∷ [];
  layerdb_mapping = [];
}

abbrev idle : Job
idle = record { files = []; layer_status = dl_init; size = pos 0; queue = [] }

ensure_having_layer_lem_example :
    (is_some (
        lookup
          (codes "/c/gz/g.tar.gz")
          (ensure_having_layer (source 200) no_login ref (codes "sha256:g") mappings idle).0.files)
      ≡ true)
    ⊎ ((source 200).ensure_layer_func (codes "sha256:g")
        ≡ (codes "cache-gz", codes "/c/gz/g.tar.gz"))
unfolding ensure_having_layer download_layer_from_origin get_diffid_by_digest del_idpref async_req
    async_write_file_stream split_text starts_with same lookup is_some int get_auth_requirements
ensure_having_layer_lem_example =
    ensure_having_layer_lem (source 200) no_login ref (codes "sha256:g") mappings idle
      (codes "cache-gz") (codes "/c/gz/g.tar.gz") refl

-- A download that is answered with status 500 raises, but leaves the body at the path, where the next
-- call takes it for the layer.
failed_then_cached :
    let (j, r) = ensure_having_layer (source 500) no_login ref (codes "sha256:g") mappings idle in
    (r ≡ lacks (layer_download_failed 500))
    × ((ensure_having_layer (source 500) no_login ref (codes "sha256:g") mappings j).1
        ≡ had (codes "cache-gz", codes "/c/gz/g.tar.gz"))
unfolding ensure_having_layer download_layer_from_origin get_diffid_by_digest del_idpref async_req
    async_write_file_stream split_text starts_with same lookup is_some int get_auth_requirements
    insert
failed_then_cached = (refl, refl)
