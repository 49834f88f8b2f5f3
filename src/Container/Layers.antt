-- ===== src/Container/Layers.antt =====
-- plugins/beiran_package_container/container.py: how a layer gets to the cache (ensure_having_layer,
-- download_layer_from_origin, and the paths of its files).
pub mod Cached
mod Tests
use beiran.Base.{Bool, List, Option, Text, [], codes, false, if◌then◌else◌, is_nil, last_or, none}
use beiran.Base.{not, some, starts_with, true, ℕ, ℤ, ◌&&◌, ◌++◌, ◌==◌, ◌||◌, ◌∷◌}
use beiran.Base.Dict.{Dict, insert, lookup}
use beiran.Container.Chain.{Mappings, get_diffid_by_digest}
use beiran.Container.Registry.{Login, Pull, PullError, Registry, Response, blob_url, failed}
use beiran.Container.Registry.{get_auth_requirements, no_reply, pulled, retry}
use beiran.Http.{Reply, Sink, Try, async_req, async_write_file_stream, other_error, returned}
use beiran.Http.{timeout_error}
use beiran.ImageRef.{Ref, del_idpref}
use beiran.Subpath.{err, int, ok}

pub data LayerStatus : Type 0 where
  dl_init dl_already dl_tar_downloading dl_gz_downloading dl_finish : LayerStatus

-- The files by path, as the chunks they hold, and the entry of the layer in the queues of the job.
pub record Job : Type 0 where
  pub files : Dict (List Text)
  pub layer_status : LayerStatus
  pub size : ℤ
  pub queue : List (Option Text)

pub data LayerError : Type 0 where
  layer_download_failed : ℕ → LayerError
  not_requested : PullError → LayerError
  bad_size : LayerError
  not_mapped : LayerError
  no_id : LayerError

pub data Had (A : Type 0) : Type 0 where
  had : A → Had A
  lacks : LayerError → Had A

-- `os.path.join`
unfoldable pub path_join : Text → Text → Text
path_join a b =
    if starts_with b (b'/' ∷ [])
    then b
    else if last_or b'/' a == b'/'
    then a ++ b
    else a ++ (b'/' ∷ b)

-- The environment: the directories, the registry, the response to the second HEAD request (its
-- `content-length`), the tries of the download with their statuses, and `ensure_layer_func`.
pub record Source : Type 0 where
  pub layer_tar_path : Text
  pub layer_gz_path : Text
  pub origin : Registry Text
  pub sizes : Text → Text → List (Try (Option Text))
  pub streams : Text → Text → List (Try ℕ)
  pub ensure_layer_func : Text → Text × Text

join_id : Text → Text → Option Text → Option Text
join_id dir suffix none = none
join_id dir suffix (some id) = some (path_join dir (id ++ suffix))

module _ (S : Source) where
  unfoldable pub get_layer_tar_file : Text → Option Text
  unfolding join_id path_join
  get_layer_tar_file diff_id = join_id S.layer_tar_path (codes ".tar") (del_idpref diff_id)

  unfoldable pub get_layer_gz_file : Text → Option Text
  unfolding join_id path_join
  get_layer_gz_file layer = join_id S.layer_gz_path (codes ".tar.gz") (del_idpref layer)

unfoldable pub is_some : Option (List Text) → Bool
is_some none = false
is_some (some cs) = true

put_file : Text → Option (List Text) → Dict (List Text) → Dict (List Text)
put_file path none fs = fs
put_file path (some cs) fs = insert path cs fs

or_queue : Option (List (Option Text)) → List (Option Text) → List (Option Text)
or_queue none q = q
or_queue (some r) q = r

sink_of : Text → Job → Sink
sink_of path j = record { file = lookup path j.files; queue = some j.queue }

-- The download writes to the file while the queue of the layer is fed.
store_sink : Text → Sink → Job → Job
store_sink path s j = record j {
  files = put_file path s.file j.files;
  queue = or_queue s.queue j.queue;
}

finish : Reply ℕ → Job → Job × Had Text
finish timeout_error j = (j, lacks (not_requested no_reply))
finish other_error j = (j, lacks (not_requested no_reply))
finish (returned s) j =
    if s == 200
    then (record j { layer_status = dl_finish }, had [])
    else (j, lacks (layer_download_failed s))

write_layer : Text → List (Try ℕ) → Job → Job × Had Text
write_layer path tries j =
    let (reply, s) = async_write_file_stream retry tries (sink_of path j) in
    finish reply (store_sink path s j)

with_size : Text → List (Try ℕ) → Job → Option Text → Job × Had Text
with_size path tries j none = (j, lacks bad_size)
with_size path tries j (some t) = elim (int t) [
  | err e ↦ (j, lacks bad_size)
  | ok n ↦ write_layer path tries (record j { size = n; layer_status = dl_gz_downloading })
]

module _ (S : Source) (login : Login) where
  after_size : Text → Text → Text → Job → Reply (Option Text) → Job × Had Text
  after_size url path req j timeout_error = (j, lacks (not_requested no_reply))
  after_size url path req j other_error = (j, lacks (not_requested no_reply))
  after_size url path req j (returned length_header) =
      with_size path (S.streams url req) j length_header

  after_auth : Text → Text → Job → Pull Text → Job × Had Text
  after_auth url path j (failed e) = (j, lacks (not_requested e))
  after_auth url path j (pulled req) = after_size url path req j (async_req retry (S.sizes url req))

  after_head : Text → Text → Job → Reply Response → Job × Had Text
  after_head url path j timeout_error = (j, lacks (not_requested no_reply))
  after_head url path j other_error = (j, lacks (not_requested no_reply))
  after_head url path j (returned r) =
      if r.status == 401 || r.status == 200
      then (after_auth url path j (
          if r.status == 401
          then get_auth_requirements S.origin login r.www_authenticate
          else pulled []))
      else (j, lacks (layer_download_failed r.status))

  unfoldable pub download_layer_from_origin : Ref → Text → Text → Job → Job × Had Text
  unfolding put_file or_queue sink_of store_sink finish write_layer with_size after_size after_auth
      after_head
  download_layer_from_origin ref layer path j =
      let url = blob_url ref.domain ref.repo layer in
      after_head url path j (async_req retry (S.origin.heads url))

  -- The storage and the path of the layer.
  downloaded : Text → Job × Had Text → Job × Had (Text × Text)
  downloaded gz (j, had x) = (j, had (codes "cache-gz", gz))
  downloaded gz (j, lacks e) = (j, lacks e)

  or_download : Ref → Text → Text → Job → Text × Text → Job × Had (Text × Text)
  or_download ref layer gz j (storage, path) =
      if not (is_nil storage) && not (is_nil path)
      then (j, had (storage, path))
      else downloaded gz (download_layer_from_origin ref layer gz j)

  with_paths : Ref → Text → Job → Option Text → Option Text → Job × Had (Text × Text)
  with_paths ref layer j (some tar) (some gz) =
      if is_some (lookup tar j.files)
      then (j, had (codes "cache", tar))
      else if is_some (lookup gz j.files)
      then (j, had (codes "cache-gz", gz))
      else or_download ref layer gz j (S.ensure_layer_func layer)
  with_paths ref layer j _ _ = (j, lacks no_id)

  with_diff_id : Ref → Text → Job → Option Text → Job × Had (Text × Text)
  with_diff_id ref layer j none = (j, lacks not_mapped)
  with_diff_id ref layer j (some diff_id) =
      with_paths ref layer j (get_layer_tar_file S diff_id) (get_layer_gz_file S layer)

  unfoldable pub ensure_having_layer : Ref → Text → Mappings → Job → Job × Had (Text × Text)
  unfolding path_join join_id get_layer_tar_file get_layer_gz_file is_some downloaded or_download
      with_paths with_diff_id
  ensure_having_layer ref layer m j =
      with_diff_id ref layer j (get_diffid_by_digest layer m.diffid_mapping)
