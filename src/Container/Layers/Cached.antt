-- ===== src/Container/Layers/Cached.antt =====
-- The file of a layer after ensure_having_layer of plugins/beiran_package_container/container.py.
use beiran.Base.{Bool, List, Option, Text, [], ap, arith, codes, false, if◌then◌else◌, inl, inr}
use beiran.Base.{is_nil, none, not, refl, same_refl, some, suc, sym, true, zero, ℕ, ℤ, ◌&&◌, ◌==◌}
use beiran.Base.{◌||◌, ◌∙◌, ◌∷◌, ◌≡◌, ◌⊎◌}
use beiran.Base.Dict.{Dict, lookup, lookup-insert}
use beiran.Container.Chain.{Mappings, get_diffid_by_digest}
use beiran.Container.Layers.{Had, Job, Source, after_auth, after_head, after_size, bad_size}
use beiran.Container.Layers.{dl_finish, dl_gz_downloading, download_layer_from_origin, downloaded}
use beiran.Container.Layers.{ensure_having_layer, finish, get_layer_gz_file, get_layer_tar_file}
use beiran.Container.Layers.{had, is_some, lacks, layer_download_failed, or_download, put_file}
use beiran.Container.Layers.{sink_of, store_sink, with_diff_id, with_paths, with_size}
use beiran.Container.Layers.{write_layer}
use beiran.Container.Registry.{Login, Pull, Response, blob_url, failed, get_auth_requirements}
use beiran.Container.Registry.{pulled, retry}
use beiran.Http.{Reply, Sink, Try, after_try, answered, async_req, async_write_file_stream}
use beiran.Http.{broken, no_response, other_error, put_all, refused, returned, stalled}
use beiran.Http.{timeout_error, write_chunks}
use beiran.ImageRef.{Ref}
use beiran.Subpath.{Result, err, int, ok}

module _ {R : Type 0} where
  stream_step :
      (t : Try R) (s : Sink) (next : Sink → Reply R × Sink) (r : R)
      → ((q : Sink) → (next q).0 ≡ returned r → is_some (next q).1.file ≡ true)
      → (after_try t s next).0 ≡ returned r
      → is_some (after_try t s next).1.file ≡ true
  unfolding after_try write_chunks put_all is_some
  stream_step no_response s next r h e = h s e
  stream_step refused s next r h e = absurd (ground arith)
  stream_step (stalled cs) s next r h e = h (write_chunks cs s) e
  stream_step (broken cs) s next r h e = absurd (ground arith)
  stream_step (answered cs a) s next r h e = refl

  stream_file :
      (n : ℕ) (tries : List (Try R)) (s : Sink) (r : R)
      → (async_write_file_stream n tries s).0 ≡ returned r
      → is_some (async_write_file_stream n tries s).1.file ≡ true
  unfolding async_write_file_stream
  stream_file zero ts s r e = absurd (ground arith)
  stream_file (suc n) [] s r e = stream_file n [] s r e
  stream_file (suc n) (t ∷ ts) s r e =
      stream_step t s (async_write_file_stream n ts) r (λ q. stream_file n ts q r) e

lookup-put_file :
    (path : Text) (f : Option (List Text)) (fs : Dict (List Text))
    → is_some f ≡ true
    → is_some (lookup path (put_file path f fs)) ≡ true
unfolding is_some put_file
lookup-put_file path none fs h = absurd (ground arith)
lookup-put_file path (some cs) fs h = rw (lookup-insert path path cs fs, same_refl path) refl

-- Whether the layer was had, with its file at the path.
abbrev Leaves : Text → Job × Had Text → Type 0
Leaves path r = (x : Text) → r.1 ≡ had x → is_some (lookup path r.0.files) ≡ true

finish-Leaves :
    (path : Text) (reply : Reply ℕ) (s : Sink) (j : Job)
    → ((r : ℕ) → reply ≡ returned r → is_some s.file ≡ true)
    → Leaves path (finish reply (store_sink path s j))
unfolding finish store_sink
finish-Leaves path timeout_error s j h = λ x e. absurd (ground arith)
finish-Leaves path other_error s j h = λ x e. absurd (ground arith)
finish-Leaves path (returned r) s j h = go (r == 200)
  where
    go :
        (fine : Bool)
        → Leaves path (
            if fine
            then (record (store_sink path s j) { layer_status = dl_finish }, had [])
            else (store_sink path s j, lacks (layer_download_failed r)))
    go true = λ x e. lookup-put_file path s.file j.files (h r refl)
    go false = λ x e. absurd (ground arith)

write_layer-Leaves :
    (path : Text) (tries : List (Try ℕ)) (j : Job) → Leaves path (write_layer path tries j)
unfolding write_layer
write_layer-Leaves path ts j =
    let out = async_write_file_stream retry ts (sink_of path j) in
    finish-Leaves path out.0 out.1 j (stream_file retry ts (sink_of path j))

with_size-Leaves :
    (path : Text) (ts : List (Try ℕ)) (j : Job) (o : Option Text)
    → Leaves path (with_size path ts j o)
unfolding with_size
with_size-Leaves path ts j none = λ x e. absurd (ground arith)
with_size-Leaves path ts j (some t) = go (int t)
  where
    go :
        (r : Result ℤ)
        → Leaves path (elim r [
          | err e ↦ (j, lacks bad_size)
          | ok n ↦ write_layer path ts (record j { size = n; layer_status = dl_gz_downloading })
        ])
    go (err k) = λ x e. absurd (ground arith)
    go (ok n) = write_layer-Leaves path ts (record j { size = n; layer_status = dl_gz_downloading })

pair_of : Had (Text × Text) → Text × Text
pair_of (had p) = p
pair_of (lacks e) = ([], [])

path_of : Had (Text × Text) → Text
unfolding pair_of
path_of r = (pair_of r).1

there :
    (p path : Text) (j : Job)
    → p ≡ path
    → is_some (lookup p j.files) ≡ true
    → is_some (lookup path j.files) ≡ true
there p path j e h = ap (λ x. is_some (lookup x j.files)) (sym e) ∙ h

module _ (S : Source) (login : Login) where
  after_size-Leaves :
      (url path req : Text) (j : Job) (r : Reply (Option Text))
      → Leaves path (after_size S login url path req j r)
  unfolding after_size
  after_size-Leaves url path req j timeout_error = λ x e. absurd (ground arith)
  after_size-Leaves url path req j other_error = λ x e. absurd (ground arith)
  after_size-Leaves url path req j (returned o) = with_size-Leaves path (S.streams url req) j o

  after_auth-Leaves :
      (url path : Text) (j : Job) (p : Pull Text) → Leaves path (after_auth S login url path j p)
  unfolding after_auth
  after_auth-Leaves url path j (failed k) = λ x e. absurd (ground arith)
  after_auth-Leaves url path j (pulled req) =
      after_size-Leaves url path req j (async_req retry (S.sizes url req))

  after_head-Leaves :
      (url path : Text) (j : Job) (r : Reply Response)
      → Leaves path (after_head S login url path j r)
  unfolding after_head
  after_head-Leaves url path j timeout_error = λ x e. absurd (ground arith)
  after_head-Leaves url path j other_error = λ x e. absurd (ground arith)
  after_head-Leaves url path j (returned r) = go (r.status == 401 || r.status == 200)
    where
      go :
          (b : Bool)
          → Leaves path (
              if b
              then (after_auth S login url path j (
                  if r.status == 401
                  then get_auth_requirements S.origin login r.www_authenticate
                  else pulled []))
              else (j, lacks (layer_download_failed r.status)))
      go true = after_auth-Leaves url path j _
      go false = λ x e. absurd (ground arith)

  download-Leaves :
      (ref : Ref) (layer path : Text) (j : Job)
      → Leaves path (download_layer_from_origin S login ref layer path j)
  unfolding download_layer_from_origin
  download-Leaves ref layer path j =
      let url = blob_url ref.domain ref.repo layer in
      after_head-Leaves url path j (async_req retry (S.origin.heads url))

  -- What the layer is had from: a file that is there, or the storage of the caller.
  abbrev IsHad : Text → Job × Had (Text × Text) → Type 0
  IsHad layer r =
      (storage path : Text)
      → r.1 ≡ had (storage, path)
      → (is_some (lookup path r.0.files) ≡ true) ⊎ (S.ensure_layer_func layer ≡ (storage, path))

  downloaded-IsHad :
      (layer gz : Text) (r : Job × Had Text) → Leaves gz r → IsHad layer (downloaded S login gz r)
  unfolding downloaded path_of
  downloaded-IsHad layer gz (j, had x) h =
      λ storage path e. inl (there gz path j (ap path_of e) (h x refl))
  downloaded-IsHad layer gz (j, lacks k) h = λ storage path e. absurd (ground arith)

  or_download-IsHad :
      (ref : Ref) (layer gz : Text) (j : Job) (q : Text × Text)
      → S.ensure_layer_func layer ≡ q
      → IsHad layer (or_download S login ref layer gz j q)
  unfolding or_download pair_of
  or_download-IsHad ref layer gz j (s, p) at_caller = go (not (is_nil s) && not (is_nil p))
    where
      go :
          (b : Bool)
          → IsHad layer (
              if b
              then (j, had (s, p))
              else downloaded S login gz (download_layer_from_origin S login ref layer gz j))
      go true = λ storage path e. inr (at_caller ∙ ap pair_of e)
      go false =
          downloaded-IsHad layer gz (download_layer_from_origin S login ref layer gz j)
            (download-Leaves ref layer gz j)

  with_paths-IsHad :
      (ref : Ref) (layer : Text) (j : Job) (tar gz : Option Text)
      → IsHad layer (with_paths S login ref layer j tar gz)
  unfolding with_paths path_of
  with_paths-IsHad ref layer j none gz = λ storage path e. absurd (ground arith)
  with_paths-IsHad ref layer j (some tar) none = λ storage path e. absurd (ground arith)
  with_paths-IsHad ref layer j (some tar) (some gz) =
      go (is_some (lookup tar j.files)) (is_some (lookup gz j.files)) refl refl
    where
      go :
          (b c : Bool)
          → is_some (lookup tar j.files) ≡ b
          → is_some (lookup gz j.files) ≡ c
          → IsHad layer (
              if b
              then (j, had (codes "cache", tar))
              else if c
              then (j, had (codes "cache-gz", gz))
              else or_download S login ref layer gz j (S.ensure_layer_func layer))
      go true c h k = λ storage path e. inl (there tar path j (ap path_of e) h)
      go false true h k = λ storage path e. inl (there gz path j (ap path_of e) k)
      go false false h k = or_download-IsHad ref layer gz j (S.ensure_layer_func layer) refl

  with_diff_id-IsHad :
      (ref : Ref) (layer : Text) (j : Job) (o : Option Text)
      → IsHad layer (with_diff_id S login ref layer j o)
  unfolding with_diff_id
  with_diff_id-IsHad ref layer j none = λ storage path e. absurd (ground arith)
  with_diff_id-IsHad ref layer j (some d) =
      with_paths-IsHad ref layer j (get_layer_tar_file S d) (get_layer_gz_file S layer)

  -- When ensure_having_layer returns a path, there is a file at it afterwards, or the storage and the
  -- path are those that the caller's function gave.
  pub ensure_having_layer_lem :
      (ref : Ref) (layer : Text) (m : Mappings) (j : Job) (storage path : Text)
      → (ensure_having_layer S login ref layer m j).1 ≡ had (storage, path)
      → (is_some (lookup path (ensure_having_layer S login ref layer m j).0.files) ≡ true)
        ⊎ (S.ensure_layer_func layer ≡ (storage, path))
  unfolding ensure_having_layer
  ensure_having_layer_lem ref layer m j storage path e =
      with_diff_id-IsHad ref layer j (get_diffid_by_digest layer m.diffid_mapping) storage path e
