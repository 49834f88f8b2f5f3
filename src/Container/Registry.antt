-- ===== src/Container/Registry.antt =====
-- plugins/beiran_package_container/container.py: requests to a registry (get_auth_requirements,
-- fetch_image_manifest, download_config_from_origin).
pub mod Granted
mod Tests
use beiran.Base.{List, Option, Text, [], codes, if◌then◌else◌, none, some, starts_with, ℕ, ◌++◌}
use beiran.Base.{◌==◌, ◌||◌, ◌∷◌}
use beiran.Http.{Reply, Try, async_req, other_error, returned, timeout_error}

pub data PullError : Type 0 where
  fetch_manifest_failed : ℕ → PullError
  config_download_failed : ℕ → PullError
  authentication_failed : PullError
  manifest_failed : PullError
  no_type_match : PullError
  no_key : PullError
  no_reply : PullError

pub data Pull (A : Type 0) : Type 0 where
  pulled : A → Pull A
  failed : PullError → Pull A

abbrev pub then_pull : {A B : Type 0} → Pull A → (A → Pull B) → Pull B
then_pull (pulled a) f = f a
then_pull (failed e) f = failed e

pub record Response : Type 0 where
  pub status : ℕ
  pub www_authenticate : Option Text

-- What becomes of the tries of a HEAD request, and of a GET request with its Authorization and Accept
-- headers; the token that the authorization server hands out for a `Www-Authenticate` header.
-- `login` is the keyword arguments `user` and `passwd`, and `b64encode` is that of Python.
pub record Registry (M : Type 0) : Type 0 where
  pub heads : Text → List (Try Response)
  pub gets : Text → Text → Text → List (Try (ℕ × M))
  pub token : Text → Option Text
  pub b64encode : Text → Text

abbrev pub Login : Type 0
Login = Option Text × Option Text

abbrev pub retry : ℕ
retry = 2

of_reply : {A : Type 0} → Reply A → Pull A
of_reply (returned a) = pulled a
of_reply timeout_error = failed no_reply
of_reply other_error = failed no_reply

abbrev pub manifest_url : Text → Text → Text → Text
manifest_url host repository tag_or_digest =
    codes "https://"
    ++ (host ++ (codes "/v2/" ++ (repository ++ (codes "/manifests/" ++ tag_or_digest))))

abbrev pub blob_url : Text → Text → Text → Text
blob_url host repository id =
    codes "https://" ++ (host ++ (codes "/v2/" ++ (repository ++ (codes "/blobs/" ++ id))))

module _ {M : Type 0} (R : Registry M) where
  bearer : Option Text → Pull Text
  bearer none = failed authentication_failed
  bearer (some t) = pulled (codes "Bearer " ++ t)

  basic : Login → Pull Text
  basic (some user, some passwd) = pulled (codes "Basic " ++ R.b64encode (user ++ (b':' ∷ passwd)))
  basic _ = failed authentication_failed

  unfoldable pub get_auth_requirements : Login → Option Text → Pull Text
  unfolding bearer basic
  get_auth_requirements login none = failed no_key
  get_auth_requirements login (some h) =
      if starts_with h (codes "Bearer")
      then bearer (R.token h)
      else if starts_with h (codes "Basic")
      then basic login
      else failed authentication_failed

  check_status : (ℕ → PullError) → ℕ × M → Pull M
  check_status error (status, body) = if status == 200 then pulled body else failed (error status)

  -- After the HEAD request: authorization if it is asked for, then the GET request.
  follow_head : (ℕ → PullError) → Login → Text → Text → Response → Pull M
  follow_head error login url accept r =
      if r.status == 401 || r.status == 200
      then (then_pull
          (if r.status == 401 then get_auth_requirements login r.www_authenticate else pulled [])
          (λ requirements.
            then_pull (of_reply (async_req retry (R.gets url requirements accept)))
              (check_status error)))
      else failed (error r.status)

  unfoldable pub request : (ℕ → PullError) → Login → Text → Text → Pull M
  unfolding of_reply check_status follow_head
  request error login url accept =
      then_pull (of_reply (async_req retry (R.heads url))) (follow_head error login url accept)

  unfoldable pub fetch_image_manifest : Login → Text → Text → Text → Text → Pull M
  fetch_image_manifest login host repository tag_or_digest accept =
      request fetch_manifest_failed login (manifest_url host repository tag_or_digest) accept

  unfoldable pub download_config_from_origin : Login → Text → Text → Text → Pull M
  download_config_from_origin login host repository image_id =
      request config_download_failed login (blob_url host repository image_id) []
