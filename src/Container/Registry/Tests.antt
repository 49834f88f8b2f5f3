-- ===== src/Container/Registry/Tests.antt =====
-- A registry that wants a token.
use beiran.Base.{Text, [], codes, if◌then◌else◌, none, refl, same, some, starts_with, ℕ, ◌↔◌, ◌∷◌}
use beiran.Base.{◌≡◌}
use beiran.Container.Registry.{Registry, Response, fetch_image_manifest, fetch_manifest_failed}
use beiran.Container.Registry.{get_auth_requirements, manifest_url, pulled, request}
use beiran.Container.Registry.Granted.{IsAnswered, request-IsAnswered}
use beiran.Http.{answered, async_req, no_response}

abbrev url : Text
url = manifest_url (codes "r.io") (codes "library/a") (codes "latest")

abbrev asking : Response
asking = record { status = 401; www_authenticate = some (codes "Bearer realm") }

abbrev registry : Registry ℕ
registry = record {
  heads = λ u. no_response ∷ answered [] asking ∷ [];
  gets = λ u req accept. if same req (codes "Bearer t") then answered [] (200, 7) ∷ [] else [];
  token = λ h. some (codes "t");
  b64encode = λ s. s;
}

request-IsAnswered_example :
    (request registry fetch_manifest_failed (none, none) url [] ≡ pulled 7)
    ↔ IsAnswered registry (none, none) url [] 7
request-IsAnswered_example = request-IsAnswered registry fetch_manifest_failed (none, none) url [] 7

fetched :
    fetch_image_manifest registry
      (none, none)
      (codes "r.io")
      (codes "library/a")
      (codes "latest")
      []
    ≡ pulled 7
unfolding fetch_image_manifest request get_auth_requirements async_req starts_with same
fetched = refl
