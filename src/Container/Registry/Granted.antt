-- ===== src/Container/Registry/Granted.antt =====
-- When a registry's answer is accepted, for plugins/beiran_package_container/container.py.
use beiran.Base.{==_iff, Bool, Text, [], arith, false, if◌then◌else◌, refl, true, ℕ, ◌==◌, ◌||◌}
use beiran.Base.{◌↔◌, ◌≡◌}
use beiran.Container.Registry.{Login, Pull, PullError, Registry, Response, check_status, failed}
use beiran.Container.Registry.{follow_head, get_auth_requirements, of_reply, pulled, request}
use beiran.Container.Registry.{retry, then_pull}
use beiran.Http.{Reply, async_req, other_error, returned, timeout_error}

module _ {M : Type 0} (R : Registry M) where
  -- The GET request that a HEAD response leads to.
  pub data IsGranted (login : Login) : Response → Text → Type 0 where
    open_access : {r : Response} → r.status ≡ 200 → IsGranted login r []
    authorized :
        {r : Response} {requirements : Text}
        → r.status ≡ 401
        → get_auth_requirements R login r.www_authenticate ≡ pulled requirements
        → IsGranted login r requirements

  granted_request :
      (error : ℕ → PullError) (login : Login) (url accept : Text) (r : Response) (req : Text)
      (body : M)
      → async_req retry (R.heads url) ≡ returned r
      → IsGranted login r req
      → async_req retry (R.gets url req accept) ≡ returned (200, body)
      → request R error login url accept ≡ pulled body
  unfolding request follow_head of_reply check_status
  granted_request error login url accept r req body h (open_access s) g = rw (h, s, g) refl
  granted_request error login url accept r req body h (authorized s a) g = rw (h, s, a, g) refl

  -- A response to the HEAD request and a GET request that it leads to, answered with status 200.
  abbrev pub IsAnswered : Login → Text → Text → M → Type 0
  IsAnswered login url accept body =
      (r : Response) × (req : Text) × (async_req retry (R.heads url) ≡ returned r)
      × IsGranted login r req
      × (async_req retry (R.gets url req accept) ≡ returned (200, body))

  get_answered :
      (error : ℕ → PullError) (body : M) (reply : Reply (ℕ × M))
      → then_pull (of_reply reply) (check_status R error) ≡ pulled body
      → reply ≡ returned (200, body)
  unfolding of_reply check_status
  get_answered error body timeout_error h = absurd (ground arith)
  get_answered error body other_error h = absurd (ground arith)
  get_answered error body (returned (status, b)) h = ground arith

  auth-IsAnswered :
      (error : ℕ → PullError) (login : Login) (url accept : Text) (r : Response) (body : M)
      → async_req retry (R.heads url) ≡ returned r
      → r.status ≡ 401
      → (p : Pull Text) → get_auth_requirements R login r.www_authenticate ≡ p
      → then_pull p (λ req.
        then_pull (of_reply (async_req retry (R.gets url req accept))) (check_status R error))
        ≡ pulled body
      → IsAnswered login url accept body
  auth-IsAnswered error login url accept r body e s (failed x) a h = absurd (ground arith)
  auth-IsAnswered error login url accept r body e s (pulled req) a h = (
    r,
    req,
    e,
    authorized s a,
    get_answered error body (async_req retry (R.gets url req accept)) h,
  )

  status-IsAnswered :
      (error : ℕ → PullError) (login : Login) (url accept : Text) (r : Response) (body : M)
      → async_req retry (R.heads url) ≡ returned r
      → (asks grants : Bool) → (r.status == 401) ≡ asks
      → (r.status == 200) ≡ grants
      → (if asks || grants
          then then_pull
              (if asks then get_auth_requirements R login r.www_authenticate else pulled [])
              (λ req.
                then_pull
                  (of_reply (async_req retry (R.gets url req accept)))
                  (check_status R error))
          else failed (error r.status))
        ≡ pulled body
      → IsAnswered login url accept body
  status-IsAnswered error login url accept r body e true grants a g h =
      auth-IsAnswered error login url accept r body e ((==_iff r.status 401).0 a)
        (get_auth_requirements R login r.www_authenticate) refl h
  status-IsAnswered error login url accept r body e false true a g h = (
    r,
    [],
    e,
    open_access ((==_iff r.status 200).0 g),
    get_answered error body (async_req retry (R.gets url [] accept)) h,
  )
  status-IsAnswered error login url accept r body e false false a g h = absurd (ground arith)

  head-IsAnswered :
      (error : ℕ → PullError) (login : Login) (url accept : Text) (body : M)
      (reply : Reply Response)
      → async_req retry (R.heads url) ≡ reply
      → then_pull (of_reply reply) (follow_head R error login url accept) ≡ pulled body
      → IsAnswered login url accept body
  unfolding of_reply follow_head
  head-IsAnswered error login url accept body timeout_error e h = absurd (ground arith)
  head-IsAnswered error login url accept body other_error e h = absurd (ground arith)
  head-IsAnswered error login url accept body (returned r) e h =
      status-IsAnswered error login url accept r body e (r.status == 401) (r.status == 200) refl
        refl h

  -- A request returns a body exactly if the HEAD request is answered with status 200, or with 401 and
  -- a `Www-Authenticate` header that authorization is found for, and the GET request with this
  -- authorization is answered with status 200 and the body.
  pub request-IsAnswered :
      (error : ℕ → PullError) (login : Login) (url accept : Text) (body : M)
      → (request R error login url accept ≡ pulled body) ↔ IsAnswered login url accept body
  unfolding request
  request-IsAnswered error login url accept body = (
    head-IsAnswered error login url accept body (async_req retry (R.heads url)) refl,
    λ (r, req, e, granted, g). granted_request error login url accept r req body e granted g,
  )
