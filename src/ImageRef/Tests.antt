-- ===== src/ImageRef/Tests.antt =====
-- Runs of the functions on image references, and the theorems at concrete references.
use beiran.Base.{[], codes, false, has, refl, same, split, true, ◌∷◌, ◌≡◌}
use beiran.ImageRef.{is_domain, marshal}
use beiran.ImageRef.{marshal_normalize_ref, normalize_ref, split_name_suffix}
use beiran.ImageRef.Normalize.{marshal_normalize_ref_idem}
use beiran.ImageRef.RoundTrip.{digest, normalize_ref-marshal}

nginx : normalize_ref false (codes "nginx") ≡ record {
  domain = codes "docker.io";
  repo = codes "library/nginx";
  sign = codes ":";
  suffix = codes "latest";
}
unfolding normalize_ref split_name_suffix is_domain split same
nginx = refl

digest_ref :
    marshal_normalize_ref true (codes "quay.io:80/a/b@sha256:0f") ≡ codes "quay.io:80/a/b@sha256:0f"
unfolding marshal_normalize_ref marshal normalize_ref split_name_suffix is_domain split same
digest_ref = refl

marshal_normalize_ref-idem_example :
    marshal_normalize_ref false (marshal_normalize_ref false (codes "a/b/c@sha256:0f"))
    ≡ marshal_normalize_ref false (codes "a/b/c@sha256:0f")
unfolding split
marshal_normalize_ref-idem_example =
    marshal_normalize_ref_idem false (codes "a/b/c@sha256:0f") (λ e. cc, (λ e. cc, tt))

normalize_ref-marshal_example :
    normalize_ref true (marshal (codes "quay.io") (codes "a/b/c") (codes "@") (codes "sha256:0f"))
    ≡ record {
      domain = codes "quay.io";
      repo = codes "a/b/c";
      sign = codes "@";
      suffix = codes "sha256:0f";
    }
unfolding is_domain has
normalize_ref-marshal_example =
    normalize_ref-marshal true (codes "quay.io") (codes "a") (codes "b" ∷ []) (codes "c")
      (digest (codes "sha256:0f")) refl refl (λ e. cc) (refl, (refl, tt)) (refl, refl, refl, refl)
