-- ===== src/ImageRef/Ids.antt =====
-- The `sha256:` prefix of image and layer ids, the default tag and the summary.
use beiran.Base.{Free, Text, ap, arith, codes, false, get_elem?, has, has-append, refl, some}
use beiran.Base.{split-Free, split-append, split_text-prefix, starts_with, starts_with-Free, take}
use beiran.Base.{true, ◌++◌, ◌∷◌, ◌≡◌}
use beiran.ImageRef.{add_default_tag, add_idpref, colon, default_tag, del_idpref, id_prefix}
use beiran.ImageRef.{image_ref_summary}

id_prefix-colon : has colon id_prefix ≡ true
unfolding has
id_prefix-colon = refl

no_prefix : (s : Text) → Free colon s → starts_with s id_prefix ≡ false
no_prefix s h = starts_with-Free colon s id_prefix id_prefix-colon h

add_idpref-plain : (id : Text) → Free colon id → add_idpref id ≡ id_prefix ++ id
unfolding add_idpref
add_idpref-plain id h = rw (no_prefix id h)

add_idpref-prefixed : (id : Text) → add_idpref (id_prefix ++ id) ≡ id_prefix ++ id
unfolding add_idpref
add_idpref-prefixed id = refl

del_idpref-plain : (id : Text) → Free colon id → del_idpref id ≡ some id
unfolding del_idpref
del_idpref-plain id h = rw (no_prefix id h)

del_idpref-prefixed : (id : Text) → Free colon id → del_idpref (id_prefix ++ id) ≡ some id
unfolding del_idpref
del_idpref-prefixed id h =
    ap (λ r. get_elem? r 1) (split_text-prefix colon b's' (codes "ha256:") id id_prefix-colon h)

summary-prefixed :
    (id : Text) → Free colon id → image_ref_summary (id_prefix ++ id) ≡ some (take 12 id)
unfolding image_ref_summary
summary-prefixed id h = rw (
  split-append colon (codes "sha256") id (unfold has in refl),
  split-Free colon id h,
  image_ref_summary,
)

-- On an id without a colon, such as a hexadecimal digest: `del_idpref` undoes `add_idpref` and
-- leaves the bare id as it is, a second `add_idpref` changes nothing, and the summary of the
-- prefixed id is its first twelve characters.
idpref-laws :
    (id : Text)
    → Free colon id
    → (del_idpref (add_idpref id) ≡ some id)
      × (del_idpref id ≡ some id)
      × (add_idpref (add_idpref id) ≡ add_idpref id)
      × (image_ref_summary (add_idpref id) ≡ some (take 12 id))
idpref-laws id h =
    rw (add_idpref-plain id h) (
      del_idpref-prefixed id h,
      del_idpref-plain id h,
      add_idpref-prefixed id,
      summary-prefixed id h,
    )

-- `add_default_tag` adds a tag once: its result holds a colon, and is left as it is.
pub add_default_tag_idem :
    (name : Text)
    → (has colon (add_default_tag name) ≡ true)
      × (add_default_tag (add_default_tag name) ≡ add_default_tag name)
unfolding add_default_tag
add_default_tag_idem name = ground (arith, has-append colon name (colon ∷ default_tag))
