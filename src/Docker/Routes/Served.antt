-- ===== src/Docker/Routes/Served.antt =====
-- Which images the routes of plugins/beiran_interface_docker/api.py reach.
use beiran.Base.{Bool-cases, Text, [], ap, arith, codes, false, has, inl, inr, is_nil, last_or}
use beiran.Base.{last_or-snoc, length, length-append, none, refl, same, same_iff, same_refl, some}
use beiran.Base.{starts_with, sym, true, ℕ, ◌&&◌, ◌++◌, ◌∙◌, ◌∷◌, ◌≡◌, ◌≢◌, ◌≤◌}
use beiran.Docker.Routes.{config_identifier, ends_with, image_config, image_info, images_route}
use beiran.Docker.Routes.{
  images_prefix, images_tar, info_identifier, is_tar, route, rstrip, suffix_chars,
}

-- The path of an image.
abbrev pub image_path : Text → Text
image_path w = codes "/docker/images/" ++ w

is_nil-snoc : (w : Text) (c : ℕ) → is_nil (w ++ (c ∷ [])) ≡ false
is_nil-snoc [] c = refl
is_nil-snoc (d ∷ w) c = refl

rstrip-kept : (cs w : Text) (c : ℕ) → has c cs ≡ false → rstrip cs (w ++ (c ∷ [])) ≡ w ++ (c ∷ [])
unfolding rstrip
rstrip-kept cs [] c h = rw h refl
rstrip-kept cs (d ∷ w) c h = rw (rstrip-kept cs w c h, is_nil-snoc w c) refl

rstrip-append : (cs w t : Text) → rstrip cs t ≡ [] → rstrip cs (w ++ t) ≡ rstrip cs w
unfolding rstrip
rstrip-append cs [] t h = h
rstrip-append cs (d ∷ w) t h = rw (rstrip-append cs w t h) refl

length-rstrip-le : (cs w : Text) → length (rstrip cs w) ≤ length w
unfolding rstrip
length-rstrip-le cs [] = omega arith
length-rstrip-le cs (d ∷ w) = elim (Bool-cases (is_nil (rstrip cs w) && has d cs)) [
  | inl e ↦ rw e (omega arith)
  | inr e ↦ rw e (omega (arith, length-rstrip-le cs w))
]

-- A character that is stripped off is missing.
rstrip-lost : (cs w : Text) (c : ℕ) → has c cs ≡ true → rstrip cs (w ++ (c ∷ [])) ≢ w ++ (c ∷ [])
unfolding rstrip
rstrip-lost cs w c h e =
    let one : rstrip cs (c ∷ []) ≡ [] = rw h refl in
    let shorter : length (rstrip cs w) ≡ length (w ++ (c ∷ [])) =
      ap length (sym (rstrip-append cs w (c ∷ []) one) ∙ e) in
    omega (arith, length-append w (c ∷ []), length-rstrip-le cs w)

ends_with-append : (w p : Text) → ends_with (w ++ p) p ≡ true
unfolding ends_with
ends_with-append [] [] = refl
ends_with-append [] (c ∷ p) = rw (same_refl (c ∷ p)) refl
ends_with-append (d ∷ w) p = ground (arith, ends_with-append w p)

last_or-append : (x c : ℕ) (w t : Text) → last_or x (w ++ (c ∷ t)) ≡ last_or c t
last_or-append x c [] t = refl
last_or-append x c (d ∷ w) t = last_or-append d c w t

-- A text that ends with another one has its last character.
ends_with-last : (x c : ℕ) (w p : Text) → ends_with w (c ∷ p) ≡ true → last_or x w ≡ last_or c p
unfolding ends_with
ends_with-last x c [] p h = absurd cc
ends_with-last x c (d ∷ w) p h = elim (Bool-cases (same (d ∷ w) (c ∷ p))) [
  | inl e ↦ ap (λ s. last_or x s) ((same_iff (d ∷ w) (c ∷ p)).0 e)
  | inr e ↦ ends_with-last d c w p (rw e at h)
]

images_path : (w : Text) → route (image_path w) ≡ images_route w
unfolding route images_prefix starts_with same
images_path w = refl

info_route : (w : Text) → images_route (w ++ codes "/info") ≡ some (image_info (w ++ codes "/info"))
unfolding images_route is_tar has
info_route w =
    rw (last_or-append b'/' b'/' w (codes "info"), ends_with-append w (codes "/info")) refl

config_route :
    (w : Text) → images_route (w ++ codes "/config") ≡ some (image_config (w ++ codes "/config"))
unfolding images_route is_tar has
config_route w =
    let path : Text = w ++ codes "/config" in
    let last : last_or b'/' path ≡ b'g' = last_or-append b'/' b'/' w (codes "config") in
    elim (Bool-cases (ends_with path (codes "/info"))) [
      | inl e ↦ absurd (omega (arith, ends_with-last b'/' b'/' path (codes "info") e))
      | inr e ↦ rw (last, e, ends_with-append w (codes "/config")) refl
    ]

identified :
    (cs w : Text) (c : ℕ)
    → rstrip cs cs ≡ []
    → has c cs ≡ false
    → rstrip cs ((w ++ (c ∷ [])) ++ cs) ≡ w ++ (c ∷ [])
identified cs w c e h = rstrip-append cs (w ++ (c ∷ [])) cs e ∙ rstrip-kept cs w c h

misread :
    (cs w : Text) (c : ℕ)
    → rstrip cs cs ≡ []
    → has c cs ≡ true
    → rstrip cs ((w ++ (c ∷ [])) ++ cs) ≢ w ++ (c ∷ [])
misread cs w c e h f = rstrip-lost cs w c h (sym (rstrip-append cs (w ++ (c ∷ [])) cs e) ∙ f)

-- An image identifier whose last character is none of "/config|/info" is served: its path leads to the
-- tarball, its path with /info to the information and its path with /config to the configuration, and
-- these two handlers look for just this identifier.
pub images-served :
    (w : Text) (c : ℕ)
    → has c suffix_chars ≡ false
    → (route (image_path (w ++ (c ∷ []))) ≡ some (images_tar (w ++ (c ∷ []))))
      × (route (image_path ((w ++ (c ∷ [])) ++ codes "/info"))
          ≡ some (image_info ((w ++ (c ∷ [])) ++ codes "/info")))
      × (info_identifier ((w ++ (c ∷ [])) ++ codes "/info") ≡ w ++ (c ∷ []))
      × (route (image_path ((w ++ (c ∷ [])) ++ codes "/config"))
          ≡ some (image_config ((w ++ (c ∷ [])) ++ codes "/config")))
      × (config_identifier ((w ++ (c ∷ [])) ++ codes "/config") ≡ w ++ (c ∷ []))
unfolding info_identifier config_identifier has
images-served w c h = (
  images_path (w ++ (c ∷ [])) ∙ unfold images_route is_tar in rw (last_or-snoc b'/' c w, h) refl,
  images_path _ ∙ info_route (w ++ (c ∷ [])),
  identified (codes "/info") w c (unfold rstrip in refl) (ground arith),
  images_path _ ∙ config_route (w ++ (c ∷ [])),
  identified (codes "/config") w c (unfold rstrip in refl) (ground arith),
)

-- An image identifier whose last character is one of "/info", and that does not end with /info or
-- /config, has no route to its tarball, and the handlers of its information and its configuration
-- look for another identifier.
pub images-lost :
    (w : Text) (c : ℕ)
    → has c (codes "/info") ≡ true
    → ends_with (w ++ (c ∷ [])) (codes "/info") ≡ false
    → ends_with (w ++ (c ∷ [])) (codes "/config") ≡ false
    → (route (image_path (w ++ (c ∷ []))) ≡ none)
      × (info_identifier ((w ++ (c ∷ [])) ++ codes "/info") ≢ w ++ (c ∷ []))
      × (config_identifier ((w ++ (c ∷ [])) ++ codes "/config") ≢ w ++ (c ∷ []))
unfolding info_identifier config_identifier has
images-lost w c h i k =
    let class : has c suffix_chars ≡ true = ground arith in
    (
      images_path (w ++ (c ∷ []))
          ∙ unfold images_route is_tar in rw (last_or-snoc b'/' c w, class, i, k) refl,
      misread (codes "/info") w c (unfold rstrip in refl) h,
      misread (codes "/config") w c (unfold rstrip in refl) (ground arith),
    )
