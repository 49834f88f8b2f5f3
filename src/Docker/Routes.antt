-- ===== src/Docker/Routes.antt =====
-- plugins/beiran_interface_docker/api.py: the routes, and the identifiers that the handlers look for.
-- A route is a regular expression that tornado matches against the whole path; the first that fits
-- is taken. A path holds no line break.
pub mod Served
mod Tests
use beiran.Base.{Bool, Option, Text, [], all_chars, codes, drop, has, if◌then◌else◌, is_nil}
use beiran.Base.{last_or, none, not, same, some, starts_with, ℕ, ◌&&◌, ◌||◌, ◌∷◌}

-- `s.rstrip(cs)`
unfoldable pub rstrip : Text → Text → Text
rstrip cs [] = []
rstrip cs (c ∷ s) = let rest = rstrip cs s in if is_nil rest && has c cs then [] else c ∷ rest

-- `.*p`
unfoldable pub ends_with : Text → Text → Bool
ends_with [] p = is_nil p
ends_with (c ∷ s) p = same (c ∷ s) p || ends_with s p

-- `[/config|/info]`
abbrev pub suffix_chars : Text
suffix_chars = codes "/config|/info"

-- `[0-9a-fsh:]`
unfoldable pub is_layer_char : ℕ → Bool
is_layer_char c = has c (codes "0123456789abcdefsh:")

-- The handler, with what the group of the regular expression matches.
pub data Route : Type 0 where
  image_list layer_list : Route
  images_tar image_info image_config layer_download : Text → Route

images_prefix : Text
images_prefix = codes "/docker/images/"

layers_prefix : Text
layers_prefix = codes "/docker/layers/"

-- `(.*(?<![/config|/info])$)`; what stands before an empty group is the slash of the path.
is_tar : Text → Bool
is_tar w = not (has (last_or b'/' w) suffix_chars)

images_route : Text → Option Route
images_route w =
    if is_tar w
    then some (images_tar w)
    else if ends_with w (codes "/info")
    then some (image_info w)
    else if ends_with w (codes "/config")
    then some (image_config w)
    else none

layers_route : Text → Option Route
layers_route w =
    if not (is_nil w) && all_chars is_layer_char w then some (layer_download w) else none

-- `ROUTES`
unfoldable pub route : Text → Option Route
unfolding images_prefix layers_prefix is_tar images_route layers_route
route path =
    if same path (codes "/docker/images")
    then some image_list
    else if same path (codes "/docker/layers")
    then some layer_list
    else if starts_with path images_prefix
    then images_route (drop 15 path)
    else if starts_with path layers_prefix
    then layers_route (drop 15 path)
    else none

-- The image that ImageInfoHandler and ImageConfigHandler look for.
unfoldable pub info_identifier : Text → Text
info_identifier w = rstrip (codes "/info") w

unfoldable pub config_identifier : Text → Text
config_identifier w = rstrip (codes "/config") w
