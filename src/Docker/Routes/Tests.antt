-- ===== src/Docker/Routes/Tests.antt =====
-- Routes of images, and the theorems at image identifiers.
use beiran.Base.{Text, [], all_chars, codes, has, none, refl, same, some, starts_with, ◌++◌, ◌∷◌}
use beiran.Base.{◌≡◌, ◌≢◌}
use beiran.Docker.Routes.{config_identifier, ends_with, image_config, image_info, images_tar}
use beiran.Docker.Routes.{info_identifier, is_layer_char, layer_download, route, rstrip}
use beiran.Docker.Routes.Served.{image_path, images-lost, images-served}

abbrev docker_busybox : Text
docker_busybox = codes "library/busybo" ++ (b'x' ∷ [])

-- The images mongo and redis, at their routes.
mongo_tar : route (codes "/docker/images/mongo") ≡ none
unfolding route same starts_with has ends_with
mongo_tar = refl

redis_tar : route (codes "/docker/images/redis") ≡ some (images_tar (codes "redis"))
unfolding route same starts_with has ends_with
redis_tar = refl

mongo_info : info_identifier (codes "mongo/info") ≡ codes "mong"
unfolding info_identifier rstrip has
mongo_info = refl

layer_route : route (codes "/docker/layers/sha256:0a") ≡ some (layer_download (codes "sha256:0a"))
unfolding route same starts_with all_chars is_layer_char has
layer_route = refl

images-served_example :
    (route (image_path docker_busybox) ≡ some (images_tar docker_busybox))
    × (route (image_path (docker_busybox ++ codes "/info"))
        ≡ some (image_info (docker_busybox ++ codes "/info")))
    × (info_identifier (docker_busybox ++ codes "/info") ≡ docker_busybox)
    × (route (image_path (docker_busybox ++ codes "/config"))
        ≡ some (image_config (docker_busybox ++ codes "/config")))
    × (config_identifier (docker_busybox ++ codes "/config") ≡ docker_busybox)
unfolding has
images-served_example = images-served (codes "library/busybo") b'x' refl

images-lost_example :
    (route (image_path (codes "mongo")) ≡ none)
    × (info_identifier (codes "mongo/info") ≢ codes "mongo")
    × (config_identifier (codes "mongo/config") ≢ codes "mongo")
unfolding has ends_with same
images-lost_example = images-lost (codes "mong") b'o' refl refl refl
