-- ===== src/Docker/Archive/Tests.antt =====
-- A layer of which the cache has the compressed file.
use beiran.Base.{Text, [], codes, pos, refl, some}
use beiran.Base.{◌∷◌}
use beiran.Container.Digests.{Hasher}
use beiran.Container.Layers.{dl_init}
use beiran.Container.Model.{find}
use beiran.Docker.Archive.{Disk, prepare_tar_archive}
use beiran.Docker.LayerTable.{Layer}
use beiran.Docker.LayerTable.ListLayers.{list_layers}
use beiran.Docker.Samples.{docker_source, docker_storage, layer_d, no_mappings}

-- The digest of a text is the text, and the compression puts a byte before it.
abbrev tail_of : Text → Text
tail_of [] = []
tail_of (c ∷ s) = s

abbrev hasher : Hasher
hasher = record { hexdigest = λ s. s; gunzip = λ s. some (tail_of s); temporary = codes "t" }

abbrev gz_layer : Layer
gz_layer = record layer_d {
  rest = record layer_d.rest { cache_gz_path = some (codes "/c/gz/g.tar.gz") };
}

abbrev compressed : Disk hasher docker_storage docker_source list_layers
unfolding find
compressed = (
  record {
    files = (codes "/c/gz/g.tar.gz", codes "zab" ∷ []) ∷ [];
    layer_status = dl_init;
    size = pos 0;
    queue = [];
  },
  (gz_layer ∷ [], (refl, tt)),
)

abbrev unpacked : Disk hasher docker_storage docker_source list_layers
unpacked =
    (prepare_tar_archive hasher docker_storage docker_source list_layers (codes "sha256:g")
      no_mappings compressed).0
