-- ===== src/Docker/Samples.antt =====
-- Inputs for the tests of Docker.
use beiran.Base.{Option, Text, [], codes, false, if◌then◌else◌, member, none, pos, refl, same}
use beiran.Base.{some, starts_with, true, ℕ, ◌++◌, ◌∷◌}
use beiran.Container.Layers.{Source}
use beiran.Container.ListTable.{list_table}
use beiran.Container.Model.{find, unset}
use beiran.Container.Table.{Table}
use beiran.Container.Tags.{Image, ImageColumns, Like}
use beiran.Docker.Interface.{Daemon, ImageData, World, stamp}
use beiran.Docker.LayerTable.{Layer, LayerTable}
use beiran.Docker.LayerTable.ListLayers.{list_layers}
use beiran.Docker.Mappings.{Mappings}
use beiran.Docker.Storage.{Storage, bad_json, raises}
use beiran.Plugin.{new_history}

abbrev pub none_images : Table.State (list_table ℕ)
none_images = ([], tt)

abbrev pub none_layers : Table.State (LayerTable.table list_layers)
none_layers = ([], tt)

-- The daemon's storage: the layer db has one layer, x, whose `diff` is sha256:d.
abbrev pub file_of : Text → Option Text
file_of p =
    if same p (codes "/v/image/overlay2/distribution/diffid-by-digest/sha256/g")
    then some (codes "sha256:d")
    else if same p (codes "/v/image/overlay2/distribution/diffid-by-digest/sha256/h")
    then some (codes "sha256:e")
    else if same p (codes "/v/image/overlay2/layerdb/sha256/x/diff")
    then some (codes "sha256:d")
    else if same p (codes "/v/image/overlay2/layerdb/sha256/x/cache-id")
    then some (codes "c0")
    else if same p (codes "/v/image/overlay2/layerdb/sha256/d/size")
    then some (codes "37" ++ (10 ∷ []))
    else if same p (codes "/v/image/overlay2/layerdb/sha256/d/cache-id")
    then some (codes "c1")
    else if same p (codes "/v/image/overlay2/imagedb/content/sha256/b")
    then some (codes "{}")
    else none

abbrev pub docker_storage : Storage
docker_storage = record {
  storage = codes "/v";
  file = file_of;
  exists = λ p. true;
  listdir = λ p. some (codes "x" ∷ []);
  isdir = λ p. false;
  json_load = λ s. raises bad_json;
}

abbrev pub docker_source : Source
docker_source = record {
  layer_tar_path = codes "/c/tar";
  layer_gz_path = codes "/c/gz";
  origin = record {
    heads = λ u. [];
    gets = λ u req accept. [];
    token = λ h. none;
    b64encode = λ s. s;
  };
  sizes = λ u req. [];
  streams = λ u req. [];
  ensure_layer_func = λ g. ([], []);
}

abbrev pub layer_d : Layer
layer_d = record {
  key = [];
  available_at = codes "n9" ∷ [];
  download_progress = unset;
  rest = record {
    digest = some (codes "sha256:g");
    diff_id = codes "sha256:d";
    chain_id = codes "sha256:d";
    size = pos 3;
    local_image_refs = codes "sha256:b" ∷ [];
    cache_path = none;
    cache_gz_path = none;
    docker_path = none;
  };
}

abbrev pub no_mappings : Mappings
no_mappings = record { diffid_mapping = []; layerdb_mapping = [] }

-- A layer in docker's storage, with its mappings.
abbrev pub local_layers : Table.State (LayerTable.table list_layers)
unfolding find same
local_layers = (
  record layer_d { rest = record layer_d.rest { docker_path = some (codes "/v/overlay2/c0/diff") } }
      ∷ [],
  (refl, tt),
)

abbrev pub mapped : Mappings
mapped = record {
  diffid_mapping = (codes "sha256:d", some (codes "sha256:g")) ∷ [];
  layerdb_mapping = (codes "sha256:d", codes "sha256:x") ∷ [];
}

abbrev pub image_data : ImageData
image_data = record {
  id = codes "sha256:b";
  created = stamp 7;
  parent_id = none;
  parent = none;
  repo_tags = codes "r:latest" ∷ [];
  data_digests = [];
  image_size = 3;
  data_layers = codes "sha256:d" ∷ [];
}

abbrev pub docker_daemon : Daemon
docker_daemon = record {
  inspect = λ name. if same name (codes "sha256:b") then some image_data else none;
  timestamp = λ t. none;
  now = 5;
  here = codes "n1";
}

abbrev pub exact_like : Like
exact_like = record { has_item = member; has_prefix = λ p t. starts_with t p }

-- The image of the daemon, at two nodes.
abbrev pub image_b : Image
image_b = record {
  key = codes "sha256:b";
  available_at = codes "n1" ∷ codes "n2" ∷ [];
  download_progress = unset;
  rest = record {
    created_at = 7;
    parent_hash_id = none;
    size = 3;
    tags = [];
    repo_digests = [];
    layers = codes "sha256:d" ∷ [];
    config = [];
  };
}

abbrev pub stored_images : Table.State (list_table ImageColumns)
unfolding find
stored_images = (image_b ∷ [], (refl, tt))

-- A layer at the local node only, to which the image refers.
abbrev pub layer_of_b : Layer
layer_of_b = record layer_d { available_at = codes "n1" ∷ [] }

abbrev pub stored_layers : Table.State (LayerTable.table list_layers)
unfolding find
stored_layers = (layer_of_b ∷ [], (refl, tt))

abbrev pub plugin_with :
    Table.State (list_table ImageColumns)
    → Table.State (LayerTable.table list_layers)
    → World (Table.State (list_table ImageColumns)) (Table.State (LayerTable.table list_layers))
plugin_with i l = record {
  images = i;
  layers = l;
  mappings = no_mappings;
  history = new_history;
  emitted = [];
  plugin_status = record { status = none; events = [] };
  last_error = none;
}
