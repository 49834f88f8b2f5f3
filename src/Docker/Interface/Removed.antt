-- ===== src/Docker/Interface/Removed.antt =====
-- The tables after delete_image of plugins/beiran_interface_docker/plugin_docker.py.
use beiran.Base.{Bool, List, Option, Text, if◌then◌else◌}
use beiran.Base.{is_nil, member, none, not, some, ◌&&◌}
use beiran.Container.Layers.{Source}
use beiran.Container.Model.{is_available, keep, without}
use beiran.Container.Table.{Table}
use beiran.Container.Tags.{Image, ImageColumns, Like}
use beiran.Docker.Interface.{Daemon}
use beiran.Docker.LayerTable.{Layer, LayerTable}
use beiran.Docker.Storage.{Storage}

-- The layer without the image, and without a node.
released : Text → Layer → Layer
released image_id r = record r {
  rest = record r.rest { local_image_refs = without image_id r.rest.local_image_refs };
}

emptied : Text → Text → Layer → Layer
emptied here image_id r = record r {
  available_at = without here r.available_at;
  rest = record r.rest {
    local_image_refs = without image_id r.rest.local_image_refs;
    docker_path = none;
  };
}

unless : {A : Type 0} → Bool → A → Option A
unless b a = if b then none else some a

-- What is left of a layer when an image with these layers is removed from the node; `gone` says that
-- no other node has the image.
unfoldable pub layer_left : Text → Text → List Text → Bool → Option Layer → Option Layer
unfolding released emptied unless
layer_left here image_id ids gone none = none
layer_left here image_id ids gone (some r) =
    if member r.rest.diff_id ids
    then (if is_available here r
        then (if is_nil (without image_id r.rest.local_image_refs)
            then unless (gone && is_nil (without here r.available_at)) (emptied here image_id r)
            else some (released image_id r))
        else unless (gone && is_nil r.available_at) r)
    else some r

module _ (D : Storage) (S : Source) (L : Like) (E : Daemon) where
  module _ (Images : Table ImageColumns) (T : LayerTable) where
    abbrev pub kept_when : List Text → Bool → Option Layer → Option Layer
    kept_when ids gone o =
        if gone then keep (λ r. not (member r.rest.diff_id ids && is_nil r.available_at)) o else o

    -- What is left of the image.
    abbrev pub image_left : Image → Option Image
    image_left r =
        if is_nil (without E.here r.available_at)
        then none
        else some (record r { available_at = without E.here r.available_at })
