-- ===== src/Docker/Interface.antt =====
-- plugins/beiran_interface_docker/plugin_docker.py: the images that docker has (save_image,
-- untag_image, delete_image and unset_local_layers).
-- The tables are arguments. `emitted` holds the events of the plugin; `now` is what `time.time()`
-- returns. `inspect` is `images.get` of docker's daemon, where `none` is a DockerError, and `timestamp`
-- reads an ISO 8601 time without its fraction; `none` is a ValueError.
pub mod Removed
pub mod Saved
use beiran.Base.{Bool, List, Option, Text, [], codes, false, if◌then◌else◌, is_nil, member, none}
use beiran.Base.{not, same, some, split, true, ℕ, ◌&&◌, ◌++◌, ◌∷◌}
use beiran.Base.Dict.{insert}
use beiran.Container.Layers.{Source, path_join}
use beiran.Container.Model.{filter, set_available_at, unset, unset_available_at}
use beiran.Container.Rows.{write_rows}
use beiran.Container.Store.{delete_layers}
use beiran.Container.Table.{Table}
use beiran.Container.Tags.{Image, ImageColumns, Like, set_tags, tag_image}
use beiran.Docker.Images.{get_image_layers}
use beiran.Docker.LayerTable.{Layer, LayerColumns, LayerTable, unset_local_image_refs}
use beiran.Docker.Mappings.{Mappings}
use beiran.Docker.Storage.{DockerError, Outcome, Storage, config_path, daemon_failed, done}
use beiran.Docker.Storage.{no_image, no_index, no_value, or_raise, raises, read, ◌>>=◌}
use beiran.ImageRef.{del_idpref}
use beiran.Plugin.{History, StatusCell, update}

pub data Created : Type 0 where
  stamp : ℕ → Created
  iso_time : Text → Created

pub record ImageData : Type 0 where
  pub id : Text
  pub created : Created
  pub parent_id : Option Text
  pub parent : Option Text
  pub repo_tags : List Text
  pub data_digests : List Text
  pub image_size : ℕ
  pub data_layers : List Text

pub data Emitted : Type 0 where
  up down : Emitted
  new_image_saved existing_image_deleted : Text → Emitted

pub record Daemon : Type 0 where
  pub inspect : Text → Option ImageData
  pub timestamp : Text → Option ℕ
  pub now : ℕ
  -- the hex of the local node's uuid
  pub here : Text

pub record World (I L : Type 0) : Type 0 where
  pub images : I
  pub layers : L
  pub mappings : Mappings
  pub history : History
  pub emitted : List Emitted
  pub plugin_status : StatusCell
  pub last_error : Option DockerError

-- `a or b or None`, for texts
or_text : Option Text → Option Text → Option Text
or_text none other = other
or_text (some []) other = other
or_text (some (c ∷ s)) other = some (c ∷ s)

parent_of : ImageData → Option Text
parent_of d = or_text d.parent_id (or_text d.parent none)

first_part : List Text → Text
first_part [] = []
first_part (w ∷ ws) = w

module _ (E : Daemon) where
  created_at_of : Created → Outcome ℕ
  created_at_of (stamp n) = done n
  created_at_of (iso_time t) = or_raise no_value (E.timestamp (first_part (split b'.' t)))

  -- `ContainerImage.from_dict(image_data, dialect="container")`
  unfoldable pub image_of : ImageData → Outcome Image
  unfolding or_text first_part parent_of created_at_of
  image_of d = do
    n ← created_at_of d.created
    done (record {
      key = d.id;
      available_at = [];
      download_progress = unset;
      rest = record {
        created_at = n;
        parent_hash_id = parent_of d;
        size = d.image_size;
        tags = d.repo_tags;
        repo_digests = d.data_digests;
        layers = [];
        config = [];
      };
    })

-- The image, with the nodes of the record that is in the table.
updated : Image → Option Image → Image
updated image none = image
updated image (some r) = record image { available_at = r.available_at }

removed_msg : Text → Text
removed_msg id = codes "removed_image=" ++ id

new_msg : Text → Text
new_msg id = codes "new_image=" ++ id

layer_diff_id : LayerColumns → Text
layer_diff_id c = c.diff_id

-- `layer.save()`: a layer that was not read from the table has no id yet.
unfoldable pub save_layer : (T : LayerTable) → Layer → Table.State T.table → Table.State T.table
save_layer T r s = if is_nil r.key then T.insert r s else Table.save T.table r s

module _ (D : Storage) (S : Source) (L : Like) (E : Daemon) where
  module _ (Images : Table ImageColumns) (T : LayerTable) where
    abbrev pub DockerPlugin : Type 0
    DockerPlugin = World Images.State (Table.State T.table)

    unfoldable pub emit : Emitted → DockerPlugin → DockerPlugin
    emit e w = record w { emitted = w.emitted ++ (e ∷ []) }

    note : Text → DockerPlugin → DockerPlugin
    note msg w = record w { history = update E.now (some msg) w.history }

    is_local_layer : List Text → Layer → Bool
    is_local_layer ids r = member r.rest.diff_id ids && L.has_item E.here r.available_at

    -- What the loop makes of a layer.
    unset_layer : Text → Layer → Layer
    unset_layer image_id r =
        let q = unset_local_image_refs image_id r in
        let gone = unset_available_at E.here q in
        if is_nil q.rest.local_image_refs
        then record gone { rest = record gone.rest { docker_path = none } }
        else q

    unfoldable pub unset_local_layers : List Text → Text → Table.State T.table → Table.State T.table
    unfolding is_local_layer unset_layer
    unset_local_layers diff_id_list image_id s =
        write_rows T.table (λ r. true) (unset_layer image_id)
          (filter (is_local_layer diff_id_list) (Table.select T.table s)) s

    -- Below `unset_local_layers`.
    drop_image : Image → DockerPlugin → DockerPlugin
    drop_image image w =
        if not (is_nil image.available_at)
        then record w { images = Images.save image w.images }
        else record w {
          images = Images.delete_where (λ q. same q.key image.key) w.images;
          layers = delete_layers T.table layer_diff_id image.rest.layers w.layers;
        }

    delete_found : Text → DockerPlugin → Option Image → DockerPlugin × Outcome (Unit {0})
    delete_found image_id w none = (w, raises no_image)
    delete_found image_id w (some r) =
        let image = unset_available_at E.here r in
        let l = unset_local_layers image.rest.layers image_id w.layers in
        (
          emit (existing_image_deleted image.key)
              (note (removed_msg image.key) (drop_image image (record w { layers = l }))),
          done tt,
        )

    unfoldable pub delete_image : Text → DockerPlugin → DockerPlugin × Outcome (Unit {0})
    unfolding removed_msg layer_diff_id emit note drop_image delete_found
    delete_image image_id w = delete_found image_id w (Images.get image_id w.images)

    untag_found : List Text → DockerPlugin → Option Image → DockerPlugin × Outcome (Unit {0})
    untag_found tags w none = (w, raises no_image)
    untag_found tags w (some r) =
        (record w { images = Images.save (set_tags tags r) w.images }, done tt)

    untag_inspected : DockerPlugin → Option ImageData → DockerPlugin × Outcome (Unit {0})
    untag_inspected w none = (w, done tt)
    untag_inspected w (some d) = untag_found d.repo_tags w (Images.get d.id w.images)

    unfoldable pub untag_image : Text → DockerPlugin → DockerPlugin × Outcome (Unit {0})
    unfolding untag_found untag_inspected
    untag_image image_identifier w = untag_inspected w (E.inspect image_identifier)

    save_layers : List Layer → Table.State T.table → Table.State T.table
    save_layers [] s = s
    save_layers (r ∷ rs) s = save_layers rs (save_layer T (set_available_at E.here r) s)

    layer_ids : List Layer → List Text
    layer_ids [] = []
    layer_ids (r ∷ rs) = r.rest.diff_id ∷ layer_ids rs

    -- The exceptions of `tag_image` are not told apart.
    tag_first : Text → List Text → DockerPlugin → DockerPlugin × Outcome (Unit {0})
    tag_first id_or_tag [] w = (w, done tt)
    tag_first id_or_tag (tag ∷ tags) w =
        let (i, fine) = tag_image L Images id_or_tag tag w.images in
        (record w { images = i }, if fine then done tt else raises no_image)

    -- From the reading of the config on.
    save_config :
        Text
        → List Text
        → Bool
        → Image
        → DockerPlugin
        → Outcome Text
        → DockerPlugin × Outcome (Unit {0})
    save_config id_or_tag tags skip_updates image w (raises e) = (w, raises e)
    save_config id_or_tag tags skip_updates image w (done config) =
        let whole = record image { rest = record image.rest { config = config } } in
        let saved = record w { images = Images.save whole w.images } in
        tag_first id_or_tag tags (
          emit (new_image_saved image.key)
            (if skip_updates then saved else note (new_msg image.key) saved))

    config_of : Text → Outcome Text
    config_of id = do
      name ← or_raise no_index (del_idpref id)
      read D (path_join (config_path D) name)

    save_with_layers :
        Text
        → List Text
        → Bool
        → Bool
        → Image
        → DockerPlugin
        → Mappings × Outcome (List Layer)
        → DockerPlugin × Outcome (Unit {0})
    save_with_layers id_or_tag tags skip_updates skip_layer image w (m, raises e) =
        (record w { mappings = m }, raises e)
    save_with_layers id_or_tag tags skip_updates skip_layer image w (m, done rs) =
        let whole = record image { rest = record image.rest { layers = layer_ids rs } } in
        let l = if skip_layer then w.layers else save_layers rs w.layers in
        save_config id_or_tag tags skip_updates (set_available_at E.here whole)
          (record w { mappings = m; layers = l }) (config_of image.key)

    save_image_of :
        Text
        → Bool
        → Bool
        → ImageData
        → DockerPlugin
        → Outcome Image
        → DockerPlugin × Outcome (Unit {0})
    save_image_of id_or_tag skip_updates skip_layer d w (raises e) = (w, raises e)
    save_image_of id_or_tag skip_updates skip_layer d w (done image) =
        save_with_layers id_or_tag d.repo_tags skip_updates skip_layer
          (updated image (Images.get d.id w.images)) w
          (get_image_layers D S T w.layers d.data_layers d.id w.mappings)

    save_inspected :
        Text → Bool → Bool → DockerPlugin → Option ImageData → DockerPlugin × Outcome (Unit {0})
    save_inspected id_or_tag skip_updates skip_layer w none = (w, raises daemon_failed)
    save_inspected id_or_tag skip_updates skip_layer w (some d) =
        save_image_of id_or_tag skip_updates skip_layer d w (image_of E d)

    -- The last two arguments of the method are `skip_updates` and `skip_updating_layer`.
    unfoldable pub save_image :
        Text → Bool → Bool → DockerPlugin → DockerPlugin × Outcome (Unit {0})
    unfolding new_msg emit note updated save_layers layer_ids tag_first save_config config_of
        save_with_layers save_image_of save_inspected
    save_image id_or_tag skip_updates skip_updating_layer w =
        save_inspected id_or_tag skip_updates skip_updating_layer w (E.inspect id_or_tag)
