-- ===== src/Docker/Events.antt =====
-- plugins/beiran_interface_docker: how the plugin follows docker's daemon (probe_daemon,
-- listen_daemon_events, daemon_error and daemon_lost of plugin_docker.py, and update_docker_info of
-- util.py). The images and the events that the daemon gives are arguments. The list of images holds
-- each image once, so an image is compared by its id. What is scheduled is left out: one call is one
-- run of these methods, and probe_daemon begins where its wait on update_docker_info, which Waits has,
-- is over. The node's own row is left out too.
pub mod Probed
pub mod Waits
mod Tests
use beiran.Base.{Bool, List, Option, Text, [], codes, false, if◌then◌else◌, ltb, member, none}
use beiran.Base.{not, same, some, true, ℕ, ◌&&◌, ◌+◌, ◌∷◌}
use beiran.Container.Layers.{Source}
use beiran.Container.Store.{reset_info_of_node}
use beiran.Container.Table.{Table}
use beiran.Container.Tags.{ImageColumns, Like}
use beiran.Docker.Interface.{Daemon, DockerPlugin, delete_image, down, emit, save_image}
use beiran.Docker.Interface.{untag_image, up}
use beiran.Docker.LayerTable.{LayerTable}
use beiran.Docker.Mappings.{get_diffid_mappings, get_layerdb_mappings}
use beiran.Docker.Storage.{DockerError, Outcome, Storage, done, no_key, raises}
use beiran.JsonStreamer.Reference.{events}
use beiran.Plugin.{set_status, update}

pub record DockerEvent : Type 0 where
  pub action : Text
  pub kind : Text
  pub event_id : Option Text
  pub image_attribute : Option Text

abbrev new_image_events : List Text
new_image_events = codes "pull" ∷ codes "load" ∷ codes "tag" ∷ codes "commit" ∷ codes "import" ∷ []

abbrev remove_image_events : List Text
remove_image_events = codes "delete" ∷ []

-- The waits of `update_docker_info`, for what the tries to get the daemon's information give.
unfoldable pub update_docker_info {ℓ} : {A : Type ℓ} → ℕ → List (Option A) → List ℕ × Option A
update_docker_info retry_after [] = ([], none)
update_docker_info retry_after (some docker_info ∷ tries) = ([], some docker_info)
update_docker_info retry_after (none ∷ tries) =
    let (waits, info) =
      update_docker_info (if ltb retry_after 30 then retry_after + 5 else retry_after) tries in
    (retry_after ∷ waits, info)

module _ (D : Storage) (S : Source) (L : Like) (E : Daemon) where
  module _ (Images : Table ImageColumns) (T : LayerTable) where
    abbrev Followed : Type 0
    Followed = DockerPlugin D S L E Images T

    then_do :
        Followed × Outcome (Unit {0})
        → (Followed → Followed × Outcome (Unit {0}))
        → Followed × Outcome (Unit {0})
    then_do (w, done u) next = next w
    then_do (w, raises e) next = (w, raises e)

    -- A handler is called with a value of the event, or a KeyError is raised.
    with_value :
        (Text → Followed → Followed × Outcome (Unit {0}))
        → Option Text
        → Followed
        → Followed × Outcome (Unit {0})
    with_value handler none w = (w, raises no_key)
    with_value handler (some v) w = handler v w

    when :
        Bool → (Followed → Followed × Outcome (Unit {0})) → Followed → Followed × Outcome (Unit {0})
    when true act w = act w
    when false act w = (w, done tt)

    save : Text → Followed → Followed × Outcome (Unit {0})
    save id w = save_image D S L E Images T id false false w

    handle_event : DockerEvent → Followed → Followed × Outcome (Unit {0})
    handle_event e w =
        let of_image = same e.kind (codes "image") in
        let is_new = member e.action new_image_events in
        then_do
          (when (same e.kind (codes "container") && is_new) (with_value save e.image_attribute) w)
          (λ w1. then_do (when (of_image && is_new) (with_value save e.event_id) w1) (λ w2.
            then_do
              (when (of_image && same e.action (codes "untag"))
                (with_value (untag_image D S L E Images T) e.event_id) w2)
              (when (of_image && member e.action remove_image_events)
                (with_value (delete_image D S L E Images T) e.event_id))))

    unfoldable pub daemon_error : DockerError → Followed → Followed
    daemon_error error w = record w {
      last_error = some error;
      plugin_status = set_status (codes "error") w.plugin_status;
    }

    unfoldable pub daemon_lost : Followed → Followed
    unfolding emit
    daemon_lost w = emit D S L E Images T down w

    handle_events : List DockerEvent → Followed → Followed × Outcome (Unit {0})
    handle_events [] w = (w, done tt)
    handle_events (e ∷ es) w = then_do (handle_event e w) (λ v. handle_events es v)

    or_error : (Followed → Followed) → Followed × Outcome (Unit {0}) → Followed
    or_error last (w, done u) = last w
    or_error last (w, raises e) = daemon_error e w

    -- The events until docker's daemon is gone.
    unfoldable pub listen_daemon_events : List DockerEvent → Followed → Followed
    unfolding then_do with_value when save handle_event handle_events or_error
    listen_daemon_events events w = or_error daemon_lost (handle_events events w)

    -- An image that the second list lacks is an intermediate one.
    save_images : List Text → List Text → Followed → Followed × Outcome (Unit {0})
    save_images not_intermediates [] w = (w, done tt)
    save_images not_intermediates (id ∷ ids) w =
        then_do (save_image D S L E Images T id true (not (member id not_intermediates)) w)
          (λ v. save_images not_intermediates ids v)

    reset : Followed → Followed
    reset w =
        let (i, l) = reset_info_of_node Images T.table E.here (w.images, w.layers) in
        record w { images = i; layers = l }

    map_storage : Followed → Followed
    map_storage w =
        let m = (get_diffid_mappings D w.mappings).0 in
        record w { mappings = (get_layerdb_mappings D m).0 }

    set_ready : Followed → Followed
    set_ready w = record w {
      history = update E.now (some (codes "init")) w.history;
      plugin_status = set_status (codes "ready") w.plugin_status;
    }

    unfoldable pub probe_images : List Text → List Text → Followed → Followed × Outcome (Unit {0})
    unfolding then_do save_images reset map_storage emit
    probe_images image_list not_intermediates w =
        save_images not_intermediates image_list (map_storage (emit D S L E Images T up (reset w)))

    unfoldable pub probe_daemon : List Text → List Text → Followed → Followed
    unfolding or_error set_ready
    probe_daemon image_list not_intermediates w =
        or_error set_ready (probe_images image_list not_intermediates w)
