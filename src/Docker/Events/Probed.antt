-- ===== src/Docker/Events/Probed.antt =====
-- The images of the local node after probe_daemon of plugins/beiran_interface_docker/plugin_docker.py.
use beiran.Base.{Bool, List, Option, Text, [], ap, arith, codes, false, if◌then◌else◌, inl, inr}
use beiran.Base.{member, none, not, refl, same, some, true, ◌&&◌, ◌||◌, ◌∙◌, ◌∷◌, ◌≡◌, ◌⊎◌}
use beiran.Container.Fetch.{at_node, at_node-reset_found}
use beiran.Container.Layers.{Source}
use beiran.Container.Reset.{reset_info_of_node_lem}
use beiran.Container.Table.{Table}
use beiran.Container.Tags.{ImageColumns, Like}
use beiran.Docker.Events.{Followed, daemon_error, map_storage, or_error, probe_daemon}
use beiran.Docker.Events.{probe_images, reset, save_images, set_ready, then_do}
use beiran.Docker.Interface.{Daemon, ImageData, emit, save_image, up}
use beiran.Docker.Interface.Saved.{Saves, save_image-Saves}
use beiran.Docker.LayerTable.{LayerTable}
use beiran.Docker.Storage.{DockerError, Outcome, Storage, done, raises}
use beiran.Plugin.Laws.{set_status_fields}

-- Docker's daemon gives an image of the list under its own id, if it gives one.
abbrev pub AreIds : Daemon → List Text → Type 0
AreIds E [] = Unit
AreIds E (id ∷ ids) = ((d : ImageData) → E.inspect id ≡ some d → d.id ≡ id) × AreIds E ids

module _ (D : Storage) (S : Source) (L : Like) (E : Daemon) where
  module _ (Images : Table ImageColumns) (T : LayerTable) where
    abbrev SavesAll :
        Text
        → Text
        → List Text
        → Followed D S L E Images T
        → Followed D S L E Images T × Outcome (Unit {0})
        → Type 0
    SavesAll v k ids w out =
        out.1 ≡ done tt
        → at_node v (Images.get k out.0.images)
          ≡ (same E.here v && member k ids || at_node v (Images.get k w.images))

    save_image-named :
        (v k id : Text) (b c : Bool) (w : Followed D S L E Images T)
        → ((d : ImageData) → E.inspect id ≡ some d → d.id ≡ id)
        → Saves D S L E Images T id v k w (save_image D S L E Images T id b c w)
    save_image-named v k id b c w h = go (E.inspect id) refl
      where
        go :
            (o : Option ImageData)
            → E.inspect id ≡ o
            → Saves D S L E Images T id v k w (save_image D S L E Images T id b c w)
        go none e = λ f. absurd (unfold save_image in ground (arith, e))
        go (some d) e = λ f.
            save_image-Saves D S L E Images T v k id b c d w e f
            ∙ ap (λ i. same E.here v && same i k || at_node v (Images.get k w.images)) (h d e)

    then-SavesAll :
        (v k id : Text) (ids : List Text) (w : Followed D S L E Images T)
        → (next : Followed D S L E Images T → Followed D S L E Images T × Outcome (Unit {0}))
        → (out : Followed D S L E Images T × Outcome (Unit {0}))
        → Saves D S L E Images T id v k w out
        → ((u : Followed D S L E Images T) → SavesAll v k ids u (next u))
        → SavesAll v k (id ∷ ids) w (then_do D S L E Images T out next)
    unfolding then_do member
    then-SavesAll v k id ids w next (u, done x) one rest = λ f. rest u f ∙ ground (arith, one refl)
    then-SavesAll v k id ids w next (u, raises e) one rest = λ f. absurd (ground arith)

    save_images-SavesAll :
        (v k : Text) (nots ids : List Text) (w : Followed D S L E Images T)
        → AreIds E ids
        → SavesAll v k ids w (save_images D S L E Images T nots ids w)
    unfolding save_images member
    save_images-SavesAll v k nots [] w h = λ f. ground arith
    save_images-SavesAll v k nots (id ∷ ids) w h =
        then-SavesAll v k id ids w (λ u. save_images D S L E Images T nots ids u)
          (save_image D S L E Images T id true (not (member id nots)) w)
          (save_image-named v k id true (not (member id nots)) w h.0)
          (λ u. save_images-SavesAll v k nots ids u h.1)

    -- A run of probe_daemon ends with the plugin and then the images that the local node has are
    -- exactly those that docker lists, and every other node has the images that it had. Otherwise it
    -- ends with the status error, and the exception is kept.
    pub probe_daemon_lem :
        (v k : Text) (ids nots : List Text) (w : Followed D S L E Images T)
        → AreIds E ids
        → (((probe_daemon D S L E Images T ids nots w).plugin_status.status ≡ some (codes "ready"))
            × (at_node v (Images.get k (probe_daemon D S L E Images T ids nots w).images)
                ≡ (if same E.here v then member k ids else at_node v (Images.get k w.images))))
          ⊎ (((probe_daemon D S L E Images T ids nots w).plugin_status.status
                ≡ some (codes "error"))
              × ((e : DockerError) × ((probe_daemon D S L E Images T ids nots w).last_error
                    ≡ some e)))
    unfolding probe_daemon probe_images daemon_error
    probe_daemon_lem v k ids nots w h =
        go (save_images D S L E Images T nots ids started)
          (save_images-SavesAll v k nots ids started h)
      where
        started : Followed D S L E Images T
        started = map_storage D S L E Images T (emit D S L E Images T up (reset D S L E Images T w))

        listed : Bool
        listed = if same E.here v then member k ids else at_node v (Images.get k w.images)

        reset_nodes :
            at_node v (Images.get k started.images)
            ≡ (if same E.here v then false else at_node v (Images.get k w.images))
        reset_nodes =
            ap (at_node v) ((reset_info_of_node_lem Images T.table E.here k w.images w.layers).0)
            ∙ at_node-reset_found E.here v (Images.get k w.images)

        go :
            (out : Followed D S L E Images T × Outcome (Unit {0}))
            → SavesAll v k ids started out
            → (((or_error D S L E Images T (set_ready D S L E Images T) out).plugin_status.status
                  ≡ some (codes "ready"))
                × (at_node v (
                      Images.get k
                        (or_error D S L E Images T (set_ready D S L E Images T) out).images)
                    ≡ listed))
              ⊎ (((or_error D S L E Images T (set_ready D S L E Images T) out).plugin_status.status
                    ≡ some (codes "error"))
                  × ((e : DockerError) × ((or_error D S L E Images T
                          (set_ready D S L E Images T)
                          out).last_error
                        ≡ some e)))
        go (u, done x) saves = inl (
          (set_status_fields u.plugin_status.status u.plugin_status.events (codes "ready")).0,
          saves refl ∙ (rw (reset_nodes) (ground arith)),
        )
        go (u, raises e) saves = inr (
          (set_status_fields u.plugin_status.status u.plugin_status.events (codes "error")).0,
          (e, refl),
        )
