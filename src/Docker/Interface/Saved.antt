-- ===== src/Docker/Interface/Saved.antt =====
-- Where the images are available after save_image of plugins/beiran_interface_docker/plugin_docker.py.
use beiran.Base.{Bool, Bool-cases, List, Option, Text, [], ap, arith, false, if◌then◌else◌, inl}
use beiran.Base.{inr, member, none, refl, same, same_iff, some, true, ◌&&◌, ◌||◌, ◌∙◌, ◌∷◌, ◌≡◌}
use beiran.Container.Fetch.{at_node}
use beiran.Container.Layers.{Source}
use beiran.Container.Model.{is_available, is_available-set, set_available_at}
use beiran.Container.Table.{Table}
use beiran.Container.Tags.{Image, ImageColumns, Like}
use beiran.Container.Tags.Kept.{tag_image-at_node}
use beiran.Docker.Images.{get_image_layers}
use beiran.Docker.Interface.{Daemon, DockerPlugin, ImageData, config_of, created_at_of, emit}
use beiran.Docker.Interface.{image_of, layer_ids, new_msg, note, save_config, save_image}
use beiran.Docker.Interface.{save_image_of, save_layers, save_with_layers, tag_first, updated}
use beiran.Docker.LayerTable.{Layer, LayerTable}
use beiran.Docker.Mappings.{Mappings}
use beiran.Docker.Storage.{>>=-eq-done, Outcome, Storage, done, raises}

module _ (D : Storage) (S : Source) (L : Like) (E : Daemon) where
  image_of-key : (d : ImageData) (r : Image) → image_of E d ≡ done r → r.key ≡ d.id
  unfolding image_of
  image_of-key d r h = let (n, e, f) = >>=-eq-done (created_at_of E d.created) _ h in ground arith

  image_of-nowhere :
      (v : Text) (d : ImageData) (r : Image) → image_of E d ≡ done r → is_available v r ≡ false
  unfolding image_of member
  image_of-nowhere v d r h =
      let (n, e, f) = >>=-eq-done (created_at_of E d.created) _ h in ground arith

  module _ (Images : Table ImageColumns) (T : LayerTable) where
    abbrev Called : Type 0
    Called = DockerPlugin D S L E Images T × Outcome (Unit {0})

    -- If nothing is raised, the image under the id is available at the local node too.
    abbrev pub Saves : Text → Text → Text → DockerPlugin D S L E Images T → Called → Type 0
    Saves id v k w out =
        out.1 ≡ done tt
        → at_node v (Images.get k out.0.images)
          ≡ (same E.here v && same id k || at_node v (Images.get k w.images))

    tag_first-Saves :
        (id v k id_or_tag : Text) (tags : List Text) (w u : DockerPlugin D S L E Images T)
        → (at_node v (Images.get k u.images)
            ≡ (same E.here v && same id k || at_node v (Images.get k w.images)))
        → Saves id v k w (tag_first D S L E Images T id_or_tag tags u)
    unfolding tag_first
    tag_first-Saves id v k id_or_tag [] w u h = λ e. h
    tag_first-Saves id v k id_or_tag (t ∷ ts) w u h =
        λ e. tag_image-at_node L Images v id_or_tag t k u.images ∙ h

    -- An image is written that has the nodes of the row in the table and the local one.
    write-at_node :
        (id v k : Text) (w : DockerPlugin D S L E Images T) (image : Image)
        → image.key ≡ id
        → is_available v image ≡ (same E.here v || at_node v (Images.get id w.images))
        → at_node v (Images.get k (Images.save image w.images))
          ≡ (same E.here v && same id k || at_node v (Images.get k w.images))
    unfolding at_node
    write-at_node id v k w image e a = elim (Bool-cases (same id k)) [
      | inl own ↦
          let own_key : same image.key k ≡ true = ap (λ x. same x k) e ∙ own in
          let at_key : at_node v (Images.get id w.images) ≡ at_node v (Images.get k w.images) =
            ap (λ j. at_node v (Images.get j w.images)) ((same_iff id k).0 own) in
          rw (Images.get-save, own_key, own) (ground (arith, at_key))
      | inr other ↦
          let other_key : same image.key k ≡ false = ap (λ x. same x k) e ∙ other in
          rw (Images.get-save, other_key, other) (ground arith)
    ]

    save_config-Saves :
        (id v k id_or_tag : Text) (tags : List Text) (b : Bool) (image : Image)
        → (w u : DockerPlugin D S L E Images T) (config : Outcome Text) → u.images ≡ w.images
        → image.key ≡ id
        → is_available v image ≡ (same E.here v || at_node v (Images.get id w.images))
        → Saves id v k w (save_config D S L E Images T id_or_tag tags b image u config)
    unfolding save_config emit note
    save_config-Saves id v k id_or_tag tags b image w u (raises e) p q a =
        λ h. absurd (ground arith)
    save_config-Saves id v k id_or_tag tags b image w u (done config) p q a =
        tag_first-Saves id v k id_or_tag tags w _ (images_of b)
      where
        whole : Image
        whole = record image { rest = record image.rest { config = config } }

        saved : DockerPlugin D S L E Images T
        saved = record u { images = Images.save whole u.images }

        images_of :
            (c : Bool)
            → at_node v (
                Images.get k
                  (if c then saved else note D S L E Images T (new_msg image.key) saved).images)
              ≡ (same E.here v && same id k || at_node v (Images.get k w.images))
        images_of true = rw (p) (write-at_node id v k w whole q a)
        images_of false = rw (p) (write-at_node id v k w whole q a)

    updated-nodes :
        (v : Text) (image : Image) (o : Option Image)
        → is_available v image ≡ false
        → is_available v (updated image o) ≡ at_node v o
    unfolding updated at_node
    updated-nodes v image none h = h
    updated-nodes v image (some r) h = refl

    updated-key : (image : Image) (o : Option Image) → (updated image o).key ≡ image.key
    unfolding updated
    updated-key image none = refl
    updated-key image (some r) = refl

    key-set : (u : Text) (r : Image) → (set_available_at u r).key ≡ r.key
    unfolding set_available_at
    key-set u r = ground arith

    save_with_layers-Saves :
        (id v k id_or_tag : Text) (tags : List Text) (b c : Bool) (image : Image)
        → (w : DockerPlugin D S L E Images T) (out : Mappings × Outcome (List Layer))
        → image.key ≡ id
        → is_available v image ≡ at_node v (Images.get id w.images)
        → Saves id v k w (save_with_layers D S L E Images T id_or_tag tags b c image w out)
    unfolding save_with_layers
    save_with_layers-Saves id v k id_or_tag tags b c image w (m, raises e) q a =
        λ h. absurd (ground arith)
    save_with_layers-Saves id v k id_or_tag tags b c image w (m, done rs) q a =
        let ids = layer_ids D S L E Images T rs in
        let whole : Image = record image { rest = record image.rest { layers = ids } } in
        let l = if c then w.layers else save_layers D S L E Images T rs w.layers in
        save_config-Saves id v k id_or_tag tags b (set_available_at E.here whole) w
          (record w { mappings = m; layers = l }) (config_of D S L E Images T image.key) refl
          (key-set E.here whole ∙ q)
          (is_available-set E.here v whole ∙ ap (λ y. same E.here v || y) a)

    save_image_of-Saves :
        (v k id_or_tag : Text) (b c : Bool) (d : ImageData)
        → (w : DockerPlugin D S L E Images T) (o : Outcome Image) → image_of E d ≡ o
        → Saves d.id v k w (save_image_of D S L E Images T id_or_tag b c d w o)
    unfolding save_image_of
    save_image_of-Saves v k id_or_tag b c d w (raises e) f = λ h. absurd (ground arith)
    save_image_of-Saves v k id_or_tag b c d w (done image) f =
        let old = Images.get d.id w.images in
        save_with_layers-Saves d.id v k id_or_tag d.repo_tags b c (updated image old) w
          (get_image_layers D S T w.layers d.data_layers d.id w.mappings)
          (updated-key image old ∙ image_of-key d image f)
          (updated-nodes v image old (image_of-nowhere v d image f))

    -- When save_image returns, the image that docker gives is available at the local node as well as at
    -- the nodes of its row, and every other image is where it was.
    pub save_image-Saves :
        (v k id_or_tag : Text) (b c : Bool) (d : ImageData) (w : DockerPlugin D S L E Images T)
        → E.inspect id_or_tag ≡ some d
        → Saves d.id v k w (save_image D S L E Images T id_or_tag b c w)
    unfolding save_image
    save_image-Saves v k id_or_tag b c d w e =
        rw (e) (save_image_of-Saves v k id_or_tag b c d w (image_of E d) refl)
