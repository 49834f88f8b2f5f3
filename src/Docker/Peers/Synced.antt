-- ===== src/Docker/Peers/Synced.antt =====
-- The tables after sync of plugins/beiran_interface_docker/plugin_docker.py.
use beiran.Base.{
  Bool, List, Option, Option-cases, Text, [], none, refl, ap, arith, false, if◌then◌else◌, inl, inr,
  member,
}
use beiran.Base.{same, some, sym, true, ◌&&◌, ◌↔◌, ◌∙◌, ◌≡◌, ◌⊎◌}
use beiran.Container.Fetch.{at_node, at_node-fetch_images_from_peer, at_node-reset_found}
use beiran.Container.Fetch.{is_available-is_unavailable, keys}
use beiran.Container.Layers.{Source}
use beiran.Container.Model.{Row, is_available, is_available-unset, keep, unset_available_at}
use beiran.Container.Reset.{reset_found, reset_info_of_node_lem}
use beiran.Container.Store.{fetch_images_from_peer, reset_info_of_node}
use beiran.Container.Table.{Table}
use beiran.Docker.LayerTable.{Layer, LayerTable}
use beiran.Docker.LayerTable.Held.{IsHeld}
use beiran.Docker.Peers.{fetch_layers_from_peer, sync, sync_images, sync_layers, with_layers}
use beiran.Docker.Peers.Added.{diff_ids, fetch_layers_from_peer-AddsAll}
use beiran.Docker.Storage.{Storage}

diff_id-unset : (u : Text) (r : Layer) → (unset_available_at u r).rest.diff_id ≡ r.rest.diff_id
unfolding unset_available_at
diff_id-unset u r = ground arith

reset_found-keeps :
    (u v : Text) (r : Layer)
    → is_available v r ≡ true
    → same u v ≡ false
    → reset_found u (some r) ≡ some (unset_available_at u r)
unfolding reset_found keep
reset_found-keeps u v r w n =
    let q = unset_available_at u r in
    ground (arith, is_available-unset u v r, is_available-is_unavailable v q)

kept-is_available :
    (u v : Text) (r x : Layer)
    → reset_found u (some r) ≡ some x
    → (x.rest.diff_id ≡ r.rest.diff_id)
      × (is_available v x ≡ (if same u v then false else is_available v r))
unfolding reset_found keep
kept-is_available u v r x e =
    let same_row : unset_available_at u r ≡ x = ground arith in
    (
      sym (ap (λ y. y.rest.diff_id) same_row) ∙ diff_id-unset u r,
      sym (ap (λ y. is_available v y) same_row) ∙ is_available-unset u v r,
    )

module _ {V : Type 0} (Images : Table V) (T : LayerTable) where
  reset-IsHeld :
      (u v d : Text) (i : Images.State) (l : Table.State T.table)
      → IsHeld T v d (reset_info_of_node Images T.table u (i, l)).1
        ↔ ((same u v ≡ false) × IsHeld T v d l)
  reset-IsHeld u v d i l = (to, from)
    where
      at_key :
          (k : Text)
          → Table.get T.table k (reset_info_of_node Images T.table u (i, l)).1
            ≡ reset_found u (Table.get T.table k l)
      at_key k = (reset_info_of_node_lem Images T.table u k i l).1

      to :
          IsHeld T v d (reset_info_of_node Images T.table u (i, l)).1
          → (same u v ≡ false) × IsHeld T v d l
      to (k, x, there, m, w) = elim (Option-cases (Table.get T.table k l)) [
        | inl gone ↦ absurd (unfold reset_found in ground (arith, at_key k))
        | inr (r, old) ↦
            let (f, a) =
              kept-is_available u v r x (ap (reset_found u) (sym old) ∙ (sym (at_key k) ∙ there)) in
            (ground arith, (k, r, old, sym f ∙ m, ground arith))
      ]

      from :
          (same u v ≡ false) × IsHeld T v d l
          → IsHeld T v d (reset_info_of_node Images T.table u (i, l)).1
      from (n, (k, r, there, m, w)) = (
        k,
        unset_available_at u r,
        at_key k ∙ (ap (reset_found u) there ∙ reset_found-keeps u v r w n),
        diff_id-unset u r ∙ m,
        is_available-unset u v r ∙ ground arith,
      )

abbrev pub is_received : {A : Type 0} → Option A → Bool
is_received none = false
is_received (some a) = true

abbrev pub given : {A : Type 0} → Option (List A) → List A
given none = []
given (some xs) = xs

-- The layers that are received, if the layers are asked for at all.
abbrev pub received : {I L : Type 0} → Option I → Option (List L) → List L
received none layers = []
received (some images) layers = given layers

module _ {V : Type 0} (Images : Table V) (D : Storage) (S : Source) (T : LayerTable) where
  images-sync_images :
      (u : Text) (images : Option (List (Row V))) (layers : Option (List Layer))
      → (i : Images.State) (l : Table.State T.table)
      → (sync_images D S T Images images layers u (i, l)).0.0
        ≡ fetch_images_from_peer Images (given images) u i
  unfolding sync_images sync_layers with_layers fetch_images_from_peer
  images-sync_images u none layers i l = refl
  images-sync_images u (some images) none i l = refl
  images-sync_images u (some images) (some layers) i l = refl

  layers-sync_images :
      (u : Text) (images : Option (List (Row V))) (layers : Option (List Layer))
      → (i : Images.State) (l : Table.State T.table)
      → (sync_images D S T Images images layers u (i, l)).0.1
        ≡ (fetch_layers_from_peer D S T (received images layers) u l).0
  unfolding sync_images sync_layers with_layers fetch_layers_from_peer
  layers-sync_images u none layers i l = refl
  layers-sync_images u (some images) none i l = refl
  layers-sync_images u (some images) (some layers) i l = refl

  fine-sync_images :
      (u : Text) (images : Option (List (Row V))) (layers : Option (List Layer))
      → (i : Images.State) (l : Table.State T.table)
      → ((layers : List Layer) → (fetch_layers_from_peer D S T layers u l).1 ≡ true)
      → (sync_images D S T Images images layers u (i, l)).1
        ≡ (is_received images && is_received layers)
  unfolding sync_images sync_layers with_layers
  fine-sync_images u none layers i l f = refl
  fine-sync_images u (some images) none i l f = refl
  fine-sync_images u (some images) (some layers) i l f = f layers

  -- DockerInterface.sync raises exactly if the request for the images or the one for the layers does,
  -- where the layers are only asked for if the images were received. Afterwards the node of the peer
  -- has exactly the images and the layers that were received, none where a request raised, and every
  -- other node has those that it had.
  pub sync_lem :
      (u v k d : Text) (images : Option (List (Row V))) (layers : Option (List Layer))
      → (i : Images.State) (l : Table.State T.table)
      → ((sync D S T Images images layers u (i, l)).1 ≡ (is_received images && is_received layers))
        × (at_node v (Images.get k (sync D S T Images images layers u (i, l)).0.0)
            ≡ (if same u v then member k (keys (given images)) else at_node v (Images.get k i)))
        × (IsHeld T v d (sync D S T Images images layers u (i, l)).0.1 ↔ (
            ((same u v ≡ false) × IsHeld T v d l)
            ⊎ ((same u v && member d (diff_ids (received images layers))) ≡ true)))
  unfolding sync
  sync_lem u v k d images layers i l =
      let reset = reset_info_of_node Images T.table u (i, l) in
      let (_, held) = fetch_layers_from_peer-AddsAll D S T u v (received images layers) reset.1 in
      let kept = reset-IsHeld Images T u v d i l in
      (
        fine-sync_images u images layers reset.0 reset.1
            (λ ls. (fetch_layers_from_peer-AddsAll D S T u v ls reset.1).0),
        rw
            (
              images-sync_images u images layers reset.0 reset.1,
              at_node-fetch_images_from_peer Images u v k (given images) reset.0,
              (reset_info_of_node_lem Images T.table u k i l).0,
              at_node-reset_found u v (Images.get k i),
            )
            (ground arith),
        rw (layers-sync_images u images layers reset.0 reset.1) (
          λ h. elim ((held d).0 h) [ inl now ↦ inl (kept.0 now) | inr m ↦ inr m ],
          λ h. elim h [ inl w ↦ (held d).1 (inl (kept.1 w)) | inr m ↦ (held d).1 (inr m) ],
        ),
      )
