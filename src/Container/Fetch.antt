-- ===== src/Container/Fetch.antt =====
-- What fetch_images_from_peer of plugins/beiran_package_container/container.py makes available.
use beiran.Base.{Bool, Bool-cases, List, Option, Option-cases, Text, [], ap, arith, false}
use beiran.Base.{if◌then◌else◌, inl, inr, is_nil, member, none, refl, same, same_iff, some}
use beiran.Base.{sym, true, ◌&&◌, ◌||◌, ◌∙◌, ◌∷◌, ◌≡◌}
use beiran.Container.Model.{Row, is_available, is_available-set, is_available-unset, keep}
use beiran.Container.Model.{is_null, key-find, set_available_at, unset_available_at}
use beiran.Container.Reset.{reset_found, reset_info_of_node_lem}
use beiran.Container.Store.{fetch_images_from_peer, is_unavailable, reset_info_of_node}
use beiran.Container.Store.{save_image_at_node}
use beiran.Container.Table.{Table}

member-is_nil :
    (v : Text) (ns : List Text) (b : Bool) → (is_nil ns && b) ≡ true → member v ns ≡ false
unfolding member
member-is_nil v [] b h = refl
member-is_nil v (n ∷ ns) b h = absurd (ground arith)

module _ {V : Type 0} where
  -- Whether the image of a query is available at a node.
  unfoldable pub at_node : Text → Option (Row V) → Bool
  at_node v none = false
  at_node v (some r) = is_available v r

  unfoldable pub keys : List (Row V) → List Text
  keys [] = []
  keys (r ∷ rs) = r.key ∷ keys rs

  key-set : (u : Text) (r : Row V) → (set_available_at u r).key ≡ r.key
  unfolding set_available_at
  key-set u r = ground arith

  pub is_available-is_unavailable :
      (v : Text) (r : Row V) → is_unavailable r ≡ true → is_available v r ≡ false
  unfolding is_unavailable
  is_available-is_unavailable v r h = member-is_nil v r.available_at (is_null r.download_progress) h

  pub at_node-reset_found :
      (u v : Text) (o : Option (Row V))
      → at_node v (reset_found u o) ≡ (if same u v then false else at_node v o)
  unfolding at_node reset_found keep
  at_node-reset_found u v none = ground arith
  at_node-reset_found u v (some r) =
      let q = unset_available_at u r in
      elim (Bool-cases (is_unavailable q)) [
        | inl e ↦ rw (e) (sym (is_available-is_unavailable v q e) ∙ is_available-unset u v r)
        | inr e ↦ rw (e) (is_available-unset u v r)
      ]

  module _ (T : Table V) where
    at_node-save :
        (u v k : Text) (image : Row V) (s : T.State)
        → at_node v (T.get k (save_image_at_node T image u s))
          ≡ (same u v && same image.key k || at_node v (T.get k s))
    unfolding save_image_at_node at_node member
    at_node-save u v k image s = elim (Option-cases (T.get image.key s)) [
      | inl e ↦
          let at_key : image.key ≡ k → T.get k s ≡ none = λ p. ap (λ j. T.get j s) (sym p) ∙ e in
          rw (e, T.get-save) (ground (arith, same_iff image.key k))
      | inr (r, e) ↦
          let at_key : image.key ≡ k → T.get k s ≡ some r = λ p. ap (λ j. T.get j s) (sym p) ∙ e in
          let own : r.key ≡ image.key =
            key-find image.key (T.select s) r (sym (T.get-select image.key s) ∙ e) in
          rw (e, T.get-save, key-set, own)
            (ground (arith, same_iff image.key k, is_available-set u v r))
    ]

    -- After `fetch_images_from_peer` an image is available at the nodes it was available at, and, if
    -- the peer has sent it, at the node of the peer.
    pub at_node-fetch_images_from_peer :
        (u v k : Text) (images : List (Row V)) (s : T.State)
        → at_node v (T.get k (fetch_images_from_peer T images u s))
          ≡ (same u v && member k (keys images) || at_node v (T.get k s))
    unfolding fetch_images_from_peer keys member
    at_node-fetch_images_from_peer u v k [] s = ground arith
    at_node-fetch_images_from_peer u v k (image ∷ images) s =
        rw
          (
            at_node-fetch_images_from_peer u v k images (save_image_at_node T image u s),
            at_node-save u v k image s,
          )
          (ground (arith))

module _ {V W : Type 0} (Images : Table V) (Layers : Table W) where
  -- When the node whose images were fetched is reset, no image is available at it, and every image is
  -- available at the other nodes as before the fetch.
  pub at_node-reset_info_of_node :
      (u v k : Text) (images : List (Row V)) (i : Images.State) (l : Layers.State)
      → at_node v (
          Images.get k
            (reset_info_of_node Images Layers u (fetch_images_from_peer Images images u i, l)).0)
        ≡ (if same u v then false else at_node v (Images.get k i))
  at_node-reset_info_of_node u v k images i l =
      let fetched = fetch_images_from_peer Images images u i in
      let others : (if same u v then false else at_node v (Images.get k fetched))
          ≡ (if same u v then false else at_node v (Images.get k i)) =
        rw (at_node-fetch_images_from_peer Images u v k images i) (ground arith) in
      rw ((reset_info_of_node_lem Images Layers u k fetched l).0)
        (at_node-reset_found u v (Images.get k fetched) ∙ others)
