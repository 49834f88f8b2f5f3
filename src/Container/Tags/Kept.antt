-- ===== src/Container/Tags/Kept.antt =====
-- tag_image of plugins/beiran_package_container/container.py changes the nodes of no image.
use beiran.Base.{Bool, Bool-cases, List, Option, Text, [], ap, arith, false, if◌then◌else◌, inl}
use beiran.Base.{inr, member, none, refl, same, same_iff, same_refl, some, sym, true, ◌∙◌, ◌∷◌}
use beiran.Base.{◌≡◌}
use beiran.Container.Fetch.{at_node}
use beiran.Container.Model.{IsUnique, filter, filter-IsUnique, find, find-filter, is_available}
use beiran.Container.Model.{keep}
use beiran.Container.Table.{Table}
use beiran.Container.Tags.{Image, ImageColumns, Like, get_image_data, remove, set_tag, set_tags}
use beiran.Container.Tags.{tag_image, tag_target, untag_others}
use beiran.Container.Tags.Found.{get_image_data-get}

module _ (L : Like) (T : Table ImageColumns) (v : Text) where
  save-at_node :
      (k : Text) (q : Image) (s : T.State)
      → at_node v (T.get q.key s) ≡ is_available v q
      → at_node v (T.get k (T.save q s)) ≡ at_node v (T.get k s)
  unfolding at_node
  save-at_node k q s e = elim (Bool-cases (same q.key k)) [
    | inl own ↦
        rw (T.get-save, own) (sym e ∙ ap (λ j. at_node v (T.get j s)) ((same_iff q.key k).0 own))
    | inr other ↦ rw (T.get-save, other) refl
  ]

  -- The rows say which images are available at the node.
  abbrev AreStored : List Image → T.State → Type 0
  AreStored rs s =
      (k : Text) (r : Image) → find k rs ≡ some r → at_node v (T.get k s) ≡ is_available v r

  tail-AreStored :
      (q : Image) (rs : List Image) (s t : T.State)
      → IsUnique (q ∷ rs)
      → ((k : Text) → at_node v (T.get k t) ≡ at_node v (T.get k s))
      → AreStored (q ∷ rs) s
      → AreStored rs t
  unfolding find
  tail-AreStored q rs s t u same_nodes h k r e =
      let apart : q.key ≡ k → find k rs ≡ none = λ p. ap (λ j. find j rs) (sym p) ∙ u.0 in
      same_nodes k ∙ h k r (ground (arith, same_iff q.key k, apart))

  untag_others-at_node :
      (tag target_id k : Text) (rs : List Image) (s : T.State)
      → IsUnique rs
      → AreStored rs s
      → at_node v (T.get k (untag_others L T tag target_id rs s).0) ≡ at_node v (T.get k s)
  unfolding untag_others
  untag_others-at_node tag target_id k [] s u h = refl
  untag_others-at_node tag target_id k (r ∷ rs) s u h =
      let q = set_tags (remove tag r.rest.tags) r in
      let head_stored : at_node v (T.get q.key s) ≡ is_available v q =
        unfold set_tags in h r.key r (unfold find in rw (same_refl) refl) in
      let saved = λ (j : Text). save-at_node j q s head_stored in
      choose (same r.key target_id) (member tag r.rest.tags) _ _
        (untag_others-at_node tag target_id k rs s u.1 (tail-AreStored r rs s s u (λ j. refl) h))
        (untag_others-at_node tag target_id k rs (T.save q s) u.1
            (tail-AreStored r rs s (T.save q s) u saved h)
          ∙ saved k)
    where
      choose :
          (a b : Bool) (x y : T.State × Bool)
          → at_node v (T.get k x.0) ≡ at_node v (T.get k s)
          → at_node v (T.get k y.0) ≡ at_node v (T.get k s)
          → at_node v (T.get k (if a then x else if b then y else (s, false)).0)
            ≡ at_node v (T.get k s)
      choose true b x y p q = p
      choose false true x y p q = q
      choose false false x y p q = refl

  set_tag-at_node :
      (tag k : Text) (target : Image) (s : T.State)
      → T.get target.key s ≡ some target
      → at_node v (T.get k (set_tag L T tag target s)) ≡ at_node v (T.get k s)
  unfolding set_tag
  set_tag-at_node tag k target s e = elim (Bool-cases (member tag target.rest.tags)) [
    | inl h ↦ rw (h) refl
    | inr h ↦
        rw (h)
          (save-at_node k (set_tags (tag ∷ []) target) s (unfold set_tags at_node in rw (e) refl))
  ]

  -- The rows of a query over the table.
  filter-AreStored : (p : Image → Bool) (s : T.State) → AreStored (filter p (T.select s)) s
  filter-AreStored p s k r e = kept (T.get k s) (
      ap (keep p) (T.get-select k s)
      ∙ (sym (find-filter k p (T.select s) (T.select-IsUnique s)) ∙ e))
    where
      kept : (o : Option Image) → keep p o ≡ some r → at_node v o ≡ is_available v r
      kept none f = absurd (unfold keep in ground arith)
      kept (some q) f =
          let same_row : q ≡ r = unfold keep in ground arith in
          unfold at_node in ap (λ x. is_available v x) same_row

  pub tag_image-at_node :
      (image_id tag k : Text) (s : T.State)
      → at_node v (T.get k (tag_image L T image_id tag s).0) ≡ at_node v (T.get k s)
  unfolding tag_image
  tag_image-at_node image_id tag k s = found (get_image_data L T image_id s) refl
    where
      found :
          (o : Option Image)
          → get_image_data L T image_id s ≡ o
          → at_node v (T.get k (tag_target L T tag o s).0) ≡ at_node v (T.get k s)
      found none e = refl
      found (some r) e =
          let p : Image → Bool = λ q. L.has_item tag q.rest.tags in
          let t = set_tag L T tag r s in
          untag_others-at_node tag r.key k (filter p (T.select t)) t
            (filter-IsUnique p (T.select t) (T.select-IsUnique t)) (filter-AreStored p t)
          ∙ set_tag-at_node tag k r s (get_image_data-get L T image_id s r e)
