-- ===== src/Docker/Peers/Added.antt =====
-- The table of layers after fetch_layers_from_peer of plugins/beiran_interface_docker/plugin_docker.py.
use beiran.Base.{Bool, Bool-cases, List, Option, Text, [], ap, arith, codes, false, inl, inr}
use beiran.Base.{member, none, refl, same, same_iff, some, split_text-second, starts_with, true}
use beiran.Base.{◌&&◌, ◌++◌, ◌||◌, ◌↔◌, ◌∙◌, ◌∷◌, ◌≡◌, ◌⊎◌}
use beiran.Container.Layers.{Source, get_layer_gz_file, get_layer_tar_file, path_join}
use beiran.Container.Model.{is_available-set, set_available_at}
use beiran.Container.Table.{Table}
use beiran.Docker.LayerTable.{Layer, LayerTable, get_by_diff_id}
use beiran.Docker.LayerTable.Held.{IsHeld, get_by_diff_id-some, insert-IsHeld, save-IsHeld}
use beiran.Docker.Peers.{cache_gz_path_of, docker_path_of, fetch_layers_from_peer, go_on}
use beiran.Docker.Peers.{if_exists, save_layer_at_node, save_layer_found, save_local_paths}
use beiran.Docker.Peers.{truthy_digest}
use beiran.Docker.Storage.{Storage, cache_id_file, done, get_cache_id_from_chain_id}
use beiran.Docker.Storage.{layerdir_path, no_file, or_raise}
use beiran.ImageRef.{del_idpref, id_prefix}

-- An id never makes `del_idpref` fail.
del_idpref-some : (id : Text) → (t : Text) × (del_idpref id ≡ some t)
unfolding del_idpref
del_idpref-some id = elim (Bool-cases (starts_with id id_prefix)) [
  | inl e ↦ let (w, f) = split_text-second b's' (codes "ha256:") id e in (w, rw (e) f)
  | inr e ↦ (id, rw (e) refl)
]

module _ (D : Storage) (S : Source) where
  gz_file-some : (g : Text) → (p : Text) × (get_layer_gz_file S g ≡ some p)
  unfolding get_layer_gz_file
  gz_file-some g =
      let (t, e) = del_idpref-some g in
      (path_join S.layer_gz_path (t ++ codes ".tar.gz"), rw (e) refl)

  tar_file-some : (d : Text) → (p : Text) × (get_layer_tar_file S d ≡ some p)
  unfolding get_layer_tar_file
  tar_file-some d =
      let (t, e) = del_idpref-some d in
      (path_join S.layer_tar_path (t ++ codes ".tar"), rw (e) refl)

  docker_path_of-done :
      (o : Option Text) → (d : Option Text) × (docker_path_of D (or_raise no_file o) ≡ done d)
  unfolding docker_path_of
  docker_path_of-done none = (none, refl)
  docker_path_of-done (some c) = (if_exists D.exists (layerdir_path D c), refl)

  cache_gz_path_of-done :
      (g old : Option Text) → (p : Option Text) × (cache_gz_path_of D S g old ≡ done p)
  unfolding cache_gz_path_of
  cache_gz_path_of-done none old = (old, refl)
  cache_gz_path_of-done (some g) old =
      let (p, e) = gz_file-some g in (if_exists D.exists p, rw (e) refl)

  -- `save_local_paths` raises nothing, and sets the paths only.
  pub save_local_paths-done :
      (r : Layer)
      → (q : Layer) × (save_local_paths D S r ≡ done q)
        × (q.key ≡ r.key)
        × (q.available_at ≡ r.available_at)
        × (q.rest.diff_id ≡ r.rest.diff_id)
  unfolding save_local_paths get_cache_id_from_chain_id
  save_local_paths-done r =
      let (a, e) = docker_path_of-done (D.file (cache_id_file D r.rest.chain_id)) in
      let (b, f) = tar_file-some r.rest.diff_id in
      let (c, g) = cache_gz_path_of-done (truthy_digest r.rest.digest) r.rest.cache_gz_path in
      (
        record r {
          rest = record r.rest {
            docker_path = a;
            cache_path = if_exists D.exists b;
            cache_gz_path = c;
          };
        },
        rw (e, f, g) refl,
        refl,
        refl,
        refl,
      )

unfoldable pub diff_ids : List Layer → List Text
diff_ids [] = []
diff_ids (r ∷ rs) = r.rest.diff_id ∷ diff_ids rs

module _ (D : Storage) (S : Source) (T : LayerTable) where
  -- What a write of a layer for a node leaves: nothing is raised, and the node has the layer too.
  abbrev Adds : Text → Text → Text → Table.State T.table → Table.State T.table × Bool → Type 0
  Adds u diff_id v s out =
      (out.1 ≡ true)
      × ((d : Text) → IsHeld T v d out.0 ↔ (IsHeld T v d s ⊎ ((same u v ≡ true) × (diff_id ≡ d))))

  key-set : (u : Text) (r : Layer) → (set_available_at u r).key ≡ r.key
  unfolding set_available_at
  key-set u r = ground arith

  diff_id-set : (u : Text) (r : Layer) → (set_available_at u r).rest.diff_id ≡ r.rest.diff_id
  unfolding set_available_at
  diff_id-set u r = ground arith

  save_layer_found-Adds :
      (u v : Text) (layer : Layer) (s : Table.State T.table) (o : Option Layer)
      → get_by_diff_id T layer.rest.diff_id s ≡ o
      → Adds u layer.rest.diff_id v s (save_layer_found D S T u layer o s)
  unfolding save_layer_found
  save_layer_found-Adds u v layer s none e =
      let new : Layer = record layer {
        available_at = u ∷ [];
        rest = record layer.rest { local_image_refs = [] };
      } in
      let (q, f, k, a, m) = save_local_paths-done D S new in
      rw (f) (refl, λ d. insert-IsHeld T u v layer.rest.diff_id d s q a m)
  save_layer_found-Adds u v layer s (some r) e =
      let (there, own) = get_by_diff_id-some T layer.rest.diff_id s r e in
      let (q, f, k, a, m) = save_local_paths-done D S (set_available_at u r) in
      rw (f) (
        refl,
        λ d.
            save-IsHeld T u v layer.rest.diff_id d s r q there (k ∙ key-set u r) own
              (m ∙ diff_id-set u r) (ap (λ l. member v l) a ∙ is_available-set u v r),
      )

  abbrev pub AddsAll :
      Text → List Text → Text → Table.State T.table → Table.State T.table × Bool → Type 0
  AddsAll u ids v s out =
      (out.1 ≡ true)
      × ((d : Text) → IsHeld T v d out.0 ↔ (IsHeld T v d s ⊎ ((same u v && member d ids) ≡ true)))

  go_on-AddsAll :
      (u c v : Text) (ids : List Text) (s : Table.State T.table)
      → (rest : Table.State T.table → Table.State T.table × Bool)
      → (out : Table.State T.table × Bool) → Adds u c v s out
      → ((t : Table.State T.table) → AddsAll u ids v t (rest t))
      → AddsAll u (c ∷ ids) v s (go_on D S T rest out)
  unfolding go_on member
  go_on-AddsAll u c v ids s rest (t, false) h k = absurd (ground (arith, h.0))
  go_on-AddsAll u c v ids s rest (t, true) h k =
      let (ends, whole) = k t in
      (ends, λ d. (to d ((h.1 d).0) ((whole d).0), from d ((h.1 d).1) ((whole d).1)))
    where
      to :
          (d : Text)
          → (IsHeld T v d t → IsHeld T v d s ⊎ ((same u v ≡ true) × (c ≡ d)))
          → (IsHeld T v d (rest t).0 → IsHeld T v d t ⊎ ((same u v && member d ids) ≡ true))
          → IsHeld T v d (rest t).0
          → IsHeld T v d s ⊎ ((same u v && (same c d || member d ids)) ≡ true)
      to d one whole held = elim (whole held) [
        | inl now ↦ elim (one now) [
          | inl before ↦ inl before
          | inr (w, m) ↦ inr (ground (arith, same_iff c d))
        ]
        | inr m ↦ inr (ground arith)
      ]

      from :
          (d : Text)
          → (IsHeld T v d s ⊎ ((same u v ≡ true) × (c ≡ d)) → IsHeld T v d t)
          → (IsHeld T v d t ⊎ ((same u v && member d ids) ≡ true) → IsHeld T v d (rest t).0)
          → IsHeld T v d s ⊎ ((same u v && (same c d || member d ids)) ≡ true)
          → IsHeld T v d (rest t).0
      from d one whole (inl before) = whole (inl (one (inl before)))
      from d one whole (inr m) = elim (Bool-cases (same c d)) [
        | inl e ↦ whole (inl (one (inr (ground arith, (same_iff c d).0 e))))
        | inr e ↦ whole (inr (ground arith))
      ]

  -- Nothing is raised, and the node of the peer has the layers it had and those that were sent.
  pub fetch_layers_from_peer-AddsAll :
      (u v : Text) (layers : List Layer) (s : Table.State T.table)
      → AddsAll u (diff_ids layers) v s (fetch_layers_from_peer D S T layers u s)
  unfolding fetch_layers_from_peer diff_ids save_layer_at_node member
  fetch_layers_from_peer-AddsAll u v [] s =
      (refl, λ d. (λ h. inl h, λ h. elim h [ inl w ↦ w | inr f ↦ absurd (ground arith) ]))
  fetch_layers_from_peer-AddsAll u v (layer ∷ layers) s =
      let o = get_by_diff_id T layer.rest.diff_id s in
      go_on-AddsAll u layer.rest.diff_id v (diff_ids layers) s
        (λ t. fetch_layers_from_peer D S T layers u t) (save_layer_found D S T u layer o s)
        (save_layer_found-Adds u v layer s o refl)
        (λ t. fetch_layers_from_peer-AddsAll u v layers t)
