-- ===== src/Docker/Ensure/Asked.antt =====
-- What ensure_docker_having_layer of plugins/beiran_interface_docker/util.py gives.
use beiran.Base.{Bool, List, Option, Text, [], ap, arith, codes, false, if◌then◌else◌, inl, inr}
use beiran.Base.{none, refl, same, same_iff, some, true, ◌++◌, ◌∙◌, ◌∷◌, ◌≡◌, ◌≢◌, ◌⊎◌}
use beiran.Container.Layers.{Source, get_layer_tar_file}
use beiran.Container.Rows.{first_where, first_where-find}
use beiran.Container.Table.{Table}
use beiran.Docker.Ensure.{after_assembly, ask_nodes, assemble_layer_tar, diffid_of}
use beiran.Docker.Ensure.{ensure_docker_having_layer, is_of_digest, of_diff_id, of_layer}
use beiran.Docker.Ensure.{of_tar_path, truthy_path}
use beiran.Docker.LayerTable.{Layer, LayerTable}
use beiran.Docker.Mappings.{Mappings}
use beiran.Docker.Storage.{Outcome, Storage, bad_json, bad_number, cannot_find_layer_mapping}
use beiran.Docker.Storage.{daemon_failed, done, layer_metadata_not_found, layer_not_found}
use beiran.Docker.Storage.{no_attribute, no_file, no_image, no_index, no_key, no_node, no_value}
use beiran.Docker.Storage.{raises}

module _ (D : Storage) (S : Source) (T : LayerTable) (here : Text) (is_node : Text → Bool) where
  -- All of them are the local node.
  abbrev pub AreHere : List Text → Type 0
  AreHere [] = Unit
  AreHere (n ∷ ns) = (n ≡ here) × AreHere ns

  -- Nothing is found, or the tarball was assembled from docker's storage.
  abbrev IsFound : Text → Mappings → Table.State T.table → Outcome (Text × Text) → Type 0
  IsFound digest m s (raises e) = Unit
  IsFound digest m s (done (storage, path)) =
      ((storage ≡ []) × (path ≡ []))
      ⊎ ((storage ≡ codes "cache")
          × ((r : Layer) × (Table.get T.table r.key s ≡ some r)
              × (r.rest.digest ≡ some digest)
              × (assemble_layer_tar D S m r.rest.diff_id ≡ done path)))

  if-IsFound :
      (digest : Text) (m : Mappings) (s : Table.State T.table) (b : Bool)
      (x y : Outcome (Text × Text))
      → IsFound digest m s x
      → IsFound digest m s y
      → IsFound digest m s (if b then x else y)
  if-IsFound digest m s true x y h k = h
  if-IsFound digest m s false x y h k = k

  ask_nodes-IsFound :
      (digest : Text) (m : Mappings) (s : Table.State T.table) (ns : List Text)
      → IsFound digest m s (ask_nodes D S T here is_node ns)
  unfolding ask_nodes
  ask_nodes-IsFound digest m s [] = inl (refl, refl)
  ask_nodes-IsFound digest m s (n ∷ ns) =
      if-IsFound digest m s (same n here) (ask_nodes D S T here is_node ns) _
        (ask_nodes-IsFound digest m s ns)
        (if-IsFound digest m s (is_node n) (raises no_attribute) (raises no_node) tt tt)

  ask_nodes-raises :
      (own : List Text) (n : Text) (ns : List Text)
      → AreHere own
      → n ≢ here
      → is_node n ≡ true
      → ask_nodes D S T here is_node (own ++ (n ∷ ns)) ≡ raises no_attribute
  unfolding ask_nodes
  ask_nodes-raises [] n ns h other k = ground (arith, same_iff n here)
  ask_nodes-raises (o ∷ own) n ns h other k =
      let e : same o here ≡ true = (same_iff o here).1 h.0 in
      rw (e) (ask_nodes-raises own n ns h.1 other k)

  digest-fits :
      (digest : Text) (r : Layer) → is_of_digest digest r ≡ true → r.rest.digest ≡ some digest
  unfolding is_of_digest
  digest-fits digest r h = go r.rest.digest h
    where
      go :
          (o : Option Text)
          → (let fits : Bool = elim o [ none ↦ false | some g ↦ same g digest ] in fits) ≡ true
          → o ≡ some digest
      go none h = absurd cc
      go (some g) h = ap some ((same_iff g digest).0 h)

  of_digest :
      (digest : Text) (s : Table.State T.table) (r : Layer)
      → first_where (is_of_digest digest) (Table.select T.table s) ≡ some r
      → (Table.get T.table r.key s ≡ some r) × (r.rest.digest ≡ some digest)
  of_digest digest s r e =
      let (there, fits) =
        first_where-find (is_of_digest digest) (Table.select T.table s) r
          (Table.select-IsUnique T.table s) e in
      (Table.get-select T.table r.key s ∙ there, digest-fits digest r fits)

  after_assembly-IsFound :
      (digest : Text) (m : Mappings) (s : Table.State T.table) (r : Layer) (o : Outcome Text)
      → (Table.get T.table r.key s ≡ some r) × (r.rest.digest ≡ some digest)
      → assemble_layer_tar D S m r.rest.diff_id ≡ o
      → IsFound digest m s (after_assembly D S T here is_node r s o).1
  unfolding after_assembly
  after_assembly-IsFound digest m s r (done path) e f = inr (refl, (r, e.0, e.1, f))
  after_assembly-IsFound digest m s r (raises layer_metadata_not_found) e f =
      ask_nodes-IsFound digest m s r.available_at
  after_assembly-IsFound digest m s r (raises no_index) e f = inl (refl, refl)
  after_assembly-IsFound digest m s r (raises no_file) e f = tt
  after_assembly-IsFound digest m s r (raises no_key) e f = tt
  after_assembly-IsFound digest m s r (raises bad_number) e f = tt
  after_assembly-IsFound digest m s r (raises bad_json) e f = tt
  after_assembly-IsFound digest m s r (raises no_attribute) e f = tt
  after_assembly-IsFound digest m s r (raises no_value) e f = tt
  after_assembly-IsFound digest m s r (raises no_node) e f = tt
  after_assembly-IsFound digest m s r (raises no_image) e f = tt
  after_assembly-IsFound digest m s r (raises daemon_failed) e f = tt
  after_assembly-IsFound digest m s r (raises cannot_find_layer_mapping) e f = tt
  after_assembly-IsFound digest m s r (raises layer_not_found) e f = tt

  of_layer-IsFound :
      (digest : Text) (m : Mappings) (s : Table.State T.table) (o : Option Layer)
      → ((r : Layer)
          → o ≡ some r
          → (Table.get T.table r.key s ≡ some r) × (r.rest.digest ≡ some digest))
      → IsFound digest m s (of_layer D S T here is_node m s o).1
  unfolding of_layer
  of_layer-IsFound digest m s none h = inl (refl, refl)
  of_layer-IsFound digest m s (some r) h = go (truthy_path r.rest.docker_path)
    where
      go :
          (b : Bool)
          → IsFound digest m s
              (if b
                then after_assembly D S T here is_node r s (assemble_layer_tar D S m r.rest.diff_id)
                else (s, ask_nodes D S T here is_node r.available_at)).1
      go true =
          after_assembly-IsFound digest m s r (assemble_layer_tar D S m r.rest.diff_id) (h r refl)
            refl
      go false = ask_nodes-IsFound digest m s r.available_at

  -- When ensure_docker_having_layer returns, it gives nothing or the tarball that was assembled from
  -- docker's storage for a row of the table that has the digest: no layer comes from another node.
  pub ensure_docker_having_layer-IsFound :
      (digest : Text) (m : Mappings) (s : Table.State T.table) (storage path : Text)
      → (ensure_docker_having_layer D S T here is_node digest m s).1 ≡ done (storage, path)
      → ((storage ≡ []) × (path ≡ []))
        ⊎ ((storage ≡ codes "cache")
            × ((r : Layer) × (Table.get T.table r.key s ≡ some r)
                × (r.rest.digest ≡ some digest)
                × (assemble_layer_tar D S m r.rest.diff_id ≡ done path)))
  unfolding ensure_docker_having_layer
  ensure_docker_having_layer-IsFound digest m s storage path e =
      of_done (ensure_docker_having_layer D S T here is_node digest m s).1
        (found (diffid_of digest m.diffid_mapping)) e
    where
      of_done :
          (o : Outcome (Text × Text))
          → IsFound digest m s o
          → o ≡ done (storage, path)
          → IsFound digest m s (done (storage, path))
      of_done (raises k) h e = absurd (ground arith)
      of_done (done (a, b)) (inl (p, q)) e = inl (ground arith, ground arith)
      of_done (done (a, b)) (inr (p, (r, there, fits, f))) e =
          let same_path : b ≡ path = ground arith in
          inr (ground arith, (r, there, fits, f ∙ ap done same_path))

      in_table :
          (o : Option Text) → IsFound digest m s (of_tar_path D S T here is_node digest m s o).1
      in_table none = tt
      in_table (some p) =
          of_layer-IsFound digest m s (first_where (is_of_digest digest) (Table.select T.table s))
            (λ r e. of_digest digest s r e)

      found : (o : Option Text) → IsFound digest m s (of_diff_id D S T here is_node digest m s o).1
      found none = tt
      found (some d) = in_table (get_layer_tar_file S d)

  -- If a layer is not in docker's storage and some other node that is in the table has it,
  -- ensure_docker_having_layer raises an AttributeError.
  ensure_docker_having_layer-raises :
      (digest diff_id tar n : Text) (own ns : List Text) (m : Mappings) (s : Table.State T.table)
      → (r : Layer) → diffid_of digest m.diffid_mapping ≡ some diff_id
      → get_layer_tar_file S diff_id ≡ some tar
      → first_where (is_of_digest digest) (Table.select T.table s) ≡ some r
      → truthy_path r.rest.docker_path ≡ false
      → r.available_at ≡ own ++ (n ∷ ns)
      → AreHere own
      → n ≢ here
      → is_node n ≡ true
      → (ensure_docker_having_layer D S T here is_node digest m s).1 ≡ raises no_attribute
  unfolding ensure_docker_having_layer
  ensure_docker_having_layer-raises digest diff_id tar n own ns m s r e f g h a k other there =
      rw (e, f, g, h, a) (ask_nodes-raises own n ns k other there)
