-- ===== src/Container/Tarball/Archived.antt =====
-- What create_image_from_tar of plugins/beiran_package_container/container.py puts into the tarball.
use beiran.Base.{Bool, List, Option, Text, [], ap, codes, false, inl, inr, none, refl, same}
use beiran.Base.{same_iff, same_refl, some, sym, true, ◌++◌, ◌∙◌, ◌∷◌, ◌≡◌, ◌⊎◌}
use beiran.Base.Dict.{Dict, lookup, lookup-insert}
use beiran.Container.Layers.{Source, get_layer_tar_file}
use beiran.Container.Tarball.{Disk, Entry, Tarred, Tools, add_layer, add_layers, archive}
use beiran.Container.Tarball.{bad_config, bad_id, checked, close_tar, config_error, content_at}
use beiran.Container.Tarball.{create_image_from_tar, in_tmp, layer_content, layer_missing}
use beiran.Container.Tarball.{more_names, refused, tar_names, tarred, with_default_tag}
use beiran.Container.Tarball.{with_diff_ids, with_id, with_names}
use beiran.ImageRef.{del_idpref}

module _ (J : Tools) (S : Source) where
  -- Each layer of the image is a member under its bare diff id, with the file of the layer cache.
  abbrev pub AreMembers : Dict Text → List Text → List (Text × Text) → Type 0
  AreMembers files [] [] = Unit
  AreMembers files [] (m ∷ ms) = ⊥
  AreMembers files (d ∷ ds) [] = ⊥
  AreMembers files (d ∷ ds) ((name, content) ∷ ms) =
      ((bare : Text) × (path : Text) × (del_idpref d ≡ some bare)
        × (name ≡ bare ++ codes ".tar")
        × (get_layer_tar_file S d ≡ some path)
        × (lookup path files ≡ some content))
      × AreMembers files ds ms

  -- Some layer of the image has no file in the layer cache.
  abbrev pub IsMissing : Dict Text → List Text → Type 0
  IsMissing files [] = ⊥
  IsMissing files (d ∷ ds) = (layer_content J S d files ≡ none) ⊎ IsMissing files ds

  -- The tarball holds the config, whose digest is the id of the image, the manifest and the layers.
  abbrev pub IsComplete : Text → Text → Disk × Tarred → Type 0
  IsComplete config image_id (k, refused config_error) =
      ¬ (del_idpref image_id ≡ some (J.hexdigest config))
  IsComplete config image_id (k, refused layer_missing) =
      (ids : List Text) × (J.diff_ids_of config ≡ some ids) × IsMissing k.files ids
  IsComplete config image_id (k, refused bad_config) = J.diff_ids_of config ≡ none
  IsComplete config image_id (k, refused bad_id) =
      (del_idpref image_id ≡ none)
      ⊎ ((ids : List Text) × (J.diff_ids_of config ≡ some ids) × (tar_names ids ≡ none))
  IsComplete config image_id (k, tarred tar_path) =
      (del_idpref image_id ≡ some (J.hexdigest config))
      × ((ids : List Text) × (e : Entry) × (ms : List (Text × Text)) × (J.diff_ids_of config
            ≡ some ids)
          × (tar_names ids ≡ some e.layer_names)
          × (e.config_name ≡ J.hexdigest config ++ codes ".json")
          × (lookup tar_path k.archives
              ≡ some ((e.config_name, config) ∷ (codes "manifest.json", J.dumps e) ∷ ms))
          × AreMembers k.files ids ms)

  layer_content-Found :
      (o : Option Text) (k : Disk) (content : Text)
      → content_at J S o k.files ≡ some content
      → (path : Text) × (o ≡ some path) × (lookup path k.files ≡ some content)
  unfolding content_at
  layer_content-Found none k content e = absurd cc
  layer_content-Found (some path) k content e = (path, refl, e)

  add_layer-AreMembers :
      (d name bare : Text) (ds ns : List Text) (k : Disk) (o : Option Text)
      (rest : List (Text × Text) × Bool)
      → del_idpref d ≡ some bare
      → name ≡ bare ++ codes ".tar"
      → layer_content J S d k.files ≡ o
      → (add_layer name o rest).1 ≡ true
      → (rest.1 ≡ true → AreMembers k.files ds rest.0)
      → AreMembers k.files (d ∷ ds) (add_layer name o rest).0
  unfolding add_layer layer_content
  add_layer-AreMembers d name bare ds ns k none (ms, fine) p q r f ih = absurd cc
  add_layer-AreMembers d name bare ds ns k (some content) (ms, fine) p q r f ih =
      let (path, at, there) = layer_content-Found (get_layer_tar_file S d) k content r in
      ((bare, path, p, q, at, there), ih f)

  names_step :
      (d name : Text) (ds ns : List Text) (b : Option Text) (rest : Option (List Text))
      → more_names b rest ≡ some (name ∷ ns)
      → (bare : Text) × (b ≡ some bare) × (name ≡ bare ++ codes ".tar") × (rest ≡ some ns)
  unfolding more_names
  names_step d name ds ns none rest e = absurd cc
  names_step d name ds ns (some bare) none e = absurd cc
  names_step d name ds ns (some bare) (some names) e = (bare, refl, cc, cc)

  no_names :
      (d : Text) (b : Option Text) (rest : Option (List Text)) → ¬ (more_names b rest ≡ some [])
  unfolding more_names
  no_names d none rest e = cc
  no_names d (some bare) none e = cc
  no_names d (some bare) (some names) e = cc

  add_layers-AreMembers :
      (ids names : List Text) (k : Disk)
      → tar_names ids ≡ some names
      → (add_layers J S ids names k).1 ≡ true
      → AreMembers k.files ids (add_layers J S ids names k).0
  unfolding add_layers tar_names
  add_layers-AreMembers [] names k e f = tt
  add_layers-AreMembers (d ∷ ds) [] k e f = absurd cc
  add_layers-AreMembers (d ∷ ds) (name ∷ ns) k e f =
      let (bare, p, q, more) = names_step d name ds ns (del_idpref d) (tar_names ds) e in
      add_layer-AreMembers d name bare ds ns k (layer_content J S d k.files)
        (add_layers J S ds ns k) p q refl f (add_layers-AreMembers ds ns k more)

  add_layer-IsMissing :
      (d name : Text) (ds : List Text) (k : Disk) (o : Option Text)
      (rest : List (Text × Text) × Bool)
      → layer_content J S d k.files ≡ o
      → (add_layer name o rest).1 ≡ false
      → (rest.1 ≡ false → IsMissing k.files ds)
      → IsMissing k.files (d ∷ ds)
  unfolding add_layer
  add_layer-IsMissing d name ds k none (ms, fine) r f ih = inl r
  add_layer-IsMissing d name ds k (some content) (ms, fine) r f ih = inr (ih f)

  add_layers-IsMissing :
      (ids names : List Text) (k : Disk)
      → tar_names ids ≡ some names
      → (add_layers J S ids names k).1 ≡ false
      → IsMissing k.files ids
  unfolding add_layers tar_names
  add_layers-IsMissing [] names k e f = absurd cc
  add_layers-IsMissing (d ∷ ds) [] k e f = absurd (no_names d (del_idpref d) (tar_names ds) e)
  add_layers-IsMissing (d ∷ ds) (name ∷ ns) k e f =
      let (bare, p, q, more) = names_step d name ds ns (del_idpref d) (tar_names ds) e in
      add_layer-IsMissing d name ds k (layer_content J S d k.files) (add_layers J S ds ns k) refl f
        (add_layers-IsMissing ds ns k more)

  close_tar-IsComplete :
      (config image_id : Text) (ids : List Text) (e : Entry) (k : Disk)
      (r : List (Text × Text) × Bool)
      → del_idpref image_id ≡ some (J.hexdigest config)
      → J.diff_ids_of config ≡ some ids
      → tar_names ids ≡ some e.layer_names
      → e.config_name ≡ J.hexdigest config ++ codes ".json"
      → (r.1 ≡ true → AreMembers k.files ids r.0)
      → (r.1 ≡ false → IsMissing k.files ids)
      → IsComplete config image_id (
          close_tar J S
            (in_tmp J S (codes "image.tar"))
            ((e.config_name, config) ∷ (codes "manifest.json", J.dumps e) ∷ [])
            k
            r)
  unfolding close_tar archive in_tmp
  close_tar-IsComplete config image_id ids e k (ms, false) p q n c h lost = (ids, q, lost refl)
  close_tar-IsComplete config image_id ids e k (ms, true) p q n c h lost =
      (p, (ids, e, ms, q, n, c, rw (lookup-insert, same_refl) refl, h refl))

  with_names-IsComplete :
      (t config image_id : Text) (ids : List Text) (k : Disk) (o : Option (List Text))
      → del_idpref image_id ≡ some (J.hexdigest config)
      → J.diff_ids_of config ≡ some ids
      → tar_names ids ≡ o
      → IsComplete config image_id
          (with_names J S t (J.hexdigest config ++ codes ".json") config ids k o)
  unfolding with_names
  with_names-IsComplete t config image_id ids k none p q n = inr (ids, q, n)
  with_names-IsComplete t config image_id ids k (some names) p q n =
      close_tar-IsComplete config image_id ids _ _ _ p q n refl
        (λ f. add_layers-AreMembers ids names _ n f) (λ f. add_layers-IsMissing ids names _ n f)

  with_diff_ids-IsComplete :
      (t config image_id : Text) (k : Disk) (o : Option (List Text))
      → del_idpref image_id ≡ some (J.hexdigest config)
      → J.diff_ids_of config ≡ o
      → IsComplete config image_id
          (with_diff_ids J S t (J.hexdigest config ++ codes ".json") config k o)
  unfolding with_diff_ids
  with_diff_ids-IsComplete t config image_id k none p q = q
  with_diff_ids-IsComplete t config image_id k (some ids) p q =
      with_names-IsComplete t config image_id ids k (tar_names ids) p q refl

  checked-IsComplete :
      (t config image_id bare : Text) (k : Disk) (b : Bool)
      → del_idpref image_id ≡ some bare
      → same (J.hexdigest config) bare ≡ b
      → IsComplete config image_id (checked J S t config bare k)
  unfolding checked
  checked-IsComplete t config image_id bare k false p e = rw e (λ q.
      let eq : J.hexdigest config ≡ bare = cc in
      absurd (cc ((same_iff (J.hexdigest config) bare).1 eq, e)))
  checked-IsComplete t config image_id bare k true p e =
      let eq : J.hexdigest config ≡ bare = (same_iff (J.hexdigest config) bare).0 e in
      rw (e, sym eq)
        (with_diff_ids-IsComplete t config image_id _ (J.diff_ids_of config) (p ∙ ap some (sym eq))
          refl)

  with_id-IsComplete :
      (t config image_id : Text) (k : Disk) (o : Option Text)
      → del_idpref image_id ≡ o
      → IsComplete config image_id (with_id J S t config k o)
  unfolding with_id checked
  with_id-IsComplete t config image_id k none p = inl p
  with_id-IsComplete t config image_id k (some bare) p =
      checked-IsComplete t config image_id bare k (same (J.hexdigest config) bare) p refl

  -- A tarball of create_image_from_tar has the config as its first member, under the id of the image,
  -- which is the digest of the config, then the manifest, then a member for each diff id of the config,
  -- in order, which is the file of the layer cache. An error is raised only if the digest of the
  -- config is not the id of the image, the config has no diff ids, an id has no bare form, or the
  -- layer cache lacks the file of a layer.
  pub create_image_from_tar-IsComplete :
      (tag_or_digest config image_id : Text) (k : Disk)
      → IsComplete config image_id (create_image_from_tar J S tag_or_digest config image_id k)
  unfolding create_image_from_tar
  create_image_from_tar-IsComplete tag_or_digest config image_id k =
      with_id-IsComplete (with_default_tag tag_or_digest) config image_id k (del_idpref image_id)
        refl
