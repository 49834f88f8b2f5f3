-- ===== src/Container/Tarball.antt =====
-- plugins/beiran_package_container/container.py: the tarball of an image (create_image_from_tar).
-- SHA-256, the JSON of the config and of the manifest, and the directory for temporary files are
-- arguments. A tarball is the list of its members with their contents; it stays as far as it was
-- written when a layer is missing.
pub mod Archived
mod Tests
use beiran.Base.{Bool, List, Option, Text, [], codes, false, if◌then◌else◌, none, not, same, some}
use beiran.Base.{true, ◌++◌, ◌∷◌}
use beiran.Base.Dict.{Dict, insert, lookup}
use beiran.Container.Layers.{Source, get_layer_tar_file}
use beiran.ImageRef.{add_default_tag, del_idpref, is_digest, is_tag}

pub record Entry : Type 0 where
  pub config_name : Text
  pub repo_tags : Option Text
  pub layer_names : List Text

pub record Tools : Type 0 where
  pub hexdigest : Text → Text
  -- `json.loads(config_json_str)['rootfs']['diff_ids']`; `none` is an exception
  pub diff_ids_of : Text → Option (List Text)
  pub dumps : Entry → Text
  pub tmp_path : Text

pub record Disk : Type 0 where
  pub files : Dict Text
  pub archives : Dict (List (Text × Text))

pub data TarError : Type 0 where
  config_error layer_missing bad_config bad_id : TarError

pub data Tarred : Type 0 where
  tarred : Text → Tarred
  refused : TarError → Tarred

-- The reference with the latest tag, unless it has a digest or a tag.
with_default_tag : Text → Text
with_default_tag tag_or_digest =
    if is_digest tag_or_digest
    then tag_or_digest
    else if is_tag tag_or_digest
    then tag_or_digest
    else add_default_tag tag_or_digest

tags_of : Text → Option Text
tags_of t = if is_tag t then some t else none

more_names : Option Text → Option (List Text) → Option (List Text)
more_names none rest = none
more_names (some name) none = none
more_names (some name) (some names) = some ((name ++ codes ".tar") ∷ names)

pub tar_names : List Text → Option (List Text)
tar_names [] = some []
tar_names (d ∷ ds) = more_names (del_idpref d) (tar_names ds)

-- `tar.add` of one layer before those that follow; without the file nothing follows.
add_layer : Text → Option Text → List (Text × Text) × Bool → List (Text × Text) × Bool
add_layer name none rest = ([], false)
add_layer name (some content) (members, fine) = ((name, content) ∷ members, fine)

module _ (J : Tools) (S : Source) where
  in_tmp : Text → Text
  in_tmp name = J.tmp_path ++ (b'/' ∷ name)

  archive : Text → List (Text × Text) → Disk → Disk
  archive tar_path members k = record k { archives = insert tar_path members k.archives }

  content_at : Option Text → Dict Text → Option Text
  content_at none files = none
  content_at (some layer_tar_file) files = lookup layer_tar_file files

  pub layer_content : Text → Dict Text → Option Text
  layer_content diff_id files = content_at (get_layer_tar_file S diff_id) files

  -- The loop over the layers: the members that were added, and whether all layers were there.
  add_layers : List Text → List Text → Disk → List (Text × Text) × Bool
  add_layers [] names k = ([], true)
  add_layers (d ∷ ds) [] k = ([], false)
  add_layers (d ∷ ds) (name ∷ names) k =
      add_layer name (layer_content d k.files) (add_layers ds names k)

  close_tar : Text → List (Text × Text) → Disk → List (Text × Text) × Bool → Disk × Tarred
  close_tar tar_path first k (members, true) =
      (archive tar_path (first ++ members) k, tarred tar_path)
  close_tar tar_path first k (members, false) =
      (archive tar_path (first ++ members) k, refused layer_missing)

  with_names : Text → Text → Text → List Text → Disk → Option (List Text) → Disk × Tarred
  with_names t config_file_name config diff_id_list k none = (k, refused bad_id)
  with_names t config_file_name config diff_id_list k (some arc_tar_names) =
      let manifest = J.dumps (record {
        config_name = config_file_name;
        repo_tags = tags_of t;
        layer_names = arc_tar_names;
      }) in
      let written = record k { files = insert (in_tmp (codes "manifest.json")) manifest k.files } in
      close_tar (in_tmp (codes "image.tar"))
        ((config_file_name, config) ∷ (codes "manifest.json", manifest) ∷ []) written
        (add_layers diff_id_list arc_tar_names written)

  with_diff_ids : Text → Text → Text → Disk → Option (List Text) → Disk × Tarred
  with_diff_ids t config_file_name config k none = (k, refused bad_config)
  with_diff_ids t config_file_name config k (some ids) =
      with_names t config_file_name config ids k (tar_names ids)

  checked : Text → Text → Text → Disk → Disk × Tarred
  checked t config image_id k =
      let config_file_name = image_id ++ codes ".json" in
      if not (same (J.hexdigest config) image_id)
      then (k, refused config_error)
      else with_diff_ids t config_file_name config
          (record k { files = insert (in_tmp config_file_name) config k.files })
          (J.diff_ids_of config)

  with_id : Text → Text → Disk → Option Text → Disk × Tarred
  with_id t config k none = (k, refused bad_id)
  with_id t config k (some image_id) = checked t config image_id k

  unfoldable pub create_image_from_tar : Text → Text → Text → Disk → Disk × Tarred
  unfolding with_default_tag tags_of more_names tar_names add_layer in_tmp archive content_at
      layer_content add_layers close_tar with_names with_diff_ids checked with_id
  create_image_from_tar tag_or_digest config_json_str image_id k =
      with_id (with_default_tag tag_or_digest) config_json_str k (del_idpref image_id)
