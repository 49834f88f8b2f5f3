-- ===== src/Container/Tarball/Tests.antt =====
-- A tarball of an image with two layers, and one whose second layer is not there.
use beiran.Base.{[], codes, has, none, refl, same, some, split_text, starts_with, ◌∷◌, ◌≡◌}
use beiran.Base.Dict.{insert, lookup}
use beiran.Container.Layers.{Source, get_layer_tar_file, path_join}
use beiran.Container.Tarball.{Disk, Tools, config_error, create_image_from_tar, layer_missing}
use beiran.Container.Tarball.{refused}
use beiran.Container.Tarball.Archived.{IsComplete, create_image_from_tar-IsComplete}
use beiran.ImageRef.{add_default_tag, del_idpref, is_digest, is_tag}

-- The digest is the text itself behind an x, and the config is the list of its diff ids already.
abbrev tools : Tools
tools = record {
  hexdigest = λ s. b'x' ∷ s;
  diff_ids_of = λ s. some (codes "sha256:a" ∷ codes "sha256:b" ∷ []);
  dumps = λ e. e.config_name;
  tmp_path = codes "/t";
}

abbrev layer_cache : Source
layer_cache = record {
  layer_tar_path = codes "/c/tar";
  layer_gz_path = codes "/c/gz";
  origin = record {
    heads = λ u. [];
    gets = λ u req accept. [];
    token = λ h. none;
    b64encode = λ s. s;
  };
  sizes = λ u req. [];
  streams = λ u req. [];
  ensure_layer_func = λ g. ([], []);
}

abbrev both_layers : Disk
both_layers = record {
  files = (codes "/c/tar/a.tar", codes "1") ∷ (codes "/c/tar/b.tar", codes "2") ∷ [];
  archives = [];
}

abbrev one_layer : Disk
one_layer = record { files = (codes "/c/tar/a.tar", codes "1") ∷ []; archives = [] }

complete_run :
    (create_image_from_tar tools layer_cache
      (codes "u")
      (codes "c")
      (codes "sha256:xc")
      both_layers).0.archives
    ≡ (
      codes "/t/image.tar",
      (codes "xc.json", codes "c")
          ∷ (codes "manifest.json", codes "xc.json")
          ∷ (codes "a.tar", codes "1")
          ∷ (codes "b.tar", codes "2")
          ∷ [],
    )
      ∷ []
unfolding create_image_from_tar del_idpref split_text starts_with same lookup insert
    get_layer_tar_file path_join has is_digest is_tag add_default_tag
complete_run = refl

missing_run :
    (create_image_from_tar tools layer_cache
      (codes "u")
      (codes "c")
      (codes "sha256:xc")
      one_layer).1
    ≡ refused layer_missing
unfolding create_image_from_tar del_idpref split_text starts_with same lookup insert
    get_layer_tar_file path_join has is_digest is_tag add_default_tag
missing_run = refl

wrong_id_run :
    create_image_from_tar tools layer_cache (codes "u") (codes "c") (codes "sha256:xd") one_layer
    ≡ (one_layer, refused config_error)
unfolding create_image_from_tar del_idpref split_text starts_with same lookup insert
    get_layer_tar_file path_join has is_digest is_tag add_default_tag
wrong_id_run = refl

create_image_from_tar-IsComplete_example :
    IsComplete tools layer_cache (codes "c") (codes "sha256:xc") (
      create_image_from_tar tools layer_cache
        (codes "u")
        (codes "c")
        (codes "sha256:xc")
        both_layers)
create_image_from_tar-IsComplete_example =
    create_image_from_tar-IsComplete tools layer_cache (codes "u") (codes "c") (codes "sha256:xc")
      both_layers
