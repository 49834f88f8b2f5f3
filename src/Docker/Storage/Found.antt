-- ===== src/Docker/Storage/Found.antt =====
-- Which directory docker_find_layer_dir_by_digest of plugins/beiran_interface_docker/util.py finds.
use beiran.Base.{List, Text, [], ap, append-nil, false, none, refl, same, same_refl, some, sym}
use beiran.Base.{◌++◌, ◌∙◌, ◌∷◌, ◌≡◌}
use beiran.Docker.Storage.{Storage, cache_id_path, diff_path, digest_path}
use beiran.Docker.Storage.{docker_find_layer_dir_by_digest, done, find_diff, layerdb_path}
use beiran.Docker.Storage.{layerdir_path, no_file, raises, under}
use beiran.ImageRef.{del_idpref}

module _ (D : Storage) where
  -- Each of the directories has a `diff`, and it is another one.
  abbrev pub HaveOther : Text → List Text → Type 0
  HaveOther diff_1 [] = Unit
  HaveOther diff_1 (n ∷ ns) =
      ((t : Text) × (D.file (diff_path D n) ≡ some t) × (same t diff_1 ≡ false))
      × HaveOther diff_1 ns

  find_diff-skip :
      (d : Text) (ns rest : List Text)
      → HaveOther d ns
      → find_diff D d (ns ++ rest) ≡ find_diff D d rest
  unfolding find_diff
  find_diff-skip d [] rest h = refl
  find_diff-skip d (n ∷ ns) rest ((t, e, f), hs) = rw (e, f) (find_diff-skip d ns rest hs)

  find_diff-hit :
      (d n : Text) (ns : List Text)
      → D.file (diff_path D n) ≡ some d
      → find_diff D d (n ∷ ns) ≡ done n
  unfolding find_diff
  find_diff-hit d n ns e = rw (e, find_diff, same_refl) refl

  -- If a digest has a file, the directory is found of the first layer whose `diff` is the text of
  -- the file, and it is named by the `cache-id` of the layer.
  docker_find_layer_dir_by_digest_lem :
      (digest name d n cache : Text) (before after : List Text)
      → del_idpref digest ≡ some name
      → D.file (under D (digest_path D) name) ≡ some d
      → D.listdir (layerdb_path D) ≡ some (before ++ (n ∷ after))
      → HaveOther d before
      → D.file (diff_path D n) ≡ some d
      → D.file (cache_id_path D n) ≡ some cache
      → docker_find_layer_dir_by_digest D digest ≡ done (some (layerdir_path D cache))
  unfolding docker_find_layer_dir_by_digest
  docker_find_layer_dir_by_digest_lem digest name d n cache before after e f l h m c =
      rw (e, f, l, find_diff-skip d before (n ∷ after) h, find_diff-hit d n after m, c) refl

  -- If a digest has a file, but no layer has its text as `diff`, FileNotFoundError is raises, unless
  -- there is a `cache-id` in the directory of the layer database itself.
  docker_find_layer_dir_by_digest-raises :
      (digest name d : Text) (names : List Text)
      → del_idpref digest ≡ some name
      → D.file (under D (digest_path D) name) ≡ some d
      → D.listdir (layerdb_path D) ≡ some names
      → HaveOther d names
      → D.file (cache_id_path D []) ≡ none
      → docker_find_layer_dir_by_digest D digest ≡ raises no_file
  unfolding docker_find_layer_dir_by_digest find_diff
  docker_find_layer_dir_by_digest-raises digest name d names e f l h c =
      rw (e, f, l, (ap (find_diff D d) (sym (append-nil names)) ∙ find_diff-skip d names [] h), c)
        refl
