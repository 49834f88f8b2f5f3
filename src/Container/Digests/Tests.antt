-- ===== src/Container/Digests/Tests.antt =====
-- The diff id of a layer that is in the cache, compressed.
use beiran.Base.{Text, [], codes, none, pos, refl, same, some, split_text, starts_with, ◌∷◌, ◌≡◌}
use beiran.Base.Dict.{erase, insert, lookup}
use beiran.Container.Chain.{Mappings, get_diffid_by_digest}
use beiran.Container.Digests.{Hasher, concat, decompress_gz_layer, digested, get_layer_diffid}
use beiran.Container.Digests.Addressed.{IsAddressed, get_layer_diffid-IsAddressed}
use beiran.Container.Layers.{Job, Source, dl_init, download_layer_from_origin}
use beiran.Container.Layers.{ensure_having_layer, get_layer_gz_file, get_layer_tar_file, is_some}
use beiran.Container.Layers.{path_join}
use beiran.Container.Registry.{Login}
use beiran.ImageRef.{Ref, add_idpref, del_idpref}

-- The digest is the text itself behind an x, and the compression doubles each byte.
abbrev halves : Text → Text
halves [] = []
halves (c ∷ []) = []
halves (c ∷ d ∷ s) = c ∷ halves s

abbrev hasher : Hasher
hasher = record { hexdigest = λ s. b'x' ∷ s; gunzip = λ s. some (halves s); temporary = codes "t" }

abbrev cache : Source
cache = record {
  layer_tar_path = codes "/c/tar";
  layer_gz_path = codes "/c/gz";
  origin = record {
    heads = λ u. [];
    gets = λ u req accept. [];
    token = λ h. none;
    b64encode = λ s. s;
  };
  sizes = λ u req. [];
  streams = λ u req. [];
  ensure_layer_func = λ g. ([], []);
}

abbrev nobody : Login
nobody = (none, none)

abbrev some_ref : Ref
some_ref = record {
  domain = codes "r.io";
  repo = codes "a";
  sign = codes ":";
  suffix = codes "latest";
}

abbrev one_mapping : Mappings
one_mapping = record {
  diffid_mapping = (codes "sha256:d", codes "sha256:g") ∷ [];
  layerdb_mapping = [];
}

abbrev compressed : Job
compressed = record {
  files = (codes "/c/gz/g.tar.gz", codes "aab" ∷ codes "b" ∷ []) ∷ [];
  layer_status = dl_init;
  size = pos 0;
  queue = [];
}

-- The file is stored under its diff id.
get_layer_diffid_run :
    get_layer_diffid hasher cache nobody some_ref (codes "sha256:g") one_mapping compressed ≡ (
      record compressed {
        files =
            (codes "/c/gz/g.tar.gz", codes "aab" ∷ codes "b" ∷ [])
            ∷ (codes "/c/tar/xab.tar", codes "ab" ∷ [])
            ∷ [];
      },
      digested (codes "sha256:xab"),
    )
unfolding get_layer_diffid ensure_having_layer download_layer_from_origin get_diffid_by_digest
    del_idpref split_text starts_with same lookup is_some insert erase get_layer_tar_file
    get_layer_gz_file path_join decompress_gz_layer add_idpref concat
get_layer_diffid_run = refl

get_layer_diffid-IsAddressed_example :
    IsAddressed hasher cache
      (get_layer_diffid hasher cache nobody some_ref (codes "sha256:g") one_mapping compressed)
get_layer_diffid-IsAddressed_example =
    get_layer_diffid-IsAddressed hasher cache nobody some_ref (codes "sha256:g") one_mapping
      compressed
