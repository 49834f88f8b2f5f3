-- ===== src/Docker/Archive.antt =====
-- plugins/beiran_interface_docker/api.py: the archive of a layer that another node asks for
-- (prepare_tar_archive of LayerDownload).
pub mod Again
mod Tests
use beiran.Base.{List, Option, Text, codes, if◌then◌else◌, none, not, some, ◌&&◌}
use beiran.Container.Digests.{DigestError, Digested, Hasher, decompress_gz_layer, digested}
use beiran.Container.Digests.{no_path, undigested}
use beiran.Container.Layers.{Job, Source, get_layer_tar_file}
use beiran.Container.Rows.{first_where}
use beiran.Container.Table.{Table}
use beiran.Docker.Ensure.{assemble_layer_tar, is_of_digest, truthy_path}
use beiran.Docker.LayerTable.{Layer, LayerTable}
use beiran.Docker.Mappings.{Mappings}
use beiran.Docker.Storage.{DockerError, Outcome, Storage, done, raises}

-- `not_found` is the HTTPError of status 404.
pub data Unprepared : Type 0 where
  not_found : Unprepared
  not_unzipped : DigestError → Unprepared
  not_assembled : DockerError → Unprepared

pub data Prepared : Type 0 where
  prepared : Option Text → Prepared
  unprepared : Unprepared → Prepared

module _ (H : Hasher) (D : Storage) (S : Source) (T : LayerTable) where
  -- The files and the table of layers.
  abbrev pub Disk : Type 0
  Disk = Job × Table.State T.table

  unfoldable pub with_cache_path : Text → Layer → Layer
  with_cache_path p r = record r { rest = record r.rest { cache_path = some p } }

  keep_cache_path : Layer → Disk → Text → Disk × Prepared
  unfolding with_cache_path
  keep_cache_path r (j, s) p = ((j, Table.save T.table (with_cache_path p r) s), prepared (some p))

  unzipped_at : Layer → Disk → Option Text → Disk × Prepared
  unzipped_at r w none = (w, unprepared (not_unzipped no_path))
  unzipped_at r w (some p) = keep_cache_path r w p

  of_unzipped : Layer → Table.State T.table → Job × Digested Text → Disk × Prepared
  of_unzipped r s (j, undigested e) = ((j, s), unprepared (not_unzipped e))
  of_unzipped r s (j, digested diff_id) = unzipped_at r (j, s) (get_layer_tar_file S diff_id)

  -- The path of the compressed layer, which is given.
  unzip : Layer → Disk → Option Text → Disk × Prepared
  unzip r w none = (w, unprepared not_found)
  unzip r (j, s) (some gz) = of_unzipped r s (decompress_gz_layer H S gz j)

  of_assembled : Layer → Disk → Outcome Text → Disk × Prepared
  of_assembled r w (done p) = keep_cache_path r w p
  of_assembled r w (raises e) = (w, unprepared (not_assembled e))

  prepare_layer : Mappings → Disk → Option Layer → Disk × Prepared
  prepare_layer m w none = (w, unprepared not_found)
  prepare_layer m w (some r) =
      if not (truthy_path r.rest.cache_path)
        && (not (truthy_path r.rest.cache_gz_path) && not (truthy_path r.rest.docker_path))
      then (w, unprepared not_found)
      else if truthy_path r.rest.cache_path
      then (w, prepared r.rest.cache_path)
      else if truthy_path r.rest.cache_gz_path
      then unzip r w r.rest.cache_gz_path
      else of_assembled r w (assemble_layer_tar D S m r.rest.diff_id)

  unfoldable pub prepare_tar_archive : Text → Mappings → Disk → Disk × Prepared
  unfolding keep_cache_path unzipped_at of_unzipped unzip of_assembled prepare_layer
  prepare_tar_archive layer_id m w =
      prepare_layer m w (first_where (is_of_digest layer_id) (Table.select T.table w.1))
