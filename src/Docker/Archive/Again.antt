-- ===== src/Docker/Archive/Again.antt =====
-- A layer that has been prepared once is prepared: prepare_tar_archive of
-- plugins/beiran_interface_docker/api.py.
use beiran.Base.{Text, if◌then◌else◌}
use beiran.Base.{same, some, true, ◌≡◌}
use beiran.Container.Digests.{Hasher}
use beiran.Container.Layers.{Source}
use beiran.Container.Table.{Table}
use beiran.Docker.Archive.{Disk, Prepared}
use beiran.Docker.Archive.{prepared}
use beiran.Docker.Archive.{with_cache_path}
use beiran.Docker.Ensure.{is_of_digest}
use beiran.Docker.LayerTable.{Layer, LayerTable}
use beiran.Docker.Mappings.{Mappings}
use beiran.Docker.Storage.{Storage}

-- No other row has the digest.
abbrev pub IsOnly : (T : LayerTable) → Text → Text → Table.State T.table → Type 0
IsOnly T layer_id k s =
    (j : Text) (q : Layer) → Table.get T.table j s ≡ some q → is_of_digest layer_id q ≡ true → j ≡ k

module _ (H : Hasher) (D : Storage) (S : Source) (T : LayerTable) where
  -- The row has the path, and all others are as they were.
  abbrev pub IsCached : Layer → Text → Disk H D S T → Disk H D S T → Type 0
  IsCached r p w w' =
      (j : Text)
      → Table.get T.table j w'.1
        ≡ (if same r.key j then some (with_cache_path H D S T p r) else Table.get T.table j w.1)

  module _ (p : Text) (r : Layer) where
    -- If the path is prepared, the row has it.
    abbrev Caches : Table.State T.table → Disk H D S T × Prepared → Type 0
    Caches s ((j, s'), o) = o ≡ prepared (some p) → IsCached r p (j, s) (j, s')
