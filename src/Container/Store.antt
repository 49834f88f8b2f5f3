-- ===== src/Container/Store.antt =====
-- What plugins/beiran_package_container does to the tables of images and layers: util.py
-- (reset_info_of_node) and container.py (save_image_at_node, fetch_images_from_peer, delete_layers).
-- A table is any implementation of the interface of Container/Table.antt.
-- `available_at = '[]' AND download_progress = 'null'`
use beiran.Base.{Bool, List, Option, Text, [], if◌then◌else◌, is_nil, member, none, same}
use beiran.Base.{some, ◌&&◌, ◌∷◌}
use beiran.Container.Model.{
  Row, filter, is_null, written_back, set_available_at, unset_available_at,
}
use beiran.Container.Rows.{write_rows}
use beiran.Container.Table.{Table}

module _ {V : Type 0} where
  unfoldable pub is_unavailable : Row V → Bool
  is_unavailable r = is_nil r.available_at && is_null r.download_progress

  module _ (T : Table V) where
    unfoldable pub delete_unavailable : T.State → T.State
    delete_unavailable s = T.delete_where is_unavailable s

    unfoldable pub reset_rows : Text → List (Row V) → T.State → T.State
    reset_rows uuid rs s =
        write_rows T (λ r. member uuid r.available_at) (unset_available_at uuid) rs s

    -- A row that was read in full is saved.
    abbrev stored : Row V → Row V
    stored r = record r { download_progress = written_back r.download_progress }

    -- `save_image_at_node`, below the lookup of the image
    save_found : Text → Row V → Option (Row V) → T.State → T.State
    save_found uuid image (some r) s = T.save (stored (set_available_at uuid r)) s
    save_found uuid image none s = T.save (record image { available_at = uuid ∷ [] }) s

    unfoldable pub save_image_at_node : Row V → Text → T.State → T.State
    unfolding save_found
    save_image_at_node image uuid s = save_found uuid image (T.get image.key s) s

    -- For the images that the peer sent.
    unfoldable pub fetch_images_from_peer : List (Row V) → Text → T.State → T.State
    fetch_images_from_peer [] uuid s = s
    fetch_images_from_peer (image ∷ images) uuid s =
        fetch_images_from_peer images uuid (save_image_at_node image uuid s)

module _ {V : Type 0} (T : Table V) (diff_id : V → Text) where
  -- `layer.delete_instance()` if the layer is available nowhere
  unfoldable pub delete_row : Row V → T.State → T.State
  delete_row r s = if is_nil r.available_at then T.delete_where (λ q. same q.key r.key) s else s

  unfoldable pub delete_rows : List (Row V) → T.State → T.State
  delete_rows [] s = s
  delete_rows (r ∷ rs) s = delete_rows rs (delete_row r s)

  unfoldable pub delete_layers : List Text → T.State → T.State
  unfolding delete_row delete_rows
  delete_layers diff_id_list s =
      delete_rows (filter (λ r. member (diff_id r.rest) diff_id_list) (T.select s)) s

module _ {V W : Type 0} (Images : Table V) (Layers : Table W) where
  unfoldable pub delete_unavailable_objects :
      Images.State × Layers.State → Images.State × Layers.State
  unfolding delete_unavailable
  delete_unavailable_objects (i, l) = (delete_unavailable Images i, delete_unavailable Layers l)

  unfoldable pub reset_info_of_node :
      Text → Images.State × Layers.State → Images.State × Layers.State
  unfolding reset_rows
  reset_info_of_node uuid (i, l) =
      delete_unavailable_objects
        (reset_rows Images uuid (Images.select i) i, reset_rows Layers uuid (Layers.select l) l)
