-- ===== src/Config/Items.antt =====
-- The variables BEIRAN_<type>_<name>_CONFIG of beiran/config.py.
-- `key=value`
use beiran.Base.{All, Free, Free-append, List, Option, Text, [], ap, has, join, none, refl, some}
use beiran.Base.{split, split-Free, split-append, split-join, ◌++◌, ◌∙◌, ◌∷◌, ◌≡◌, ◌≢◌}
use beiran.Base.Dict.{Dict, insert}
use beiran.Config.{Config, config_variable, get_plugin_config, of_items, parse_item, parse_items}
use beiran.Config.{plugin_config_of, str_entries, tab}
use beiran.Subpath.{ok}

render_items : List (Text × Text) → List Text
render_items [] = []
render_items ((k, v) ∷ is) = (k ++ (b'=' ∷ v)) ∷ render_items is

-- Keys and values without an equals sign or a comma.
abbrev pub IsItem : Text × Text → Type 0
IsItem (k, v) = Free b'=' k × Free b',' k × Free b'=' v × Free b',' v

-- The items in a dict, the later ones over the earlier ones.
insert_all : List (Text × Text) → Dict Text → Dict Text
insert_all [] d = d
insert_all ((k, v) ∷ is) d = insert_all is (insert k v d)

Free-render_items : (is : List (Text × Text)) → All IsItem is → All (Free b',') (render_items is)
unfolding render_items has
Free-render_items [] h = tt
Free-render_items ((k, v) ∷ is) h =
    (Free-append b',' k (b'=' ∷ v) h.0.1 h.0.3, Free-render_items is h.1)

parse_item-render :
    (k v : Text) → IsItem (k, v) → parse_item (split b'=' (k ++ (b'=' ∷ v))) ≡ some (k, v)
unfolding parse_item
parse_item-render k v h = rw (split-append b'=' k v h.0, split-Free b'=' v h.2) refl

parse_items-render :
    (is : List (Text × Text)) (d : Dict Text)
    → All IsItem is
    → parse_items (render_items is) d ≡ some (insert_all is d)
unfolding parse_items render_items insert_all
parse_items-render [] d h = refl
parse_items-render ((k, v) ∷ is) d h =
    ap {A = Option (Text × Text)}
      (λ o. elim o [ none ↦ none | some i ↦ parse_items (render_items is) (insert i.0 i.1 d) ])
      (parse_item-render k v h.0)
    ∙ parse_items-render is (insert k v d) h.1

plugin_config-env :
    (c : Config) (p_type plugin s : Text) (d : Dict Text)
    → s ≢ []
    → parse_items (split b',' s) [] ≡ some d
    → plugin_config_of c p_type plugin (some s) ≡ ok (tab (str_entries d))
unfolding plugin_config_of of_items
plugin_config-env c p_type plugin [] d ne e = absurd (ne refl)
plugin_config-env c p_type plugin (x ∷ s) d ne e = rw (e) refl

item-ne-nil : (k v : Text) (ws : List Text) → join (b',' ∷ []) ((k ++ (b'=' ∷ v)) ∷ ws) ≢ []
item-ne-nil [] v [] = λ e. cc
item-ne-nil [] v (w ∷ ws) = λ e. cc
item-ne-nil (c ∷ k) v [] = λ e. cc
item-ne-nil (c ∷ k) v (w ∷ ws) = λ e. cc

-- If the variable of a plugin lists items as `key=value`, joined by commas, with no equals sign or
-- comma in a key or a value, the configuration of the plugin is the dict of these items, a later
-- value of a key over an earlier one.
get_plugin_config-render_items :
    (c : Config) (p_type plugin k v : Text) (is : List (Text × Text))
    → All IsItem ((k, v) ∷ is)
    → c.getenv (config_variable p_type plugin)
      ≡ some (join (b',' ∷ []) (render_items ((k, v) ∷ is)))
    → get_plugin_config c p_type plugin ≡ ok (tab (str_entries (insert_all ((k, v) ∷ is) [])))
unfolding get_plugin_config render_items
get_plugin_config-render_items c p_type plugin k v is h e = rw (e) (
    plugin_config-env c p_type plugin (join (b',' ∷ []) (render_items ((k, v) ∷ is)))
      (insert_all ((k, v) ∷ is) []) (item-ne-nil k v (render_items is))
      (rw
        (split-join b',' (render_items ((k, v) ∷ is)) (λ r. cc) (Free-render_items ((k, v) ∷ is) h))
        (parse_items-render ((k, v) ∷ is) [] h)))
