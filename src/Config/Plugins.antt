-- ===== src/Config/Plugins.antt =====
-- The variable BEIRAN_PLUGINS of beiran/config.py.
-- `type.name`
use beiran.Base.{All, Free, Free-append, List, Text, [], arith, codes, has, join, member, refl}
use beiran.Base.{same, some, split, split-Free, split-append, split-join, true, ◌++◌, ◌∷◌, ◌≡◌}
use beiran.Base.{◌≢◌}
use beiran.Config.{Config, PluginName, cons_plugin, env_plugins, get_enabled_plugins}
use beiran.Config.{of_env_plugins, parse_plugin, parse_plugins, plugin_types, plugins_of}
use beiran.Subpath.{ok}

unfoldable pub render_plugin : PluginName → Text
render_plugin p = p.plugin_type ++ (b'.' ∷ p.plugin_name)

unfoldable pub render_plugins : List PluginName → List Text
render_plugins [] = []
render_plugins (p ∷ ps) = render_plugin p ∷ render_plugins ps

-- A plugin of a known type, without a dot or a comma in its type and name.
abbrev pub IsPlain : PluginName → Type 0
IsPlain p =
    (member p.plugin_type plugin_types ≡ true)
    × Free b'.' p.plugin_type
    × Free b',' p.plugin_type
    × Free b'.' p.plugin_name
    × Free b',' p.plugin_name

parse-render : (p : PluginName) → IsPlain p → parse_plugin (split b'.' (render_plugin p)) ≡ some p
unfolding parse_plugin render_plugin
parse-render p h =
    rw (split-append b'.' p.plugin_type p.plugin_name h.1, split-Free b'.' p.plugin_name h.3, h.0)
      refl

Free-render : (p : PluginName) → IsPlain p → Free b',' (render_plugin p)
unfolding render_plugin has
Free-render p h = Free-append b',' p.plugin_type (b'.' ∷ p.plugin_name) h.2 h.4

All-Free-render : (ps : List PluginName) → All IsPlain ps → All (Free b',') (render_plugins ps)
unfolding render_plugins
All-Free-render [] h = tt
All-Free-render (p ∷ ps) h = (Free-render p h.0, All-Free-render ps h.1)

parse-renders :
    (ps : List PluginName) → All IsPlain ps → parse_plugins (render_plugins ps) ≡ some ps
unfolding parse_plugins render_plugins cons_plugin
parse-renders [] h = refl
parse-renders (p ∷ ps) h = rw (parse-render p h.0, parse-renders ps h.1) refl

plugins_of-env :
    (c : Config) (s : Text) (ps : List PluginName)
    → s ≢ []
    → env_plugins s ≡ some ps
    → plugins_of c (some s) ≡ ok ps
unfolding plugins_of of_env_plugins
plugins_of-env c [] ps ne e = absurd (ne refl)
plugins_of-env c (x ∷ s) ps ne e = rw (e) refl

render-ne-nil :
    (t w : Text) (ws : List Text)
    → member t plugin_types ≡ true
    → join (b',' ∷ []) ((t ++ (b'.' ∷ w)) ∷ ws) ≢ []
unfolding member same
render-ne-nil [] w ws h = absurd (ground (arith, h))
render-ne-nil (c ∷ t) w [] h = λ e. cc
render-ne-nil (c ∷ t) w (v ∷ ws) h = λ e. cc

renders-ne-nil :
    (p : PluginName) (ps : List PluginName)
    → IsPlain p
    → join (b',' ∷ []) (render_plugins (p ∷ ps)) ≢ []
unfolding render_plugins render_plugin
renders-ne-nil p ps h = render-ne-nil p.plugin_type p.plugin_name (render_plugins ps) h.0

-- If BEIRAN_PLUGINS lists some plugins as `type.name`, joined by commas, each of a known type and
-- with no dot or comma in its type and name, these are the enabled plugins, whatever the file says.
get_enabled_plugins-render :
    (c : Config) (p : PluginName) (ps : List PluginName)
    → All IsPlain (p ∷ ps)
    → c.getenv (codes "BEIRAN_PLUGINS") ≡ some (join (b',' ∷ []) (render_plugins (p ∷ ps)))
    → get_enabled_plugins c ≡ ok (p ∷ ps)
unfolding get_enabled_plugins env_plugins render_plugins
get_enabled_plugins-render c p ps h e = rw (e) (
    plugins_of-env c (join (b',' ∷ []) (render_plugins (p ∷ ps))) (p ∷ ps) (renders-ne-nil p ps h.0)
      (rw (split-join b',' (render_plugins (p ∷ ps)) (λ r. cc) (All-Free-render (p ∷ ps) h))
        (parse-renders (p ∷ ps) h)))
