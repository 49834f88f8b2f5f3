-- ===== src/Config/Tests.antt =====
-- A configuration with two plugins.
use beiran.Base.{Option, Text, [], codes, false, has, if◌then◌else◌, none, refl, same}
use beiran.Base.{some, split, ◌∷◌, ◌≡◌}
use beiran.Base.Dict.{lookup}
use beiran.Config.{Config, PluginName, Val, entry, get_config}
use beiran.Config.{get_config_from_file, no_entry}
use beiran.Config.{nothing, str, tab, truthy, walk}
use beiran.Config.Nested.{get_config-put_at, put_at}
use beiran.Subpath.{ok}

abbrev unset : Text → Option Text
unset k = none

abbrev old_conf : Val
old_conf = tab (
    entry (codes "beiran") (tab (entry (codes "log_level") (str (codes "INFO")) no_entry)) no_entry)

get_config-put_at_example :
    get_config
      (record {
        getenv = unset;
        conf = put_at (codes "beiran" ∷ codes "data_dir" ∷ []) (str (codes "/data")) old_conf;
      })
      (codes "beiran.data_dir")
      (codes "DATA_DIR")
      false
    ≡ ok (str (codes "/data"))
unfolding truthy has
get_config-put_at_example =
    get_config-put_at unset (codes "beiran") (codes "data_dir" ∷ []) (codes "DATA_DIR") false
      (str (codes "/data")) old_conf (refl, (refl, tt)) (λ e. cc) refl refl

-- The level in the file is left, and what is not set has its default.
other_level :
    get_config
      (record {
        getenv = unset;
        conf = put_at (codes "beiran" ∷ codes "data_dir" ∷ []) (str (codes "/data")) old_conf;
      })
      (codes "beiran.log_level")
      (codes "LOG_LEVEL")
      false
    ≡ ok (str (codes "INFO"))
unfolding get_config get_config_from_file walk put_at truthy split lookup same
other_level = refl

abbrev docker : PluginName
docker = record { plugin_type = codes "interface"; plugin_name = codes "docker" }

abbrev dns : PluginName
dns = record { plugin_type = codes "discovery"; plugin_name = codes "dns" }

abbrev by_env : Config
by_env = record {
  getenv = λ k.
      if same k (codes "BEIRAN_PLUGINS")
      then some (codes "interface.docker,discovery.dns")
      else none;
  conf = nothing;
}

abbrev docker_env : Config
docker_env = record {
  getenv = λ k.
      if same k (codes "BEIRAN_INTERFACE_DOCKER_CONFIG") then some (codes "a=1,b=2,a=3") else none;
  conf = nothing;
}
