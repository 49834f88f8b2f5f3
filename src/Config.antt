-- ===== src/Config.antt =====
-- beiran/config.py: the lookup of configuration values, the enabled plugins, and the configuration of
-- a plugin. `getenv` is the environment; arrays of the file hold texts.
pub mod Nested
pub mod Plugins
pub mod Items
mod Tests
use beiran.Base.{Bool, List, Option, Text, [], codes, eqb_ℤ, false, if◌then◌else◌, is_nil, leb}
use beiran.Base.{member, none, not, pos, same, some, split, starts_with, true, ℤ, ◌&&◌, ◌++◌, ◌-◌}
use beiran.Base.{◌||◌, ◌∷◌}
use beiran.Base.Dict.{Dict, insert, lookup}
use beiran.Subpath.{Result, corrupt, err, int, ok, type_error, value_error, ◌>>=◌}

mutual
  pub data Val : Type 0 where
    nothing : Val
    str : Text → Val
    num : ℤ → Val
    flag : Bool → Val
    texts : List Text → Val
    tab : Entries → Val

  pub data Entries : Type 0 where
    no_entry : Entries
    entry : Text → Val → Entries → Entries

get_entry : Text → Entries → Option Val
get_entry k no_entry = none
get_entry k (entry j v es) = if same j k then some v else get_entry k es

-- `t in s`, for texts
contains : Text → Text → Bool
contains t [] = starts_with [] t
contains t (c ∷ s) = starts_with (c ∷ s) t || contains t s

-- `if not key in val: return None`, then `val = val[key]`, for the keys in turn.
unfoldable pub walk : List Text → Val → Result Val
unfolding get_entry contains member
walk [] v = ok v
walk (k ∷ ks) (tab es) = elim (get_entry k es) [ none ↦ ok nothing | some v ↦ walk ks v ]
walk (k ∷ ks) (str s) = if contains k s then err type_error else ok nothing
walk (k ∷ ks) (texts ws) = if member k ws then err type_error else ok nothing
walk (k ∷ ks) nothing = err type_error
walk (k ∷ ks) (num n) = err type_error
walk (k ∷ ks) (flag b) = err type_error

unfoldable pub truthy : Val → Bool
truthy nothing = false
truthy (str s) = not (is_nil s)
truthy (num n) = not (eqb_ℤ n 0)
truthy (flag b) = b
truthy (texts ws) = not (is_nil ws)
truthy (tab no_entry) = false
truthy (tab (entry k v es)) = true

abbrev pub defaults : Dict Val
defaults =
    (codes "LISTEN_PORT", num (pos 8888))
    ∷ (codes "LISTEN_ADDRESS", str (codes "0.0.0.0"))
    ∷ (codes "LOG_LEVEL", str (codes "DEBUG"))
    ∷ (codes "CONFIG_DIR", str (codes "/etc/beiran"))
    ∷ (codes "DATA_DIR", str (codes "/var/lib/beiran"))
    ∷ (codes "CACHE_DIR", str (codes "/var/cache/beiran"))
    ∷ (codes "RUN_DIR", str (codes "/var/run"))
    ∷ (codes "KNOWN_NODES", texts [])
    ∷ []

abbrev pub default_file_paths : Dict Val
default_file_paths =
    (codes "LOG_FILE", str (codes "/var/log/beirand.log"))
    ∷ (codes "DB_FILE", str (codes "/var/lib/beiran/beiran.db"))
    ∷ (codes "SOCKET_FILE", str (codes "/var/run/beirand.sock"))
    ∷ []

or_nothing : Option Val → Val
or_nothing none = nothing
or_nothing (some v) = v

-- A value of the environment, which is not empty, by the type of the default.
convert : Text → Option Val → Result Val
convert s (some (texts ws)) = ok (texts (split b',' s))
convert s (some (num n)) = int s >>= λ i. ok (num i)
convert s _ = ok (str s)

-- The environment and the file.
pub record Config : Type 0 where
  pub getenv : Text → Option Text
  pub conf : Val

unfoldable pub get_config_from_file : Config → Text → Result Val
get_config_from_file c ckey = walk (split b'.' ckey) c.conf

file_or_default : Config → Text → Option Val → Result Val
file_or_default c ckey default =
    get_config_from_file c ckey >>= λ v. ok (if truthy v then v else or_nothing default)

env_or_file : Config → Text → Option Val → Option Text → Result Val
env_or_file c ckey default none = file_or_default c ckey default
env_or_file c ckey default (some []) = file_or_default c ckey default
env_or_file c ckey default (some (x ∷ s)) = convert (x ∷ s) default

unfoldable pub get_config : Config → Text → Text → Bool → Result Val
unfolding or_nothing convert file_or_default env_or_file
get_config c ckey ekey isfile =
    if is_nil ckey && is_nil ekey
    then ok nothing
    else (let default = lookup ekey (if isfile then default_file_paths else defaults) in
        env_or_file c ckey default (c.getenv (codes "BEIRAN_" ++ ekey)))

pub record PluginName : Type 0 where
  pub plugin_type : Text
  pub plugin_name : Text

abbrev pub plugin_types : List Text
plugin_types = codes "package" ∷ codes "interface" ∷ codes "discovery" ∷ []

-- The exception that is raised for anything else does not say which.
parse_plugin : List Text → Option PluginName
parse_plugin (t ∷ n ∷ []) =
    if member t plugin_types then some (record { plugin_type = t; plugin_name = n }) else none
parse_plugin _ = none

cons_plugin : Option PluginName → Option (List PluginName) → Option (List PluginName)
cons_plugin (some p) (some ps) = some (p ∷ ps)
cons_plugin _ _ = none

parse_plugins : List Text → Option (List PluginName)
parse_plugins [] = some []
parse_plugins (w ∷ ws) = cons_plugin (parse_plugin (split b'.' w)) (parse_plugins ws)

-- The plugins of `BEIRAN_PLUGINS`; `none` is the exception.
unfoldable pub env_plugins : Text → Option (List PluginName)
unfolding parse_plugin cons_plugin parse_plugins
env_plugins s = parse_plugins (split b',' s)

-- `for p_name, p_conf in conf.items()`
enabled_entries : Text → Entries → Result (List PluginName)
enabled_entries t no_entry = ok []
enabled_entries t (entry n v es) =
    let rest = enabled_entries t es in
    walk (codes "enabled" ∷ []) v >>= λ e.
    rest >>= λ ps. ok (if truthy e then record { plugin_type = t; plugin_name = n } ∷ ps else ps)

-- `conf.items()`; the AttributeError of a value that is no table is written as a type error.
enabled_items : Text → Val → Result (List PluginName)
enabled_items t (tab es) = enabled_entries t es
enabled_items t v = if truthy v then err type_error else ok []

file_plugins : Config → List Text → Result (List PluginName)
file_plugins c [] = ok []
file_plugins c (t ∷ ts) =
    let rest = file_plugins c ts in
    get_config c t [] false >>= λ v. enabled_items t v >>= λ ps. rest >>= λ qs. ok (ps ++ qs)

-- `corrupt` is the exception that the variable cannot be parsed.
of_env_plugins : Option (List PluginName) → Result (List PluginName)
of_env_plugins none = err corrupt
of_env_plugins (some ps) = ok ps

plugins_of : Config → Option Text → Result (List PluginName)
plugins_of c none = file_plugins c plugin_types
plugins_of c (some []) = file_plugins c plugin_types
plugins_of c (some (x ∷ s)) = of_env_plugins (env_plugins (x ∷ s))

unfoldable pub get_enabled_plugins : Config → Result (List PluginName)
unfolding enabled_entries enabled_items file_plugins of_env_plugins plugins_of
get_enabled_plugins c = plugins_of c (c.getenv (codes "BEIRAN_PLUGINS"))

-- `str.upper` on ASCII text
unfoldable pub upper : Text → Text
upper [] = []
upper (c ∷ s) = (if leb b'a' c && leb c b'z' then c - 32 else c) ∷ upper s

-- `key, value = item.split('=')`; `none` is the ValueError.
parse_item : List Text → Option (Text × Text)
parse_item (k ∷ v ∷ []) = some (k, v)
parse_item _ = none

parse_items : List Text → Dict Text → Option (Dict Text)
parse_items [] d = some d
parse_items (w ∷ ws) d = elim (parse_item (split b'=' w)) [
  | none ↦ none
  | some (k, v) ↦ parse_items ws (insert k v d)
]

unfoldable pub str_entries : Dict Text → Entries
str_entries [] = no_entry
str_entries ((k, v) ∷ d) = entry k (str v) (str_entries d)

of_items : Option (Dict Text) → Result Val
of_items none = err value_error
of_items (some d) = ok (tab (str_entries d))

file_plugin_config : Config → Text → Text → Result Val
file_plugin_config c p_type plugin = get_config c (p_type ++ (b'.' ∷ plugin)) [] false >>= λ v.
    ok (if truthy v then v else tab no_entry)

plugin_config_of : Config → Text → Text → Option Text → Result Val
plugin_config_of c p_type plugin none = file_plugin_config c p_type plugin
plugin_config_of c p_type plugin (some []) = file_plugin_config c p_type plugin
plugin_config_of c p_type plugin (some (x ∷ s)) = of_items (parse_items (split b',' (x ∷ s)) [])

unfoldable pub config_variable : Text → Text → Text
config_variable p_type plugin =
    codes "BEIRAN_" ++ (upper p_type ++ (b'_' ∷ (upper plugin ++ codes "_CONFIG")))

unfoldable pub get_plugin_config : Config → Text → Text → Result Val
unfolding upper parse_item parse_items str_entries of_items file_plugin_config plugin_config_of
    config_variable
get_plugin_config c p_type plugin =
    plugin_config_of c p_type plugin (c.getenv (config_variable p_type plugin))
