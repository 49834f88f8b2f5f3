-- ===== src/Version/Tests.antt =====
-- The version 0.1.2, as a final version and as a second beta.
use beiran.Base.{Text, [], codes, refl, same, split, ℕ, ◌+◌, ◌∷◌, ◌≡◌}
use beiran.Version.{Version, get_version, short}

abbrev digit : ℕ → Text
digit n = (b'0' + n) ∷ []

abbrev release : Version
release = record { major = 0; minor = 1; tertiary = 2; version_type = codes "final"; type_num = 0 }

abbrev beta : Version
beta = record release { version_type = codes "beta"; type_num = 2 }

beta_short : get_version digit short beta ≡ codes "0.1.2b2"
unfolding get_version split same
beta_short = refl
