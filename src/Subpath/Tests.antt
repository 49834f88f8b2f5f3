-- ===== src/Subpath/Tests.antt =====
-- Runs of `parse_subpath`, and the theorems at concrete texts.
use beiran.Base.{[], codes, has, negsuc, none, pos, refl, some, ◌∷◌, ◌≡◌, ◌≢◌}
use beiran.Subpath.{choice, err, index_error, key, ok, out_of_fuel, parse_subpath, range, root}
use beiran.Subpath.Fuel.{parse_subpath-ends}

keys_and_ranges :
    parse_subpath (codes "$.ab.*[1:5:2][:]")
    ≡ ok (
        root
        ∷ key (some (codes "ab"))
        ∷ key none
        ∷ range (pos 1) (some (pos 5)) (pos 2)
        ∷ range (pos 0) none (pos 1)
        ∷ [])
unfolding parse_subpath has
keys_and_ranges = refl

listed :
    parse_subpath (codes "$[3, -1,2]") ≡ ok (root ∷ choice (negsuc 0 ∷ pos 2 ∷ pos 3 ∷ []) ∷ [])
unfolding parse_subpath has
listed = refl

not_closed : parse_subpath (codes "$.a.*[3]") ≡ err index_error
unfolding parse_subpath has
not_closed = refl

parse_subpath-ends_example : parse_subpath (codes "$[1,2") ≢ err out_of_fuel
parse_subpath-ends_example = parse_subpath-ends (codes "$[1,2")
