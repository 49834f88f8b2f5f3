-- ===== src/Version.antt =====
-- beiran/version.py: get_version, for a version and the decimal numerals of Python.
pub mod Forms
mod Tests
use beiran.Base.{Bool, List, Text, [], codes, if◌then◌else◌, not, same, split, ℕ, ◌&&◌, ◌++◌}
use beiran.Base.{◌==◌, ◌||◌, ◌∷◌}

-- The tuple of a component.
pub record Version : Type 0 where
  pub major : ℕ
  pub minor : ℕ
  pub tertiary : ℕ
  pub version_type : Text
  pub type_num : ℕ

pub data Form : Type 0 where
  branch short normal verbose : Form

unfoldable pub final : Version → Bool
final v = same v.version_type (codes "final")

-- `"".join([x[0] for x in type_.split()])`, for words parted by spaces
first_letters : List Text → Text
first_letters [] = []
first_letters ([] ∷ ws) = first_letters ws
first_letters ((c ∷ w) ∷ ws) = c ∷ first_letters ws

firsts : Version → Text
firsts v = first_letters (split b' ' v.version_type)

module _ (numeral : ℕ → Text) where
  unfoldable pub branch_of : Version → Text
  branch_of v = numeral v.major ++ (b'.' ∷ numeral v.minor)

  -- `current_version += "." + str(tertiary)` under a condition
  unfoldable pub with_tertiary : Bool → Version → Text
  with_tertiary b v = if b then branch_of v ++ (b'.' ∷ numeral v.tertiary) else branch_of v

  type_letters : Version → Text
  type_letters v = if not (v.type_num == 0) then firsts v ++ numeral v.type_num else firsts v

  short_of : Version → Text
  short_of v =
      let current = with_tertiary (not (v.tertiary == 0) || final v) v in
      if not (final v) then current ++ type_letters v else current

  type_and_number : Version → Text
  type_and_number v = b' ' ∷ (v.version_type ++ (b' ' ∷ numeral v.type_num))

  normal_of : Version → Text
  normal_of v =
      let current = with_tertiary (not (v.tertiary == 0)) v in
      if not (final v) && not (v.type_num == 0)
      then current ++ type_and_number v
      else current ++ (codes " pre-" ++ v.version_type)

  verbose_of : Version → Text
  verbose_of v =
      let current = with_tertiary (not (v.tertiary == 0)) v in
      if not (final v) && not (v.type_num == 0)
      then current ++ type_and_number v
      else if final v
      then current ++ codes " final"
      else current ++ (codes " pre-" ++ v.version_type)

  unfoldable pub get_version : Form → Version → Text
  unfolding final first_letters firsts branch_of with_tertiary type_letters short_of type_and_number
      normal_of verbose_of
  get_version branch v = branch_of v
  get_version short v = short_of v
  get_version normal v = normal_of v
  get_version verbose v = verbose_of v
