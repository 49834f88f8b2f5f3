-- ===== src/Version/Forms.antt =====
-- The forms of a version of beiran/version.py.
-- Whether a text is another one with something behind it.
use beiran.Base.{Bool, Bool-cases, Text, [], ap, append-nil, append_assoc, codes, false}
use beiran.Base.{if◌then◌else◌, inl, inr, not, refl, same, same_iff, sym, true, ℕ, ◌&&◌, ◌++◌}
use beiran.Base.{◌==◌, ◌||◌, ◌∙◌, ◌∷◌, ◌≡◌}
use beiran.Version.{Form, Version, branch, branch_of, final, get_version, normal, normal_of}
use beiran.Version.{short, short_of, type_and_number, type_letters, verbose, verbose_of}
use beiran.Version.{with_tertiary}

pub record Extends (p s : Text) : Type 0 where
  pub tail : Text
  pub is_append : s ≡ p ++ tail

module _ (numeral : ℕ → Text) where
  with_tertiary-Extends :
      (b : Bool) (v : Version) → Extends (branch_of numeral v) (with_tertiary numeral b v)
  unfolding with_tertiary
  with_tertiary-Extends true v = record { tail = b'.' ∷ numeral v.tertiary; is_append = refl }
  with_tertiary-Extends false v = record {
    tail = [];
    is_append = sym (append-nil (branch_of numeral v));
  }

  append-Extends : (p s t : Text) → Extends p s → Extends p (s ++ t)
  append-Extends p s t h = record {
    tail = h.tail ++ t;
    is_append = ap (λ r. r ++ t) h.is_append ∙ append_assoc p h.tail t;
  }

  if-Extends :
      (p s t : Text) (b : Bool) → Extends p s → Extends p t → Extends p (if b then s else t)
  if-Extends p s t true h k = h
  if-Extends p s t false h k = k

  plus :
      (b : Bool) (v : Version) (t : Text)
      → Extends (branch_of numeral v) (with_tertiary numeral b v ++ t)
  plus b v t =
      append-Extends (branch_of numeral v) (with_tertiary numeral b v) t (with_tertiary-Extends b v)

  -- Every form of a version begins with its branch.
  pub get_version-Extends :
      (f : Form) (v : Version) → Extends (get_version numeral branch v) (get_version numeral f v)
  unfolding get_version short_of normal_of verbose_of
  get_version-Extends branch v = record {
    tail = [];
    is_append = sym (append-nil (branch_of numeral v));
  }
  get_version-Extends short v =
      let b = not (v.tertiary == 0) || final v in
      if-Extends (branch_of numeral v) (with_tertiary numeral b v ++ type_letters numeral v)
        (with_tertiary numeral b v) (not (final v)) (plus b v (type_letters numeral v))
        (with_tertiary-Extends b v)
  get_version-Extends normal v =
      let current = with_tertiary numeral (not (v.tertiary == 0)) v in
      if-Extends (branch_of numeral v) (current ++ type_and_number numeral v)
        (current ++ (codes " pre-" ++ v.version_type)) (not (final v) && not (v.type_num == 0))
        (plus (not (v.tertiary == 0)) v (type_and_number numeral v))
        (plus (not (v.tertiary == 0)) v (codes " pre-" ++ v.version_type))
  get_version-Extends verbose v =
      let current = with_tertiary numeral (not (v.tertiary == 0)) v in
      if-Extends (branch_of numeral v) (current ++ type_and_number numeral v)
        (if final v
          then current ++ codes " final"
          else current ++ (codes " pre-" ++ v.version_type))
        (not (final v) && not (v.type_num == 0))
        (plus (not (v.tertiary == 0)) v (type_and_number numeral v))
        (if-Extends (branch_of numeral v) (current ++ codes " final")
          (current ++ (codes " pre-" ++ v.version_type)) (final v)
          (plus (not (v.tertiary == 0)) v (codes " final"))
          (plus (not (v.tertiary == 0)) v (codes " pre-" ++ v.version_type)))

  -- The normal form is the verbose one, except for a final version, where it says " pre-final" behind
  -- the numbers and not " final".
  get_version_normal :
      (v : Version)
      → get_version numeral normal v ≡ (
          if final v
          then with_tertiary numeral (not (v.tertiary == 0)) v ++ codes " pre-final"
          else get_version numeral verbose v)
  unfolding get_version normal_of verbose_of final
  get_version_normal v = elim (Bool-cases (same v.version_type (codes "final"))) [
    | inl e ↦ rw (e) (
        ap (λ t. with_tertiary numeral (not (v.tertiary == 0)) v ++ (codes " pre-" ++ t))
          ((same_iff v.version_type (codes "final")).0 e))
    | inr e ↦ rw (e) refl
  ]
