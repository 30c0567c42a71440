-- ===== src/Checks/Header.antt =====
-- `checkHeader` of core/checks/header.cpp, and `getCompatible` of version.cpp. An error has the
-- text of the header that it refers to; the header's id, the description and the level are left
-- out.
use text.Mathlib.Text.{◌==◌ as str_eq}
use text.Mathlib.TextEquality.{eq_iff}
use libvda5050pp.Common.{
  ℕ, ◌≡◌, ◌↔◌, String, Bool, false, not, ◌||◌, List, [], ◌∷◌, ◌++◌, arith, if◌then◌else◌,
}

pub record Header : Type 0 where
  pub header_id : ℕ
  pub version : String
  pub manufacturer : String
  pub serial_number : String

-- What the check reads of the configured description of the AGV.
pub record AgvDescription : Type 0 where
  pub manufacturer : String
  pub serial_number : String

pub data HeaderError : Type 0 where
  invalid_manufacturer invalid_serial_number invalid_version : String → HeaderError

abbrev pub current_version : String
current_version = "2.0.0"

abbrev pub compatible : List String
compatible = current_version ∷ []

unfoldable pub is_compatible : String → List String → Bool
is_compatible v [] = false
is_compatible v (c ∷ cs) = str_eq c v || is_compatible v cs

unfoldable pub check_header : AgvDescription → Header → List HeaderError
check_header d h =
    (if not (str_eq d.manufacturer h.manufacturer)
      then invalid_manufacturer h.manufacturer ∷ []
      else [])
    ++ ((if not (str_eq d.serial_number h.serial_number)
          then invalid_serial_number h.serial_number ∷ []
          else [])
        ++ (if not (is_compatible h.version compatible)
            then invalid_version h.version ∷ []
            else []))

-- A header passes the check exactly if the manufacturer and the serial number are those of the AGV
-- and the version is the current one.
pub check_header_lem :
    (d : AgvDescription) (h : Header)
    → (check_header d h ≡ []) ↔ (
        (d.manufacturer ≡ h.manufacturer)
        × (d.serial_number ≡ h.serial_number)
        × (h.version ≡ current_version))
unfolding check_header is_compatible
check_header_lem d h =
    let a = eq_iff d.manufacturer h.manufacturer in
    let b = eq_iff d.serial_number h.serial_number in
    let c = eq_iff current_version h.version in ground (arith, a, b, c)
