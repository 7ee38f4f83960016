-- ===== src/Nop/Json.antt =====
-- The JSON values that pass between nodes (native Python objects in nps_sdk/nop): an interface with
-- what the code asks of them (`isinstance`) and what it builds. Numbers are of a type of their own.
use nps_sdk_python.Prelude.{String, ◌≡◌, Bool, List, Nodup, string_eq}
use nps_sdk_python.Prelude.Dict.{Dict, keys}

pub data View {ℓ} (N V : Type ℓ) : Type ℓ where
  is_null : View N V
  is_bool : Bool → View N V
  is_number : N → View N V
  is_string : String → View N V
  is_array : List V → View N V
  is_object : Dict String V → View N V

pub record Json {ℓ} (N V : Type ℓ) : Type ℓ where
  pub view : V → View N V
  pub object : Dict String V → V
  pub array : List V → V
  pub null : V
  pub keys_once : (v : V) (d : Dict String V) → view v ≡ is_object d → Nodup (keys d)
