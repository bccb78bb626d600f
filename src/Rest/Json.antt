-- ===== src/Rest/Json.antt =====
-- What src/adapters/rest_api/json.rs uses of the serde_json library, which is a parameter.
use domiform.Base.{◌≡◌, ◌^◌, ◌-◌, Bool, Option, some}
use domiform.Base.Assoc.{Assoc, lookup, IsMap}
use domiform.Base.Int.{ℤ, pos, negsuc, ◌≤ℤ◌}
use domiform.Base.Text.{Text, text_eq}

-- The variants of `Value`, numbers split by `is_f64`.
pub data Variant : Type 0 where
  null boolean fractional number string array object : Variant

-- `Value`, with `json!` of the values that the code encodes, and the views that it takes.
pub record Json : Type 1 where
  pub Value : Type 0
  pub null : Value
  pub of_bool : Bool → Value
  pub of_int : ℤ → Value
  pub of_object : Assoc Text Value → Value
  pub as_bool : Value → Option Bool
  pub as_i64 : Value → Option ℤ
  pub as_object : Value → Option (Assoc Text Value)
  pub variant : Value → Variant

-- What the library documents of them, for what the code builds: a view gives back what was put in. An
-- object may keep its entries in an order of its own.
pub record IsJson (j : Json) : Type 0 where
  pub bool_back : (b : Bool) → j.as_bool (j.of_bool b) ≡ some b
  pub int_back :
      (z : ℤ) → negsuc (2 ^ 63 - 1) ≤ℤ z → z ≤ℤ pos (2 ^ 63 - 1) → j.as_i64 (j.of_int z) ≡ some z
  pub object_back :
      (es : Assoc Text j.Value)
      → IsMap es
      → (fs : Assoc Text j.Value) × (j.as_object (j.of_object es) ≡ some fs)
        × ((k : Text) → lookup k fs ≡ lookup k es)
