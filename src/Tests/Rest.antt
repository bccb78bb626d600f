-- ===== src/Tests/Rest.antt =====
-- Tests of the model of src/adapters/rest_api/json.rs, on a JSON library of objects, integers and Booleans.
use domiform.Base.{◌≡◌, Bool, Option, none, some, [], ◌∷◌, refl, arith, ap}
use domiform.Base.Assoc.{Assoc}
use domiform.Base.Int.{ℤ, negsuc}
use domiform.Base.Text.{Text, text_eq}
use domiform.Model.Capability.{CapabilityKind, CapabilityState, kind}
use domiform.Rest.Json.{Json, IsJson, Variant}
use domiform.Rest.Value.{int_of, okay, state_to_json, state_from_json}
use domiform.Rest.RoundTrip.{InRange, state_from_json-state_to_json}
use domiform.Rest.Ranges.{Says, state_from_json-InRange}

mutual
  data Tree : Type 0 where
    empty : Tree
    flag : Bool → Tree
    integer : ℤ → Tree
    fields : Fields → Tree

  data Fields : Type 0 where
    end : Fields
    field : Text → Tree → Fields → Fields

abbrev collect : Assoc Text Tree → Fields
collect [] = end
collect ((k, v) ∷ es) = field k v (collect es)

abbrev spread : Fields → Assoc Text Tree
spread end = []
spread (field k v rest) = (k, v) ∷ spread rest

spread-collect : (es : Assoc Text Tree) → spread (collect es) ≡ es
spread-collect [] = refl
spread-collect ((k, v) ∷ es) = ap (λ rest. (k, v) ∷ rest) (spread-collect es)

abbrev flag_of : Tree → Option Bool
flag_of (flag b) = some b
flag_of _ = none

abbrev integer_of : Tree → Option ℤ
integer_of (integer z) = some z
integer_of _ = none

abbrev fields_of : Tree → Option (Assoc Text Tree)
fields_of (fields fs) = some (spread fs)
fields_of _ = none

abbrev variant_of : Tree → Variant
variant_of empty = Variant.null
variant_of (flag _) = Variant.boolean
variant_of (integer _) = Variant.number
variant_of (fields _) = Variant.object

abbrev trees : Json
trees = record {
  Value = Tree;
  null = empty;
  of_bool = flag;
  of_int = integer;
  of_object = λ es. fields (collect es);
  as_bool = flag_of;
  as_i64 = integer_of;
  as_object = fields_of;
  variant = variant_of;
}

trees-IsJson : IsJson trees
trees-IsJson = record {
  bool_back = λ b. refl;
  int_back = λ z lo hi. refl;
  object_back = λ es h. (es, ap some (spread-collect es), λ k. refl);
}

abbrev orange : CapabilityState
orange = CapabilityState.color 255 170 0

state_from_json-state_to_json_example :
    state_from_json trees (kind orange) (state_to_json trees orange) ≡ okay orange
state_from_json-state_to_json_example =
    state_from_json-state_to_json trees trees-IsJson orange (omega arith, omega arith, omega arith)

decoded_frost :
    state_from_json trees CapabilityKind.temperature (integer (negsuc 499))
    ≡ okay (CapabilityState.temperature (negsuc 499))
unfolding state_from_json int_of
decoded_frost = ground arith

state_from_json-InRange_example :
    (kind (CapabilityState.temperature (negsuc 499)) ≡ CapabilityKind.temperature)
    × InRange (CapabilityState.temperature (negsuc 499))
    × Says trees (integer (negsuc 499)) (CapabilityState.temperature (negsuc 499))
state_from_json-InRange_example =
    state_from_json-InRange trees CapabilityKind.temperature (integer (negsuc 499))
      (CapabilityState.temperature (negsuc 499)) decoded_frost
