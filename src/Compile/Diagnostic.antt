-- ===== src/Compile/Diagnostic.antt =====
-- src/compile/diagnostic.rs: the compiler's findings.
use domiform.Base.{
  ℕ, suc, Bool, true, false, Option, none, some, List, [], ◌∷◌, if◌then◌else◌, ◌++◌,
}
use domiform.Base.Text.{Text, bytes}
use domiform.Model.Capability.{CapabilityKind}

pub data Severity : Type 0 where
  error warning : Severity

pub record Diagnostic : Type 0 where
  pub severity : Severity
  pub code : Text
  pub message : Text
  pub context : Option Text

unfoldable pub of_error : Text → Text → Diagnostic
of_error code message = record {
  severity = Severity.error;
  code = code;
  message = message;
  context = none;
}

unfoldable pub of_warning : Text → Text → Diagnostic
of_warning code message = record {
  severity = Severity.warning;
  code = code;
  message = message;
  context = none;
}

unfoldable pub at : Diagnostic → Text → Diagnostic
at d context = record d { context = some context }

unfoldable pub is_error : Diagnostic → Bool
is_error d = elim d.severity [ Severity.error ↦ true | Severity.warning ↦ false ]

-- `CompileErrors::errors`, and how many there are.
unfoldable pub errors : List Diagnostic → List Diagnostic
errors [] = []
errors (d ∷ ds) = let rest = errors ds in if is_error d then d ∷ rest else rest

unfoldable pub error_count : List Diagnostic → ℕ
error_count [] = 0
error_count (d ∷ ds) = let rest = error_count ds in if is_error d then suc rest else rest

abbrev label : Severity → Text
label Severity.error = bytes "error"
label Severity.warning = bytes "warning"

abbrev in_context : Option Text → Text
in_context none = []
in_context (some ctx) = bytes " (" ++ ctx ++ bytes ")"

-- `Display`
unfoldable pub display : Diagnostic → Text
display d =
    label d.severity
    ++ bytes "["
    ++ d.code
    ++ bytes "]"
    ++ in_context d.context
    ++ bytes ": "
    ++ d.message

-- The line breaks stand between the diagnostics.
unfoldable pub display_all : List Diagnostic → Text
display_all [] = []
display_all (d ∷ []) = display d
display_all (d ∷ e ∷ ds) = display d ++ 10 ∷ display_all (e ∷ ds)

-- `format!("{kind:?}")`, as `derive(Debug)` of src/model.rs makes it.
unfoldable pub debug : CapabilityKind → Text
debug CapabilityKind.switch = bytes "Switch"
debug CapabilityKind.brightness = bytes "Brightness"
debug CapabilityKind.color = bytes "Color"
debug CapabilityKind.color_temperature = bytes "ColorTemperature"
debug CapabilityKind.occupancy = bytes "Occupancy"
debug CapabilityKind.battery = bytes "Battery"
debug CapabilityKind.temperature = bytes "Temperature"
debug CapabilityKind.humidity = bytes "Humidity"
debug CapabilityKind.illuminance = bytes "Illuminance"
debug CapabilityKind.power = bytes "Power"
debug CapabilityKind.contact = bytes "Contact"
debug CapabilityKind.water_leak = bytes "WaterLeak"
debug CapabilityKind.smoke = bytes "Smoke"
debug CapabilityKind.ir_transmitter = bytes "IrTransmitter"
debug CapabilityKind.time_of_day = bytes "TimeOfDay"
debug CapabilityKind.sun_up = bytes "SunUp"
