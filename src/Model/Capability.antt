-- ===== src/Model/Capability.antt =====
-- src/ids.rs and the capability half of src/model.rs. Ids are u32 indices; a state carries numbers
-- whose widths are those of its Rust fields.
use domiform.Base.{
  ℕ, ◌<◌, ◌↔◌, ◌≡◌, Bool, true, false, Option, none, some, arith, ap, nat_beq, nat_beq_iff, Eq,
}
use domiform.Base.Int.{ℤ, pos, negsuc, ◌≤ℤ◌}

abbrev pub Millis : Type 0
Millis = ℕ

abbrev pub DeviceId : Type 0
DeviceId = ℕ

abbrev pub RuleId : Type 0
RuleId = ℕ

abbrev pub SceneId : Type 0
SceneId = ℕ

abbrev pub ScheduleId : Type 0
ScheduleId = ℕ

abbrev pub ActionId : Type 0
ActionId = ℕ

abbrev pub AdapterIdx : Type 0
AdapterIdx = ℕ

pub data CapabilityKind : Type 0 where
  switch brightness color color_temperature occupancy battery temperature humidity : CapabilityKind
  illuminance power contact water_leak smoke ir_transmitter time_of_day sun_up : CapabilityKind

unfoldable pub is_numeric : CapabilityKind → Bool
is_numeric CapabilityKind.brightness = true
is_numeric CapabilityKind.battery = true
is_numeric CapabilityKind.color_temperature = true
is_numeric CapabilityKind.time_of_day = true
is_numeric CapabilityKind.temperature = true
is_numeric CapabilityKind.humidity = true
is_numeric CapabilityKind.illuminance = true
is_numeric CapabilityKind.power = true
is_numeric _ = false

unfoldable pub is_bool : CapabilityKind → Bool
is_bool CapabilityKind.switch = true
is_bool CapabilityKind.occupancy = true
is_bool CapabilityKind.sun_up = true
is_bool CapabilityKind.contact = true
is_bool CapabilityKind.water_leak = true
is_bool CapabilityKind.smoke = true
is_bool _ = false

unfoldable pub is_writable : CapabilityKind → Bool
is_writable CapabilityKind.switch = true
is_writable CapabilityKind.brightness = true
is_writable CapabilityKind.color = true
is_writable CapabilityKind.color_temperature = true
is_writable CapabilityKind.ir_transmitter = true
is_writable _ = false

-- `derive(PartialEq)` compares the variants' discriminants.
abbrev discriminant : CapabilityKind → ℕ
discriminant CapabilityKind.switch = 0
discriminant CapabilityKind.brightness = 1
discriminant CapabilityKind.color = 2
discriminant CapabilityKind.color_temperature = 3
discriminant CapabilityKind.occupancy = 4
discriminant CapabilityKind.battery = 5
discriminant CapabilityKind.temperature = 6
discriminant CapabilityKind.humidity = 7
discriminant CapabilityKind.illuminance = 8
discriminant CapabilityKind.power = 9
discriminant CapabilityKind.contact = 10
discriminant CapabilityKind.water_leak = 11
discriminant CapabilityKind.smoke = 12
discriminant CapabilityKind.ir_transmitter = 13
discriminant CapabilityKind.time_of_day = 14
discriminant CapabilityKind.sun_up = 15

abbrev pub kind_beq : CapabilityKind → CapabilityKind → Bool
kind_beq a b = nat_beq (discriminant a) (discriminant b)

kind_of : (a b : CapabilityKind) → discriminant a ≡ discriminant b → a ≡ b
kind_of a b h = ground arith

pub kind_beq_iff : (a b : CapabilityKind) → (kind_beq a b ≡ true) ↔ (a ≡ b)
kind_beq_iff a b = (
  λ h. kind_of a b ((nat_beq_iff (discriminant a) (discriminant b)).0 h),
  λ h. (nat_beq_iff (discriminant a) (discriminant b)).1 (ap discriminant h),
)

instance abbrev pub kind_eq : Eq CapabilityKind
kind_eq = record { beq = kind_beq; beq_iff = kind_beq_iff }

pub data CapabilityState : Type 0 where
  switch : Bool → CapabilityState
  brightness : ℕ → CapabilityState  -- u8, 0..=100
  color : ℕ → ℕ → ℕ → CapabilityState  -- u8 each
  color_temperature : ℕ → CapabilityState  -- u16, mireds
  occupancy : Bool → CapabilityState
  battery : ℕ → CapabilityState  -- u8
  temperature : ℤ → CapabilityState  -- i16, centidegrees
  humidity : ℕ → CapabilityState  -- u8
  illuminance : ℕ → CapabilityState  -- u32
  power : ℕ → CapabilityState  -- u32
  contact : Bool → CapabilityState
  water_leak : Bool → CapabilityState
  smoke : Bool → CapabilityState
  time_of_day : ℕ → CapabilityState  -- u16
  sun_up : Bool → CapabilityState

unfoldable pub kind : CapabilityState → CapabilityKind
kind (CapabilityState.switch _) = CapabilityKind.switch
kind (CapabilityState.brightness _) = CapabilityKind.brightness
kind (CapabilityState.color _ _ _) = CapabilityKind.color
kind (CapabilityState.color_temperature _) = CapabilityKind.color_temperature
kind (CapabilityState.occupancy _) = CapabilityKind.occupancy
kind (CapabilityState.battery _) = CapabilityKind.battery
kind (CapabilityState.temperature _) = CapabilityKind.temperature
kind (CapabilityState.humidity _) = CapabilityKind.humidity
kind (CapabilityState.illuminance _) = CapabilityKind.illuminance
kind (CapabilityState.power _) = CapabilityKind.power
kind (CapabilityState.contact _) = CapabilityKind.contact
kind (CapabilityState.water_leak _) = CapabilityKind.water_leak
kind (CapabilityState.smoke _) = CapabilityKind.smoke
kind (CapabilityState.time_of_day _) = CapabilityKind.time_of_day
kind (CapabilityState.sun_up _) = CapabilityKind.sun_up

unfoldable pub as_bool : CapabilityState → Option Bool
as_bool (CapabilityState.switch b) = some b
as_bool (CapabilityState.occupancy b) = some b
as_bool (CapabilityState.sun_up b) = some b
as_bool (CapabilityState.contact b) = some b
as_bool (CapabilityState.water_leak b) = some b
as_bool (CapabilityState.smoke b) = some b
as_bool _ = none

-- Every width fits in an i64, so the casts change no value.
unfoldable pub as_i64 : CapabilityState → Option ℤ
as_i64 (CapabilityState.brightness v) = some (pos v)
as_i64 (CapabilityState.battery v) = some (pos v)
as_i64 (CapabilityState.humidity v) = some (pos v)
as_i64 (CapabilityState.color_temperature v) = some (pos v)
as_i64 (CapabilityState.time_of_day v) = some (pos v)
as_i64 (CapabilityState.temperature v) = some v
as_i64 (CapabilityState.illuminance v) = some (pos v)
as_i64 (CapabilityState.power v) = some (pos v)
as_i64 _ = none

-- The ranges of the Rust fields.
abbrev pub InWidth : CapabilityState → Type 0
InWidth (CapabilityState.brightness v) = v < 256
InWidth (CapabilityState.color r g b) = (r < 256) × (g < 256) × (b < 256)
InWidth (CapabilityState.color_temperature v) = v < 65536
InWidth (CapabilityState.battery v) = v < 256
InWidth (CapabilityState.temperature v) = (negsuc 32767 ≤ℤ v) × (v ≤ℤ pos 32767)
InWidth (CapabilityState.humidity v) = v < 256
InWidth (CapabilityState.illuminance v) = v < 4294967296
InWidth (CapabilityState.power v) = v < 4294967296
InWidth (CapabilityState.time_of_day v) = v < 65536
InWidth _ = Unit
