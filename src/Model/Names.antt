-- ===== src/Model/Names.antt =====
-- The wire names of capabilities, of src/model.rs.
use domiform.Base.{
  ◌≡◌, ◌↔◌, refl, Option, none, some, inl, inr, if◌then◌else◌, Bool-cases, ◌==◌, sym, ◌∙◌, ap,
}
use domiform.Base.Text.{Text, bytes, text_beq, text_beq_iff, text_eq}
use domiform.Model.Capability.{CapabilityKind}

unfoldable pub name : CapabilityKind → Text
name CapabilityKind.switch = bytes "switch"
name CapabilityKind.brightness = bytes "brightness"
name CapabilityKind.color = bytes "color"
name CapabilityKind.color_temperature = bytes "color_temperature"
name CapabilityKind.occupancy = bytes "occupancy"
name CapabilityKind.battery = bytes "battery"
name CapabilityKind.temperature = bytes "temperature"
name CapabilityKind.humidity = bytes "humidity"
name CapabilityKind.illuminance = bytes "illuminance"
name CapabilityKind.power = bytes "power"
name CapabilityKind.contact = bytes "contact"
name CapabilityKind.water_leak = bytes "water_leak"
name CapabilityKind.smoke = bytes "smoke"
name CapabilityKind.ir_transmitter = bytes "ir_transmitter"
name CapabilityKind.time_of_day = bytes "time_of_day"
name CapabilityKind.sun_up = bytes "sun_up"

unfoldable pub from_name : Text → Option CapabilityKind
from_name s =
    if s == bytes "switch"
    then some CapabilityKind.switch
    else if s == bytes "brightness"
    then some CapabilityKind.brightness
    else if s == bytes "color"
    then some CapabilityKind.color
    else if s == bytes "color_temperature"
    then some CapabilityKind.color_temperature
    else if s == bytes "occupancy"
    then some CapabilityKind.occupancy
    else if s == bytes "battery"
    then some CapabilityKind.battery
    else if s == bytes "temperature"
    then some CapabilityKind.temperature
    else if s == bytes "humidity"
    then some CapabilityKind.humidity
    else if s == bytes "illuminance"
    then some CapabilityKind.illuminance
    else if s == bytes "power"
    then some CapabilityKind.power
    else if s == bytes "contact"
    then some CapabilityKind.contact
    else if s == bytes "water_leak"
    then some CapabilityKind.water_leak
    else if s == bytes "smoke"
    then some CapabilityKind.smoke
    else if s == bytes "ir_transmitter"
    then some CapabilityKind.ir_transmitter
    else if s == bytes "time_of_day"
    then some CapabilityKind.time_of_day
    else if s == bytes "sun_up"
    then some CapabilityKind.sun_up
    else none

from_name-name : (k : CapabilityKind) → from_name (name k) ≡ some k
unfolding from_name name
from_name-name CapabilityKind.switch = refl
from_name-name _ = refl

-- One arm of the match: it is taken, or the rest decides.
arm :
    (s t : Text) (rest : Option CapabilityKind) (j k : CapabilityKind)
    → name j ≡ t
    → (rest ≡ some k → name k ≡ s)
    → (if s == t then some j else rest) ≡ some k
    → name k ≡ s
arm s t rest j k e f h = elim (Bool-cases (text_beq s t)) [
  | inl p ↦
      let taken : some j ≡ some k = rw p at h in
      let same : j ≡ k = cc taken in ap name (sym same) ∙ e ∙ sym ((text_beq_iff s t).0 p)
  | inr p ↦ f (rw p at h)
]

-- The two tables agree: a text parses to a capability exactly if it is that capability's name.
pub from_name_iff_name : (s : Text) (k : CapabilityKind) → (from_name s ≡ some k) ↔ (name k ≡ s)
unfolding from_name name
from_name_iff_name s k = (
  arm s _ _ CapabilityKind.switch k refl (
      arm s _ _ CapabilityKind.brightness k refl (
        arm s _ _ CapabilityKind.color k refl (
          arm s _ _ CapabilityKind.color_temperature k refl (
            arm s _ _ CapabilityKind.occupancy k refl (
              arm s _ _ CapabilityKind.battery k refl (
                arm s _ _ CapabilityKind.temperature k refl (
                  arm s _ _ CapabilityKind.humidity k refl (
                    arm s _ _ CapabilityKind.illuminance k refl (
                      arm s _ _ CapabilityKind.power k refl (
                        arm s _ _ CapabilityKind.contact k refl (
                          arm s _ _ CapabilityKind.water_leak k refl (
                            arm s _ _ CapabilityKind.smoke k refl (
                              arm s _ _ CapabilityKind.ir_transmitter k refl (
                                arm s _ _ CapabilityKind.time_of_day k refl
                                  (arm s _ _ CapabilityKind.sun_up k refl (λ q. cc)))))))))))))))),
  λ e. ap from_name (sym e) ∙ from_name-name k,
)
