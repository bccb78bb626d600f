-- ===== src/Engine/Requests.antt =====
-- What src/engine.rs makes of requests and of relative commands.
use domiform.Base.{
  ℕ, ◌≡◌, true, false, none, some, refl, zero, suc, ◌⊎◌, inl, inr, ◌≢◌, arith, nat_eq,
}
use domiform.Base.Int.{ℤ, pos, negsuc, ◌+ℤ◌, ◌-ℤ◌, clamp_ℤ}
use domiform.State
use domiform.State.{StateStore}
use domiform.Model.Capability.{CapabilityKind, CapabilityState, DeviceId, kind, is_writable}
use domiform.Model.Command.{Command, Desired, target_device}
use domiform.Adapters.Echo.{echoed}
use domiform.Engine.Intent.{
  command_for_state, command_for_requested_change, resolve_implicit_state_command, level,
}

-- A request for a state becomes a command exactly if its capability is writable, and the command targets
-- the device of the request and, carried out, is reported back as that very state.
pub request_iff_writable :
    (device : DeviceId) (state : CapabilityState)
    → ((is_writable (kind state) ≡ false)
        × (command_for_requested_change device (Desired.set state) ≡ none))
      ⊎ ((is_writable (kind state) ≡ true)
          × (c : Command) × (command_for_requested_change device (Desired.set state) ≡ some c)
          × (target_device c ≡ some device)
          × (echoed c ≡ some state))
unfolding command_for_requested_change command_for_state is_writable kind target_device echoed
request_iff_writable device (CapabilityState.switch on) = inr (refl, _, refl, refl, refl)
request_iff_writable device (CapabilityState.brightness v) = inr (refl, _, refl, refl, refl)
request_iff_writable device (CapabilityState.color r g b) = inr (refl, _, refl, refl, refl)
request_iff_writable device (CapabilityState.color_temperature m) = inr (refl, _, refl, refl, refl)
request_iff_writable device _ = inl (refl, refl)

abbrev percent : ℤ → ℤ
percent z = clamp_ℤ z (pos 0) (pos 100)

level-percent : (z : ℤ) → pos (level z) ≡ percent z
level-percent (pos n) = ground arith
level-percent (negsuc n) = ground arith

-- A request to move the brightness by a step other than 0, where the store knows the brightness, is
-- dispatched as the absolute command for the brightness moved by the step and clamped to 0 to 100.
pub adjust_exact :
    (s : StateStore) (device : DeviceId) (delta brightness : ℤ)
    → delta ≢ pos 0
    → State.num_value s device CapabilityKind.brightness ≡ some brightness
    → (c : Command) × (v : ℕ) × (command_for_requested_change device
          (Desired.adjust_brightness delta)
        ≡ some c)
      × (resolve_implicit_state_command s c ≡ Command.set_brightness device v none)
      × (pos v ≡ clamp_ℤ (brightness +ℤ delta) (pos 0) (pos 100))
unfolding command_for_requested_change resolve_implicit_state_command
adjust_exact s device (pos zero) brightness moves known = absurd (moves refl)
adjust_exact s device (pos (suc n)) brightness moves known = (
  Command.increase_brightness device (suc n),
  level (brightness +ℤ pos (suc n)),
  ground arith,
  rw (known, resolve_implicit_state_command) refl,
  level-percent (brightness +ℤ pos (suc n)),
)
adjust_exact s device (negsuc n) brightness moves known = (
  Command.decrease_brightness device (suc n),
  level (brightness -ℤ pos (suc n)),
  ground arith,
  rw (known, resolve_implicit_state_command) refl,
  level-percent (brightness +ℤ negsuc n),
)
