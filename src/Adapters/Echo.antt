-- ===== src/Adapters/Echo.antt =====
-- src/adapters/mock.rs and src/adapters/virtual_device.rs: adapters that report each commanded state
-- back.
use domiform.Base.{◌≡◌, Option, none, some, [], ◌∷◌, arith, ◌>>=◌}
use domiform.Model.Capability.{CapabilityState}
use domiform.Model.Command.{Command, Event, target_device}
use domiform.Adapters.Outcome.{DispatchOutcome, ok, done}

-- `MockDeviceAdapter::dispatch`
unfoldable pub mock_dispatch : Command → DispatchOutcome
mock_dispatch (Command.set_switch device on) =
    ok (Event.state_reported device (CapabilityState.switch on) ∷ [])
mock_dispatch (Command.set_brightness device value _) =
    ok (Event.state_reported device (CapabilityState.brightness value) ∷ [])
mock_dispatch (Command.set_color device r g b _) =
    ok (Event.state_reported device (CapabilityState.color r g b) ∷ [])
mock_dispatch (Command.set_color_temperature device mireds _) =
    ok (Event.state_reported device (CapabilityState.color_temperature mireds) ∷ [])
mock_dispatch (Command.send_ir_code _ _) = done
mock_dispatch _ = done

-- The state that a command sets, if it sets one.
unfoldable pub echoed : Command → Option CapabilityState
echoed (Command.set_switch _ on) = some (CapabilityState.switch on)
echoed (Command.set_brightness _ value _) = some (CapabilityState.brightness value)
echoed (Command.set_color _ r g b _) = some (CapabilityState.color r g b)
echoed (Command.set_color_temperature _ mireds _) = some (CapabilityState.color_temperature mireds)
echoed _ = none

-- `VirtualDeviceAdapter::dispatch`; `none` is the panic of `expect`.
unfoldable pub virtual_dispatch : Command → Option DispatchOutcome
unfolding echoed target_device
virtual_dispatch cmd = elim (echoed cmd) [
  | none ↦ some done
  | some state ↦ target_device cmd >>= λ device. some (ok (Event.state_reported device state ∷ []))
]

-- The `expect` in the virtual adapter never fails, and the adapter answers every command as the mock
-- adapter does.
pub virtual-mock : (cmd : Command) → virtual_dispatch cmd ≡ some (mock_dispatch cmd)
unfolding virtual_dispatch mock_dispatch
virtual-mock cmd = ground arith
