-- ===== src/Adapters/Zwave/Session.antt =====
-- A command to the adapter of src/adapters/zwavejs.rs, and the poll that brings its confirmation.
use domiform.Base.{◌≡◌, refl, some, List, [], ◌∷◌, In, nat_eq, pair_eq, append-nil, ap}
use domiform.Base.Assoc.{lookup}
use domiform.Base.Text.{Text}
use domiform.Model.Capability.{DeviceId, ActionId}
use domiform.Model.Command.{Command, target_device}
use domiform.Adapters.Zwave.Defs.{
  Wire, IsWire, ZwaveClient, ZwaveAdapter, ValueUpdate, SetValue, command_to_set_value,
  update_to_events, index_devices, index_actions, new, dispatch, tick, outcome_of,
}
use domiform.Adapters.Zwave.Confirm.{InBytes, Confirmed, Echoes, confirm}
use domiform.Adapters.Zwave.Index.{Device, Apart, index-Found}

module _ (w : Wire) (lib : IsWire w) (c : ZwaveClient w) where
  written :
      (ad : ZwaveAdapter w c) (v : Device) (cmd : Command) (set : SetValue w)
      → lookup v.0 ad.by_id ≡ some (v.1, v.2, v.3)
      → target_device cmd ≡ some v.0
      → command_to_set_value w v.3 cmd ≡ some set
      → dispatch w c ad cmd ≡ (
        outcome_of w c (c.set_value ad.client v.1 v.2 set).0,
        record ad { client = (c.set_value ad.client v.1 v.2 set).1 },
      )
  unfolding dispatch
  written ad v cmd set found at lowered = rw (dispatch, at, found, lowered) refl

  heard :
      (ad : ZwaveAdapter w c) (u : ValueUpdate w)
      → (c.poll ad.client).0 ≡ u ∷ []
      → (tick w c ad).0 ≡ update_to_events w ad.by_node ad.actions u
  unfolding tick
  heard ad u polled = rw (tick, polled) (append-nil _)

  -- If no two devices share an id or an address, a command for one of them that can be lowered is written
  -- to its node and endpoint, and the client's answer is the outcome. If the next poll then brings just one
  -- report, of that node and endpoint and with the value that was written, the adapter's events say what the
  -- command asked for: the state of the switch; a brightness within one of the percentage asked for (of 100
  -- at most), which lowers to the same level, with the switch on unless the percentage is 0; the colour; or
  -- a colour temperature in the band of 153 to 370 mireds. The colours asked for have channels below 256.
  pub tick-dispatch :
      (devices : List Device) (events : List (DeviceId × Text × ActionId)) (client : c.State)
      (v : Device) (cmd : Command) (set : SetValue w) (u : ValueUpdate w)
      → Apart devices
      → In v devices
      → target_device cmd ≡ some v.0
      → command_to_set_value w v.3 cmd ≡ some set
      → InBytes cmd
      → Echoes w lib set u
      → u.node ≡ v.1
      → u.endpoint ≡ v.2
      → (c.poll (c.set_value client v.1 v.2 set).1).0 ≡ u ∷ []
      → ((dispatch w c (new w c devices events client) cmd).0
          ≡ outcome_of w c (c.set_value client v.1 v.2 set).0)
        × Confirmed v.3 cmd (tick w c (dispatch w c (new w c devices events client) cmd).1).0
  unfolding new
  tick-dispatch devices events client v cmd set u apart m at lowered bytes_ok echo node endpoint
        polled =
      let ad = new w c devices events client in
      let (by_id, by_node) = index-Found w c devices ([], []) v apart m in
      let sent = written ad v cmd set by_id at lowered in
      let said =
        confirm w lib (index_devices w c devices ([], [])).1 (index_actions w c events []) u v.3 cmd
          set v.0 (rw node (rw endpoint by_node)) at lowered bytes_ok echo in
      (
        ap (λ x. x.0) sent,
        rw sent
            (rw (heard (record ad { client = (c.set_value client v.1 v.2 set).1 }) u polled) said),
      )
