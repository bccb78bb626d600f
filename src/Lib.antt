-- ===== src/Lib.antt =====
-- A model of domiform, a home-automation runtime, and the theorems about it.
--
-- The program. A host boots an engine, injects events, and advances virtual time (src/engine.rs). The
-- engine folds reports into a state store (src/state.rs), matches the rules against each event
-- (src/rule.rs), and dispatches the commands of those that fire to adapters (src/adapters/). Events that
-- a command produces re-enter the queue one causal hop deeper, and the depth is capped. Time is an
-- adapter too: the scheduler (src/adapters/scheduler.rs) holds the timers of retries and of sustained
-- (`for:`) rules.
--
-- Which file models which part:
--   Model      src/model.rs and src/ids.rs. Capability has `CapabilityKind` and `CapabilityState` with
--              their views, Names the wire names, Command the types `Desired`, `Command` and `Event`.
--   State      src/state.rs: `StateStore` with `set`, `get` and the typed reads.
--   Rule       src/rule.rs: Trigger (`matches`, `predicate_holds`), Truth (three-valued logic), Condition
--              (`eval`), Rules (`Rule` and its builders).
--   Adapters   src/adapters/: Outcome and Level from mod.rs, Scheduler from scheduler.rs, Echo from mock.rs
--              and virtual_device.rs, Clock from clock.rs (Fire and Ticks its theorems), Zwave from
--              zwavejs.rs (Levels and Defs the code, Index its tables, Confirm, Session and Reports theorems).
--   Engine     src/engine.rs: Parts (its state, adapters and observers), Intent (requests and relative
--              commands), Dispatch (`dispatch_at`, retries), Timers (`for:` timers), Loop (`drain`), Drive
--              (`inject`, `advance`, `start`, `next_wake_delay`), Host (runs of those calls). Post and
--              Steady carry invariants through these; the other files of Engine prove them.
--   Rest       src/adapters/rest_api/: Json (what is used of serde_json, a parameter), Value (the codec of
--              json.rs), RoundTrip and Ranges its theorems.
--   Compile    src/compile/: Diagnostic from diagnostic.rs, Ast from ast.rs with the parameter `Yaml`, Scalars,
--              Lowering, Triggers, Conditions and Commands from lower.rs (`Lowering A` is a method of `Lowerer`
--              that returns an `Option<A>`), Plugins from src/adapters/plugin.rs, Resolve from resolve.rs,
--              Build from `build_engine_full` of mod.rs. Typed has the checks of lower.rs as predicates,
--              Ensures the judgement they are proved with, Sound what an accepted file has, Returns and Total
--              that `resolve` comes to its end, Fuel that the recursion into conditions ends.
--   Color      src/color.rs: Hex (`hex_to_rgb`) and White (the warm and cold mix).
--   Base       lists, maps, integers, byte strings and sorting, as all of the above use them.
--   Tests      runs and instances on concrete inputs.
--
-- How the code is written down. A function with `&mut self` takes the engine and returns the new one. An
-- Option of an engine is `none` where the code panics (an index out of bounds, a failed `expect`), where
-- the recursion into scenes is deeper than the fuel, or where a drain has more events than the rounds
-- given. `dispatch_at` recurs on fuel, since a scene may activate scenes: a fuel above the depth to which
-- scenes nest is enough. `drain` recurs on a number of rounds, of which there are
-- enough for every run of an idle engine (the first result below). The loop of `drain` is in pieces:
-- `process` is its body, `handle_event` the interceptions, `react`, `consider` and `perform` the rules.
--
-- Numbers are natural numbers; u32 and u64 wrap around as in a release build, where the code adds to a
-- depth, a counter, an attempt or the time; u8 and u16 values are stored as they are given. The saturating
-- operations are written out. An i64 is an unbounded integer: the code adds only values of eight bits in
-- it, and compares. A HashMap is an association list with one entry for each key, and code that walks
-- over a map walks over that list. Texts are lists of bytes.
--
-- What is a parameter. The adapters that talk to devices, the clock and the northbound adapters are an
-- arbitrary state with the functions of the record `Ports`: the model says nothing about what they answer.
-- The observers are one trace, to which each call of the `Observer` trait adds a notice; `add_observer`
-- has no counterpart. The serde_json library is the record `Json`; what the code relies on is `IsJson`.
--
-- The YAML library and the decoders that serde derives are the record `Yaml`, and `IsYaml` says that a value
-- is bigger than its parts; the calendar libraries are the record `Calendar`; a plugin is a record of its
-- methods. `build_engine_full` is told whether
-- debug assertions are on. The set of dangling keys, which the code walks in no fixed order, is walked in order of insertion.
-- `condition` recurs on the size of the value. The clock's libraries are the record `Almanac`, and `IsAlmanac`
-- says that croner finds the first occurrence after an instant; its inner loop recurs on the distance to the
-- tick in milliseconds. For the Z-Wave adapter serde_json is the record `Wire` with `IsWire`, and the client is
-- any `ZwaveClient`.
--
-- Not modelled: the rest of the REST adapter (src/adapters/rest_api/), the
-- other protocol adapters and the network session of the Z-Wave one, hue and saturation in src/color.rs (floating point), and the host
-- (src/main.rs, src/wake.rs, src/healthcheck.rs), which is command line, threads and sockets.
pub mod Adapters
pub mod Base
pub mod Color
pub mod Compile
pub mod Engine
pub mod Model
pub mod Rest
pub mod Rule
pub mod State
pub mod Tests
