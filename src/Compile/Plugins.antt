-- ===== src/Compile/Plugins.antt =====
-- src/adapters/plugin.rs: what an adapter's plugin gives the compiler, as a record of its methods; the
-- registry of src/adapters/mod.rs is a list of them. `S` and `N` are the states of the adapters built.
use domiform.Base.{Bool, Option, List, find, ◌==◌}
use domiform.Base.Text.{Text, text_eq}
use domiform.Engine.Parts.{Adapter}
use domiform.Compile.Diagnostic.{Diagnostic}
use domiform.Compile.Lowering.{DeviceDef}

pub data Polarity : Type 0 where
  southbound northbound : Polarity

pub data ExposeSpec : Type 0 where
  all : ExposeSpec
  named : List Text → ExposeSpec

-- A method that takes `diags` gives the diagnostics that it adds. A `Waker` only interrupts a host's
-- sleep, and is left out.
pub record AdapterPlugin (Value S N : Type 0) : Type 0 where
  pub type_tag : Text
  pub polarity : Polarity
  pub expose_spec : Value → Option ExposeSpec
  pub validate_config : Value → Text → List Diagnostic
  pub validate_device : Value → DeviceDef → Text → List Diagnostic
  pub build : Value → List DeviceDef → Adapter S
  -- `adapter_name` and `runtime_storage_dir` of `NorthboundCtx` come last.
  pub build_northbound : Value → List DeviceDef → Text → Text → Option N

pub record AdapterDef (Value S N : Type 0) : Type 0 where
  pub name : Text
  pub plugin : Option (AdapterPlugin Value S N)
  pub config : Value

unfoldable pub plugin_for :
    {Value S N : Type 0} → List (AdapterPlugin Value S N) → Text → Option (AdapterPlugin Value S N)
plugin_for {Value} {S} {N} plugins type_tag =
    find (λ (p : AdapterPlugin Value S N). p.type_tag == type_tag) plugins

-- What `resolve` asks of the libraries chrono-tz and croner: whether a zone is known, and the message of
-- an expression that does not parse.
pub record Calendar : Type 0 where
  pub knows_zone : Text → Bool
  pub cron_error : Text → Option Text
