-- ===== src/Compile/Ast.antt =====
-- src/compile/ast.rs: what the configuration file holds. The library serde_yaml, and the decoders that
-- serde derives for these structures, are a parameter. A `BTreeMap` is the list of its entries in the
-- order of their keys.
use domiform.Base.{ℕ, Bool, true, not, Option, none, some, List, filter}
use domiform.Base.Int.{ℤ}
use domiform.Base.Text.{Text, bytes, starts_with}

pub record RawSwitchIs : Type 0 where
  pub device : Text
  pub on : Bool

pub record RawOccupancyIs : Type 0 where
  pub device : Text
  pub occupied : Bool

pub record RawChanged : Type 0 where
  pub device : Text
  pub capability : Text
  pub to : Bool

pub record RawCrosses : Type 0 where
  pub device : Text
  pub capability : Text
  pub above : Option ℤ
  pub below : Option ℤ

pub record RawReports : Type 0 where
  pub device : Text
  pub capability : Text

pub record RawCompare : Type 0 where
  pub device : Text
  pub capability : Text
  pub op : Text
  pub value : ℤ

pub record RawSetBrightness : Type 0 where
  pub device : Text
  pub value : ℕ
  pub transition : Option Text

-- `RawDecreaseBrightness` and `RawIncreaseBrightness`
pub record RawDecreaseBrightness : Type 0 where
  pub device : Text
  pub value : ℕ

pub record RawIncreaseBrightness : Type 0 where
  pub device : Text
  pub value : ℕ

pub record RawSetColor (Value : Type 0) : Type 0 where
  pub device : Text
  pub color : Value
  pub transition : Option Text

pub record RawColorIs (Value : Type 0) : Type 0 where
  pub device : Text
  pub color : Value

pub record RawSetColorTemperature : Type 0 where
  pub device : Text
  pub kelvin : Option ℕ
  pub mireds : Option ℕ
  pub transition : Option Text

pub record RawScheduleTimer : Type 0 where
  pub key : Text
  pub after : Text

pub record RawSendIrCode : Type 0 where
  pub device : Text
  pub code : Text

pub record RawSchedule : Type 0 where
  pub cron : Option Text
  pub daily : Option Text
  pub weekday : Option Text
  pub weekend : Option Text

pub record RawDevice : Type 0 where
  pub adapter : Text
  pub address : Option Text
  pub endpoint : Option ℕ
  pub capabilities : List Text
  pub events : List (Text × Text)
  pub manufacturer : Option Text
  pub model : Option Text
  pub room : Option Text

pub record RawAdapter (Value : Type 0) : Type 0 where
  pub kind : Text
  pub config : Value

pub record RawRule (Value : Type 0) : Type 0 where
  pub when : Value
  pub condition : Option Value
  pub for_duration : Option Text
  pub then : List Value

pub record RawHealthcheck : Type 0 where
  pub host : Text
  pub port : ℕ

pub record RawRestApi : Type 0 where
  pub host : Text
  pub port : ℕ
  pub token : Option Text

-- The coordinates are floating-point numbers, of a type that the model leaves open.
pub record RawSystem (Float : Type 0) : Type 0 where
  pub name : Option Text
  pub timezone : Option Text
  pub latitude : Option Float
  pub longitude : Option Float
  pub runtime_storage_path : Option Text
  pub healthcheck : Option RawHealthcheck
  pub rest_api : Option RawRestApi

pub record RawConfig (Float Value : Type 0) : Type 0 where
  pub system : RawSystem Float
  pub adapters : List (Text × RawAdapter Value)
  pub devices : List (Text × RawDevice)
  pub scenes : List (Text × List Value)
  pub schedules : List (Text × RawSchedule)
  pub rules : List (Text × RawRule Value)

-- `Result<A, serde_yaml::Error>`, the error as its message.
pub data Parsed (A : Type 0) : Type 0 where
  parsed : A → Parsed A
  refused : Text → Parsed A

pub record Yaml : Type 1 where
  pub Float : Type 0
  pub Value : Type 0
  -- How many nodes a value has.
  pub size : Value → ℕ
  pub as_str : Value → Option Text
  pub as_bool : Value → Option Bool
  pub as_u64 : Value → Option ℕ
  pub as_sequence : Value → Option (List Value)
  -- The match on `Value::Mapping`, `Mapping::get` with a text, and a mapping made of entries.
  pub as_mapping : Value → Option (List (Value × Value))
  pub get : List (Value × Value) → Text → Option Value
  pub of_mapping : List (Value × Value) → Value
  pub apply_merge : Value → Parsed Value
  pub from_str : Text → Parsed Value
  pub switch_is : Value → Parsed RawSwitchIs
  pub occupancy_is : Value → Parsed RawOccupancyIs
  pub changed : Value → Parsed RawChanged
  pub crosses : Value → Parsed RawCrosses
  pub reports : Value → Parsed RawReports
  pub compare : Value → Parsed RawCompare
  pub set_brightness : Value → Parsed RawSetBrightness
  pub decrease_brightness : Value → Parsed RawDecreaseBrightness
  pub increase_brightness : Value → Parsed RawIncreaseBrightness
  pub set_color : Value → Parsed (RawSetColor Value)
  pub color_is : Value → Parsed (RawColorIs Value)
  pub set_color_temperature : Value → Parsed RawSetColorTemperature
  pub schedule_timer : Value → Parsed RawScheduleTimer
  pub send_ir_code : Value → Parsed RawSendIrCode
  pub raw_config : Value → Parsed (RawConfig Float Value)

module _ (y : Yaml) where
  -- The test of `retain`: only a key that is a text can start with `x-`.
  abbrev is_kept : Option Text → Bool
  is_kept none = true
  is_kept (some s) = not (starts_with s (bytes "x-"))

  abbrev retain : List (y.Value × y.Value) → List (y.Value × y.Value)
  retain = filter λ (e : y.Value × y.Value). is_kept (y.as_str e.0)

  abbrev strip_extensions : y.Value → y.Value
  strip_extensions v = elim (y.as_mapping v) [ some m ↦ y.of_mapping (retain m) | none ↦ v ]

  unfoldable pub parse_raw_config : Text → Parsed (RawConfig y.Float y.Value)
  parse_raw_config src = elim (y.from_str src) [
    | refused e ↦ refused e
    | parsed value ↦ y.raw_config (strip_extensions value)
  ]
