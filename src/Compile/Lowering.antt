-- ===== src/Compile/Lowering.antt =====
-- The core of src/compile/lower.rs: the state that lowering works on, the shapes of nodes, and the
-- resolution of names and capabilities. `Lowering A` is a method that returns an `Option<A>`.
use domiform.Base.{
  ℕ, Bool, false, ◌||◌, Option, none, some, List, [], ◌∷◌, ◌++◌, if◌then◌else◌, ◌==◌, nat_eq,
  get_elem?, find,
}
use domiform.Base.Assoc.{Assoc, lookup}
use domiform.Base.Text.{Text, bytes, text_eq}
use domiform.Model.Capability.{
  CapabilityKind, DeviceId, SceneId, ScheduleId, ActionId, AdapterIdx, is_numeric, is_bool, kind_eq,
}
use domiform.Model.Names.{from_name}
use domiform.Rule.Truth.{CmpOp}
use domiform.Compile.Diagnostic.{Diagnostic, of_error, at, debug}
use domiform.Compile.Ast.{Yaml, Parsed, parsed, refused}

pub record DeviceEvent : Type 0 where
  pub id : ActionId
  pub name : Text
  pub raw : Text

pub record DeviceMetadata : Type 0 where
  pub manufacturer : Option Text
  pub model : Option Text
  pub room : Option Text

pub record DeviceDef : Type 0 where
  pub id : DeviceId
  pub name : Text
  pub adapter : AdapterIdx
  pub address : Option Text
  pub endpoint : Option ℕ
  pub capabilities : List CapabilityKind
  pub events : List DeviceEvent
  pub metadata : DeviceMetadata

-- The fields of `Lowerer` that lowering reads.
pub record Scope : Type 0 where
  pub devices : List DeviceDef
  pub device_index : Assoc Text DeviceId
  pub scene_index : Assoc Text SceneId
  pub schedule_index : Assoc Text ScheduleId
  pub clock_device : DeviceId

-- The fields of `Lowerer` that lowering writes. A set is the list of what was inserted.
pub record Sheet : Type 0 where
  pub diags : List Diagnostic
  pub scheduled_keys : List Text
  pub referenced_keys : List Text
  pub used_scenes : List SceneId
  pub referenced_schedules : List ScheduleId

abbrev pub Lowering : Type 0 → Type 0
Lowering A = Sheet → Option A × Sheet

abbrev pub pure : {A : Type 0} → A → Lowering A
pure a sheet = (some a, sheet)

abbrev pub continue : {A B : Type 0} → Option A × Sheet → (A → Lowering B) → Option B × Sheet
continue (none, sheet) f = (none, sheet)
continue (some a, sheet) f = f a sheet

module _ {A B : Type 0} where
  -- `let x = m?;`
  infixl 1 ◌>>=◌ ◌>>◌
  unfoldable pub ◌>>=◌ : Lowering A → (A → Lowering B) → Lowering B
  m >>= f = λ sheet. continue (m sheet) f

  abbrev pub ◌>>◌ : Lowering A → Lowering B → Lowering B
  m >> n = m >>= λ _. n

-- A call whose `None` is looked at instead of passed on.
unfoldable pub attempt : {A : Type 0} → Lowering A → Lowering (Option A)
attempt m sheet = (some (m sheet).0, (m sheet).1)

-- `self.diags.push(..)`
unfoldable pub push : Diagnostic → Lowering (Unit {0})
push d sheet = (some tt, record sheet { diags = sheet.diags ++ d ∷ [] })

unfoldable pub note_scheduled_key : Text → Lowering (Unit {0})
note_scheduled_key key sheet =
    (some tt, record sheet { scheduled_keys = key ∷ sheet.scheduled_keys })

unfoldable pub note_referenced_key : Text → Lowering (Unit {0})
note_referenced_key key sheet =
    (some tt, record sheet { referenced_keys = key ∷ sheet.referenced_keys })

unfoldable pub note_used_scene : SceneId → Lowering (Unit {0})
note_used_scene scene sheet = (some tt, record sheet { used_scenes = scene ∷ sheet.used_scenes })

unfoldable pub note_referenced_schedule : ScheduleId → Lowering (Unit {0})
note_referenced_schedule schedule sheet =
    (some tt, record sheet { referenced_schedules = schedule ∷ sheet.referenced_schedules })

-- `map.get(0)?`: `None` with no diagnostic.
unfoldable pub lift : {A : Type 0} → Option A → Lowering A
lift o sheet = (o, sheet)

-- `Some(..)` passes, and `None` is an error with the code and the message. `context` is the
-- argument `at` of the methods.
module _ (context : Text) where
  unfoldable pub error : Text → Text → Lowering (Unit {0})
  unfolding push of_error at
  error code message = push (at (of_error code message) context)

  unfoldable pub fail : {A : Type 0} → Text → Text → Lowering A
  unfolding error lift ◌>>=◌
  fail code message = do error code message; lift none

  unfoldable pub expect : {A : Type 0} → Option A → Text → Text → Lowering A
  unfolding fail
  expect (some a) code message = pure a
  expect none code message = fail code message

-- `parse_capability` of src/compile/resolve.rs
unfoldable pub parse_capability : Text → Option CapabilityKind
unfolding from_name
parse_capability s = elim (from_name s) [
  | some CapabilityKind.time_of_day ↦ none
  | some CapabilityKind.sun_up ↦ none
  | other ↦ other
]

abbrev pub contains : List CapabilityKind → CapabilityKind → Bool
contains [] k = false
contains (j ∷ ks) k = j == k || contains ks k

unfoldable pub cmp_op_of : Text → Option CmpOp
cmp_op_of s =
    if s == bytes "<"
    then some CmpOp.lt
    else if s == bytes "<="
    then some CmpOp.le
    else if s == bytes "=="
    then some CmpOp.eq
    else if s == bytes "!="
    then some CmpOp.ne
    else if s == bytes ">="
    then some CmpOp.ge
    else if s == bytes ">"
    then some CmpOp.gt
    else none

module _ (context : Text) where
  unfoldable pub parse_cmp_op : Text → Lowering CmpOp
  parse_cmp_op s =
      expect context (cmp_op_of s) (bytes "E_BAD_OP")
        (bytes "unknown comparison operator '" ++ s ++ bytes "' (expected <, <=, ==, !=, >=, >)")

  unfoldable pub any_capability : Text → Lowering CapabilityKind
  any_capability label =
      expect context (parse_capability label) (bytes "E_BAD_CAPABILITY")
        (bytes "unknown capability '" ++ label ++ bytes "'")

  unfoldable pub numeric_capability : Text → Lowering CapabilityKind
  numeric_capability label = do
    k ← any_capability label
    if is_numeric k
        then pure k
        else fail context (bytes "E_NON_NUMERIC_CAPABILITY") (
            bytes "'compare' needs a numeric capability, but '"
            ++ label
            ++ bytes "' is not numeric-shaped")

  unfoldable pub bool_capability : Text → Lowering CapabilityKind
  bool_capability label = do
    k ← any_capability label
    if is_bool k
        then pure k
        else fail context (bytes "E_NON_BOOL_CAPABILITY") (
            bytes "'changed' needs a bool capability, but '"
            ++ label
            ++ bytes "' is not bool-shaped")

module _ (y : Yaml) where
  -- The key and the value of a mapping with one entry whose key is a text.
  unfoldable pub entry_of : y.Value → Option (Text × y.Value)
  entry_of v = elim (y.as_mapping v) [
    | some ((k, val) ∷ []) ↦ elim (y.as_str k) [ some verb ↦ some (verb, val) | none ↦ none ]
    | _ ↦ none
  ]

-- The shapes of nodes.
module _ (y : Yaml) (context : Text) where
  unfoldable pub single_entry : y.Value → Text → Lowering (Text × y.Value)
  single_entry v node =
      expect context (entry_of y v) (bytes "E_BAD_NODE")
        (node ++ bytes " must be a single-key map like { verb: target }")

  unfoldable pub as_name : y.Value → Text → Lowering Text
  as_name v node =
      expect context (y.as_str v) (bytes "E_BAD_NODE")
        (bytes "'" ++ node ++ bytes "' expects a name")

  unfoldable pub as_flag : y.Value → Text → Lowering Bool
  as_flag v node =
      expect context (y.as_bool v) (bytes "E_BAD_NODE")
        (bytes "'" ++ node ++ bytes "' expects true/false")

  -- A result of the library, its error reported.
  unfoldable pub accept : {A : Type 0} → Parsed A → Text → Lowering A
  accept (parsed a) node = pure a
  accept (refused e) node =
      fail context (bytes "E_BAD_NODE") (bytes "invalid '" ++ node ++ bytes "': " ++ e)

  unfoldable pub payload : {A : Type 0} → (y.Value → Parsed A) → y.Value → Text → Lowering A
  payload decode v node = do merged ← accept (y.apply_merge v) node; accept (decode merged) node

unfoldable pub declares : Scope → DeviceId → CapabilityKind → Bool
declares scope id cap = elim (get_elem? scope.devices id) [
  | some d ↦ contains d.capabilities cap
  | none ↦ false
]

-- Names and the capabilities that their devices declare.
module _ (scope : Scope) (context : Text) where
  unfoldable pub resolve_device : Text → Lowering DeviceId
  resolve_device label =
      expect context (lookup label scope.device_index) (bytes "E_UNKNOWN_DEVICE")
        (bytes "unknown device '" ++ label ++ bytes "'")

  unfoldable pub require_cap : DeviceId → Text → CapabilityKind → Text → Lowering (Unit {0})
  require_cap id label cap usage =
      if id == scope.clock_device || declares scope id cap
      then pure tt
      else error context (bytes "E_MISSING_CAPABILITY") (
          bytes "'"
          ++ usage
          ++ bytes "' needs capability "
          ++ debug cap
          ++ bytes ", which device '"
          ++ label
          ++ bytes "' does not declare")

  unfoldable pub resolve_event : DeviceId → Text → Text → Lowering ActionId
  resolve_event device dev_name event = do
    dev ← lift (get_elem? scope.devices device)
    e ←
        expect context (find (λ (e : DeviceEvent). e.name == event) dev.events)
          (bytes "E_UNKNOWN_EVENT")
          (bytes "device '" ++ dev_name ++ bytes "' declares no event '" ++ event ++ bytes "'")
    pure e.id
