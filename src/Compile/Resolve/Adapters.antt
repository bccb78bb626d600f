-- ===== src/Compile/Resolve/Adapters.antt =====
-- The adapters of `resolve` in src/compile/resolve.rs.
use domiform.Base.{ℕ, suc, Option, none, some, List, [], ◌∷◌, ◌++◌, ◌%◌, ◌^◌}
use domiform.Base.Assoc.{Assoc, insert}
use domiform.Base.Text.{Text, bytes, text_eq}
use domiform.Model.Capability.{AdapterIdx}
use domiform.Compile.Diagnostic.{Diagnostic, of_warning, at}
use domiform.Compile.Ast.{RawAdapter}
use domiform.Compile.Lowering.{Lowering, pure, ◌>>=◌, ◌>>◌, push, error}
use domiform.Compile.Plugins.{AdapterPlugin, AdapterDef, plugin_for}

-- `u32`
abbrev pub to_u32 : ℕ → ℕ
to_u32 n = n % 2 ^ 32

unfoldable pub warn : Text → Text → Text → Lowering (Unit {0})
warn context code message = push (at (of_warning code message) context)

unfoldable pub push_all : List Diagnostic → Lowering (Unit {0})
push_all [] = pure tt
push_all (d ∷ ds) = do push d; push_all ds

abbrev pub adapter_context : Text → Text
adapter_context label = bytes "adapter '" ++ label ++ bytes "'"

module _ (Value S N : Type 0) (plugins : List (AdapterPlugin Value S N)) where
  unfoldable pub check_config :
      Option (AdapterPlugin Value S N) → Text → RawAdapter Value → Lowering (Unit {0})
  check_config none label raw =
      error (adapter_context label) (bytes "E_UNKNOWN_ADAPTER_TYPE")
        (bytes "unknown adapter type '" ++ raw.kind ++ bytes "'")
  check_config (some p) label raw = push_all (p.validate_config raw.config (adapter_context label))

  unfoldable pub resolve_adapter : Text → RawAdapter Value → Lowering (AdapterDef Value S N)
  resolve_adapter label raw = do
    check_config (plugin_for plugins raw.kind) label raw
    pure (record { name = label; plugin = plugin_for plugins raw.kind; config = raw.config })

  -- The index of an adapter is its place.
  unfoldable pub resolve_adapters :
      List (Text × RawAdapter Value)
      → ℕ
      → Assoc Text AdapterIdx
      → Lowering (List (AdapterDef Value S N) × Assoc Text AdapterIdx)
  resolve_adapters [] count index = pure ([], index)
  resolve_adapters ((label, raw) ∷ rest) count index = do
    adapter ← resolve_adapter label raw
    (more, index') ← resolve_adapters rest (suc count) (insert label count index)
    pure (adapter ∷ more, index')
