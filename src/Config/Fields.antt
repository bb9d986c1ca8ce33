-- ===== src/Config/Fields.antt =====
-- Paths and single fields: ResolvePath, ReadRequiredString, ReadArgs and ReadAutoStart of
-- apps/agent/src/service/service_registry.cpp.
use aegis_desk.Prelude.{
  Bool, false, Option, none, some, List, [], ◌∷◌, ◌++◌, if◌then◌else◌, is_empty,
}
use aegis_desk.Prelude.Text.{Str, text}
use aegis_desk.Prelude.Result.{Result, ok, err, ◌>>=◌, ◌>>◌, guard, require}
use aegis_desk.Config.{PropertyTree, Paths}

unfoldable pub resolve_path : Paths → Str → Str → Str
resolve_path p base_dir value =
    if p.is_absolute value
    then p.lexically_normal value
    else p.lexically_normal (p.join base_dir value)

-- `get<T>(key, fallback)`.
abbrev pub value_or {ℓ} : {A : Type ℓ} → A → Option A → A
value_or fallback none = fallback
value_or fallback (some a) = a

module _ {D T : Type 0} (t : PropertyTree D T) where
  unfoldable pub check_required : Str → Option Str → Result Str
  check_required message none = err message
  check_required message (some []) = err message
  check_required message (some (c ∷ s)) = ok (c ∷ s)

  unfoldable pub read_required_string : T → Str → Str → Result Str
  unfolding check_required
  read_required_string object field_name context =
      check_required (context ++ text "." ++ field_name ++ text " must be a non-empty string")
        (t.get_string object field_name)

  -- The loop over the items.
  unfoldable pub read_items : Str → List (Str × T) → Result (List Str)
  read_items context [] = ok []
  read_items context ((key, item) ∷ items) =
      let rest = read_items context items in
      do
        guard (is_empty key) (context ++ text ".args must be a JSON array")
        guard (is_empty (t.children item)) (context ++ text ".args items must be strings")
        argument ← require (t.own_string item) (context ++ text ".args items must be strings")
        arguments ← rest
        ok (argument ∷ arguments)

  unfoldable pub args_of : Str → Option T → Result (List Str)
  unfolding read_items
  args_of context none = ok []
  args_of context (some node) = do
    guard (is_empty (t.data_of node)) (context ++ text ".args must be a JSON array")
    read_items context (t.children node)

  unfoldable pub read_args : T → Str → Result (List Str)
  unfolding args_of
  read_args object context = args_of context (t.get_child object (text "args"))

  unfoldable pub read_auto_start : T → Str → Result Bool
  read_auto_start object context = elim (t.get_child object (text "auto_start")) [
    | none ↦ ok false
    | some _ ↦
        require (t.get_bool object (text "auto_start"))
          (context ++ text ".auto_start must be true or false")
  ]
