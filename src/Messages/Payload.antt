-- ===== src/Messages/Payload.antt =====
-- The bodies of tool results and of tool calls in a compacted conversation, from
-- minicodex/agent/context/message_compaction.py.
use mini_codex.Common.{
  ℕ, suc, ◌+◌, Bool, ◌||◌, Option, none, some, List, [], ◌∷◌, ◌++◌, Text, String, codes, same,
  strip, is_empty, length, ltb, ◌==◌, get_or, if◌then◌else◌,
}
use mini_codex.Common.Decimal.{decimal}
use mini_codex.Validation.Regression.{contains}

-- What the compaction takes from Python's `json`, `re` and `str`.
pub record JsonLibrary : Type 1 where
  -- an object read from JSON
  pub Args : Type 0
  -- `json.loads`, where it gives an object; `none` where it raises or gives another value
  pub loads : Text → Option Args
  -- `json.dumps` with `ensure_ascii=False`
  pub dumps : Args → Text
  -- `not args`
  pub no_entries : Args → Bool
  -- `str(args[key])`, where the key is there
  pub entry : Text → Args → Option Text
  -- `str(args[key])`, where the key is there and its value counts as true
  pub true_entry : Text → Args → Option Text
  -- `args[key] = text`
  pub with_entry : Text → Text → Args → Args
  -- `{key: text}`
  pub single : Text → Text → Args
  -- `int` of the number in the last match of `(\d+)\s+token`, in either case
  pub last_count : Text → Text → Option ℕ
  -- `str.lower`
  pub lower : Text → Text

-- `s.count("\n")`
abbrev pub newlines : Text → ℕ
newlines [] = 0
newlines (c ∷ s) = if c == 10 then suc (newlines s) else newlines s

abbrev literal_in : String → Text → Bool
literal_in t s = contains (codes t) s

abbrev pub named : Text → String → Bool
named name t = same name (codes t)

module _ (j : JsonLibrary) where
  -- `none` is the empty object.
  unfoldable pub parse_arguments : Text → Option j.Args
  parse_arguments arguments = if is_empty (strip arguments) then none else j.loads arguments

  unfoldable pub tool_result_failed : Text → Bool
  tool_result_failed content =
      let lowered = j.lower content in
      literal_in "tool execution failed:" lowered
      || literal_in "tool argument parsing failed:" lowered
      || literal_in "access outside the workspace" lowered

  unfoldable pub write_status : Text → Bool → Text
  write_status content failed =
      if failed
      then codes "FAILED"
      else if literal_in "successfully" (j.lower content)
          || literal_in "成功" content
          || literal_in "已完成" content
      then codes "OK"
      else codes "UNKNOWN"

  -- `args.get("path") or args.get("command") or ""`
  abbrev shown_target : Option j.Args → Text
  shown_target none = []
  shown_target (some args) = elim (j.true_entry (codes "path") args) [
    | some path ↦ path
    | none ↦ get_or (j.true_entry (codes "command") args) []
  ]

  abbrev suffix : Text → Text
  suffix path = if is_empty path then [] else codes " " ++ path

  abbrev bracketed : Text → Text
  bracketed name = codes "[" ++ name ++ codes "]"

  abbrev count_text : Option ℕ → Text
  count_text none = codes "unknown"
  count_text (some n) = decimal n

  unfoldable pub summarize_tool_result : Text → Text → Text → Text
  summarize_tool_result name arguments content =
      let about = bracketed name ++ suffix (strip (shown_target (parse_arguments arguments))) in
      let failed = tool_result_failed content in
      let lines = newlines content + (if is_empty content then 0 else 1) in
      let counted = λ (token : String). count_text (j.last_count (codes token) content) in
      if named name "read_file"
      then (if failed
          then about ++ codes " FAILED"
          else about ++ codes " (" ++ decimal lines ++ codes " lines)")
      else if named name "run_tests" || named name "run_command"
      then about
        ++ codes " "
        ++ counted "passed"
        ++ codes " passed / "
        ++ counted "failed"
        ++ codes " failed"
      else if named name "write_file" || named name "patch_file"
      then about ++ codes " " ++ write_status content failed
      else about ++ codes " (" ++ decimal (length content) ++ codes " chars)"

  -- One round of the loop over the fields of an edit.
  abbrev omit_field : ℕ → j.Args → Text → j.Args
  omit_field max args field = elim (j.entry field args) [
    | none ↦ args
    | some text ↦
        if ltb max (length text)
        then j.with_entry field (codes "[omitted, " ++ decimal (length text) ++ codes " chars]")
            args
        else args
  ]

  abbrev omit_fields : ℕ → j.Args → List String → j.Args
  omit_fields max args [] = args
  omit_fields max args (field ∷ fields) = omit_fields max (omit_field max args (codes field)) fields

  abbrev edit_payload_fields : Text → List String
  edit_payload_fields name =
      if named name "patch_file"
      then "old_text" ∷ "new_text" ∷ []
      else if named name "replace_lines"
      then "content" ∷ "new_text" ∷ []
      else if named name "replace_symbol"
      then "content" ∷ "new_code" ∷ "replacement" ∷ []
      else []

  -- `json.dumps` of the arguments without their large texts
  abbrev omit_entries : Text → ℕ → j.Args → Text
  omit_entries name max args =
      let written =
        if named name "write_file" then omit_field max args (codes "content") else args in
      j.dumps (omit_fields max written (edit_payload_fields name))

  abbrev omit_opaque : Text → ℕ → Text
  omit_opaque arguments max =
      if ltb max (length arguments)
      then j.dumps (j.single (codes "_omitted") (decimal (length arguments) ++ codes " chars"))
      else arguments

  unfoldable pub omit_large_arguments : Text → Text → ℕ → Text
  omit_large_arguments name arguments max = elim (parse_arguments arguments) [
    | none ↦ omit_opaque arguments max
    | some args ↦
        if j.no_entries args then omit_opaque arguments max else omit_entries name max args
  ]
