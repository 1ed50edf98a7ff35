-- ===== src/Agent/Parse.antt =====
-- crates/cuartel-core/src/agent.rs: the functions behind `parse_line` of the harnesses of Pi, Claude
-- Code, Codex and OpenCode: from the JSON value of a line to an event.
use cuartel.Common.{
  String, ◌||◌, List, [], ◌∷◌, Option, none, some, inl, inr, if◌then◌else◌, str_eq,
}
use Prim.Native.String.{◌++◌ as str_append}
use cuartel.Common.Text.{trim, is_empty}
use cuartel.Agent.Harness.{
  Json, HarnessEvent, output, tool_use, completed, failed, parse_error, Result, ok, err,
}

module _ (json : Json) where
  open json use {Value, from_str, get, as_str, as_array, null}

  -- `value.get(key).and_then(|v| v.as_str())`
  unfoldable pub text_at : Value → String → Option String
  text_at value key = elim (get value key) [ none ↦ none | some v ↦ as_str v ]

  unfoldable pub text_or : Value → String → String → String
  unfolding text_at
  text_or value key default = elim (text_at value key) [ none ↦ default | some text ↦ text ]

  unfoldable pub value_or_null : Value → String → Value
  value_or_null value key = elim (get value key) [ none ↦ null | some v ↦ v ]

  abbrev Parsed : Type 0
  Parsed = Result (Option (HarnessEvent Value))

  -- The beginning of each `parse_line`: a blank line is no event, and other lines must be JSON.
  unfoldable pub parsed : (Value → Parsed) → String → Parsed
  unfolding trim
  parsed on_value line =
      let trimmed = trim line in
      if is_empty trimmed
      then ok none
      else elim (from_str trimmed) [ inl message ↦ err (parse_error message) | inr v ↦ on_value v ]

  unfoldable pub tool_of : Value → HarnessEvent Value
  unfolding text_or value_or_null
  tool_of value = tool_use (text_or value "name" "") (value_or_null value "input")

  unfoldable pub pi_event : Value → String → Parsed
  unfolding text_or tool_of
  pi_event value kind =
      if str_eq kind "output"
      then ok (some (output (text_or value "text" "")))
      else if str_eq kind "tool_use"
      then ok (some (tool_of value))
      else if str_eq kind "completed"
      then ok (some completed)
      else if str_eq kind "error"
      then ok (some (failed (text_or value "message" "unknown pi error")))
      else err (parse_error (str_append (str_append "unknown pi event type `" kind) "`"))

  unfoldable pub pi_value : Value → Parsed
  unfolding text_at pi_event
  pi_value value = elim (text_at value "type") [
    | none ↦ err (parse_error "missing `type` field")
    | some kind ↦ pi_event value kind
  ]

  unfoldable pub claude_code_block_to_event : Value → Option (HarnessEvent Value)
  unfolding text_at text_or tool_of
  claude_code_block_to_event block = elim (text_at block "type") [
    | none ↦ none
    | some kind ↦
        if str_eq kind "text"
        then some (output (text_or block "text" ""))
        else if str_eq kind "tool_use"
        then some (tool_of block)
        else none
  ]

  -- `blocks.iter().find_map(claude_code_block_to_event)`
  unfoldable pub first_event : List Value → Option (HarnessEvent Value)
  unfolding claude_code_block_to_event
  first_event [] = none
  first_event (block ∷ blocks) =
      let later = first_event blocks in
      elim (claude_code_block_to_event block) [ none ↦ later | some event ↦ some event ]

  -- `value.get("message").and_then(|m| m.get("content")).and_then(|c| c.as_array())`
  unfoldable pub content_blocks : Value → Option (List Value)
  content_blocks value = elim (get value "message") [
    | none ↦ none
    | some message ↦ elim (get message "content") [ none ↦ none | some content ↦ as_array content ]
  ]

  unfoldable pub claude_failure : Value → String
  unfolding text_at text_or
  claude_failure value = elim (text_at value "error") [
    | some message ↦ message
    | none ↦ text_or value "result" "claude code error"
  ]

  unfoldable pub claude_event : Value → String → Parsed
  unfolding text_or content_blocks first_event claude_failure
  claude_event value kind =
      if str_eq kind "system" || str_eq kind "user"
      then ok none
      else if str_eq kind "assistant"
      then ok (elim (content_blocks value) [ none ↦ none | some blocks ↦ first_event blocks ])
      else if str_eq kind "result"
      then (if str_eq (text_or value "subtype" "") "success"
          then ok (some completed)
          else ok (some (failed (claude_failure value))))
      else err (parse_error (str_append (str_append "unknown claude code event type `" kind) "`"))

  unfoldable pub claude_value : Value → Parsed
  unfolding text_at claude_event
  claude_value value = elim (text_at value "type") [
    | none ↦ err (parse_error "missing `type` field")
    | some kind ↦ claude_event value kind
  ]

  -- `msg.get("message").or_else(|| msg.get("delta"))`, as a text.
  unfoldable pub codex_text : Value → String
  unfolding text_at text_or
  codex_text msg = elim (get msg "message") [
    | some v ↦ elim (as_str v) [ none ↦ "" | some text ↦ text ]
    | none ↦ text_or msg "delta" ""
  ]

  unfoldable pub codex_event : Value → String → Parsed
  unfolding codex_text value_or_null text_or
  codex_event msg kind =
      if str_eq kind "agent_message" || str_eq kind "agent_message_delta"
      then ok (some (output (codex_text msg)))
      else if str_eq kind "exec_command_begin"
      then ok (some (tool_use "exec" (value_or_null msg "command")))
      else if str_eq kind "task_complete"
      then ok (some completed)
      else if str_eq kind "error"
      then ok (some (failed (text_or msg "message" "codex error")))
      else ok none

  unfoldable pub codex_value : Value → Parsed
  unfolding text_at codex_event
  codex_value value = elim (get value "msg") [
    | none ↦ ok none
    | some msg ↦ elim (text_at msg "type") [
      | none ↦ err (parse_error "missing `msg.type` field")
      | some kind ↦ codex_event msg kind
    ]
  ]

  unfoldable pub open_code_event : Value → String → Parsed
  unfolding text_or tool_of
  open_code_event value event =
      if str_eq event "message"
      then ok (some (output (text_or value "text" "")))
      else if str_eq event "tool"
      then ok (some (tool_of value))
      else if str_eq event "done"
      then ok (some completed)
      else if str_eq event "error"
      then ok (some (failed (text_or value "message" "opencode error")))
      else ok none

  unfoldable pub open_code_value : Value → Parsed
  unfolding text_at open_code_event
  open_code_value value = elim (text_at value "event") [
    | none ↦ err (parse_error "missing `event` field")
    | some event ↦ open_code_event value event
  ]
