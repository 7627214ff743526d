-- ===== src/ShortTerm/Entries.antt =====
-- core/memory/short_term.py: `to_dict_list`, over what `isoformat` makes of a time.
use yellowbullv.Shared.{ℕ, String, Option, List, map}
use yellowbullv.Session.{MessageRole, user, assistant, tool, system, ToolCall, Message}
use yellowbullv.ShortTerm.{ShortTermMemory}

-- A dictionary of the list.
pub record MessageEntry : Type 0 where
  pub id : String
  pub role : String
  pub content : Option String
  pub tool_calls : Option (List ToolCall)
  pub tool_call_id : Option String
  pub created_at : String

-- `m.role.value`
abbrev pub role_text : MessageRole → String
role_text user = "user"
role_text assistant = "assistant"
role_text tool = "tool"
role_text system = "system"

abbrev pub entry_of : (ℕ → String) → Message → MessageEntry
entry_of isoformat m = record {
  id = m.id;
  role = role_text m.role;
  content = m.content;
  tool_calls = m.tool_calls;
  tool_call_id = m.tool_call_id;
  created_at = isoformat m.created_at;
}

unfoldable pub to_dict_list : (ℕ → String) → ShortTermMemory Message → List MessageEntry
to_dict_list isoformat s = map (entry_of isoformat) s.messages
