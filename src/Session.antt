-- ===== src/Session.antt =====
-- models/message.py and models/session.py. Times are ticks of the clock that `datetime.now()` reads;
-- a method that reads it takes the reading as `now`.
pub mod Window
mod Tests
use yellowbullv.Shared.{
  ℕ, ◌+◌, String, Option, none, some, Bool, true, false, List, [], ◌∷◌, ◌++◌, not, filter,
  last_slice,
}
use yellowbullv.Dict.{Dict}

pub data MessageRole : Type 0 where
  system user assistant tool : MessageRole

-- One entry of `tool_calls`, with the three values that the providers put in it (llm/).
pub record ToolCall : Type 0 where
  pub id : String
  pub name : String
  pub arguments : String

pub record Message : Type 0 where
  pub id : String
  pub role : MessageRole
  pub content : Option String
  pub tool_calls : Option (List ToolCall)
  pub tool_call_id : Option String
  pub created_at : ℕ

pub record SessionState : Type 0 where
  pub step : ℕ
  pub chain_depth : ℕ
  pub tool_retry_counts : Dict ℕ

pub record Session : Type 0 where
  pub session_id : String
  pub user_id : String
  pub messages : List Message
  pub state : SessionState
  pub work_dir : Option String
  pub created_at : ℕ
  pub updated_at : ℕ

-- `Session(user_id=…)`, with the drawn id and the two readings of the clock.
abbrev pub fresh_session : String → String → (created updated : ℕ) → Session
fresh_session id owner created updated = record {
  session_id = id;
  user_id = owner;
  messages = [];
  state = record { step = 0; chain_depth = 0; tool_retry_counts = [] };
  work_dir = none;
  created_at = created;
  updated_at = updated;
}

unfoldable pub add_message : Message → ℕ → Session → Session
add_message m now s = record s { messages = s.messages ++ m ∷ []; updated_at = now }

abbrev pub is_system : Message → Bool
is_system m = elim m.role [ system ↦ true | _ ↦ false ]

unfoldable pub get_context_messages : ℕ → Session → List Message
get_context_messages window_size s =
    let non_system = filter (λ m. not (is_system m)) s.messages in
    let system_msgs = filter is_system s.messages in
    system_msgs ++ last_slice window_size non_system
