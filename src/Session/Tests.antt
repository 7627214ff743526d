-- ===== src/Session/Tests.antt =====
-- The window over a concrete session.
use yellowbullv.Shared.{String, ◌≡◌, refl, none, some, [], ◌∷◌, length}
use yellowbullv.Session.{MessageRole, Message, Session, fresh_session, get_context_messages}

abbrev line : MessageRole → String → Message
line role text = record {
  id = text;
  role = role;
  content = some text;
  tool_calls = none;
  tool_call_id = none;
  created_at = 0;
}

abbrev talk : Session
talk = record (fresh_session "s" "u" 0 0) {
  messages =
      line MessageRole.user "a"
      ∷ line MessageRole.system "b"
      ∷ line MessageRole.assistant "c"
      ∷ line MessageRole.user "d"
      ∷ [];
}

-- A window of no messages is a window of all of them.
window_zero : length (get_context_messages 0 talk) ≡ 4
unfolding get_context_messages
window_zero = refl
