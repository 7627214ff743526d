-- ===== src/Session/Window.antt =====
-- The sliding window of a session's messages.
use yellowbullv.Shared.{
  ℕ, min, ◌≡◌, refl, List, ◌++◌, not, filter, last_slice, init_slice, init-append-last,
  length-last_slice, length, if◌then◌else◌, ◌==◌,
}
use yellowbullv.Session.{Message, Session, is_system, get_context_messages}

abbrev pub non_system : Session → List Message
non_system s = filter (λ m. not (is_system m)) s.messages

-- The window keeps every system message, in order and in front, and of the others a suffix of their
-- sequence: the last `window_size` of them, or all if there are fewer; at `window_size` 0 it is all
-- of them as well.
pub get_context_messages_lem :
    (n : ℕ) (s : Session)
    → (kept : List Message) × (left_out : List Message) × (get_context_messages n s
        ≡ filter is_system s.messages ++ kept)
      × (left_out ++ kept ≡ non_system s)
      × (length kept ≡ (if n == 0 then length (non_system s) else min n (length (non_system s))))
unfolding get_context_messages
get_context_messages_lem n s = (
  last_slice n (non_system s),
  init_slice n (non_system s),
  refl,
  init-append-last n (non_system s),
  length-last_slice n (non_system s),
)
