-- ===== src/ShortTerm.antt =====
-- core/memory/short_term.py: a bounded buffer of messages over `deque(maxlen=capacity)`.
pub mod Recent
pub mod Entries
mod Tests
use yellowbullv.Shared.{
  ℕ, zero, suc, ◌+◌, ◌-◌, ◌≤◌, max, List, [], ◌∷◌, ◌++◌, length, drop, last_slice,
}

pub record ShortTermMemory {ℓ} (M : Type ℓ) : Type ℓ where
  pub cap : ℕ
  pub messages : List M

module _ {ℓ} {M : Type ℓ} where
  unfoldable pub init : ℕ → ShortTermMemory M
  init limit = record { cap = max limit 1; messages = [] }

  -- `deque.append` with a maximal length: what does not fit falls out at the left.
  unfoldable pub append : M → ShortTermMemory M → ShortTermMemory M
  append m s =
      let longer = s.messages ++ m ∷ [] in
      record s { messages = drop (length longer - s.cap) longer }

  -- `list(self._messages)[-limit:]`
  unfoldable pub get_recent : ℕ → ShortTermMemory M → List M
  get_recent limit s = last_slice limit s.messages

  abbrev pub size : ShortTermMemory M → ℕ
  size s = length s.messages

  abbrev pub capacity : ShortTermMemory M → ℕ
  capacity s = s.cap

  unfoldable pub clear : ShortTermMemory M → ShortTermMemory M
  clear s = record s { messages = [] }

  -- The memory after a sequence of appends.
  unfoldable pub append_all : List M → ShortTermMemory M → ShortTermMemory M
  append_all [] s = s
  append_all (m ∷ ms) s = append_all ms (append m s)
