-- ===== src/Sessions.antt =====
-- core/session_manager.py: the contract of a persistence adapter, and the session manager over any
-- adapter. The default adapter, in memory, is in the child `Memory`.
pub mod Laws
pub mod Memory
mod Tests
use yellowbullv.Shared.{
  ℕ, ◌+◌, String, ◌≡◌, Option, none, some, Bool, true, false, List, [], ◌∷◌, ltb, if◌then◌else◌,
  str_eq, is_some,
}
use yellowbullv.Session.{Session, fresh_session}

-- `SessionPersistenceAdapter`: the abstract methods, over a state `Store`. `cleanup_expired` takes
-- the reading of the clock first.
pub record Adapter : Type 1 where
  pub Store : Type 0
  pub save : Session → Store → Store
  pub load : String → Store → Option Session
  pub delete : String → Store → Bool × Store
  pub list_session_ids : Option String → Store → List String
  pub cleanup_expired : ℕ → ℕ → Store → List String × Store

-- `(now - s.updated_at).total_seconds() > max_age_seconds`
abbrev pub is_stale : ℕ → ℕ → Session → Bool
is_stale now max_age s = ltb (s.updated_at + max_age) now

module _ (adapter : Adapter) where
  open adapter use {Store, save, load, delete, list_session_ids, cleanup_expired}

  -- The id is drawn by `uuid.uuid4()`, and the clock is read twice.
  unfoldable pub create : String → String → (created updated : ℕ) → Store → Session × Store
  create id user_id created updated st =
      let s = fresh_session id user_id created updated in (s, save s st)

  -- `get` and `delete` of the manager
  unfoldable pub get : String → Store → Option Session
  get id st = load id st

  unfoldable pub delete_session : String → Store → Bool × Store
  delete_session id st = delete id st

  abbrev pub found_session :
      String → Option Session → List (String × Session) → List (String × Session)
  found_session sid none rest = rest
  found_session sid (some s) rest = (sid, s) ∷ rest

  -- the loop of `list_sessions`
  unfoldable pub load_all : List String → Store → List (String × Session)
  load_all [] st = []
  load_all (sid ∷ ids) st = found_session sid (load sid st) (load_all ids st)

  unfoldable pub list_sessions : Option String → Store → List (String × Session)
  unfolding load_all
  list_sessions user_id st = load_all (list_session_ids user_id st) st

  -- `cleanup_expired` of the manager: the age, where none is given, is the manager's.
  abbrev pub age_or : Option ℕ → ℕ → ℕ
  age_or none ttl = ttl
  age_or (some age) ttl = age

  unfoldable pub cleanup : (ttl : ℕ) → Option ℕ → ℕ → Store → List String × Store
  cleanup ttl max_age now st = cleanup_expired now (age_or max_age ttl) st
