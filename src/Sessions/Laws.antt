-- ===== src/Sessions/Laws.antt =====
-- What an adapter promises, and what the manager promises over an adapter that keeps its promises.
use yellowbullv.Shared.{
  ℕ, ◌+◌, ◌≤◌, String, ◌≡◌, refl, ◌∙◌, Option, none, some, Bool, true, false, not, ◌||◌, arith, leb,
  if◌then◌else◌, str_eq, str_eq_refl, is_some,
}
use yellowbullv.Session.{Session, fresh_session}
use yellowbullv.Dict.Laws.{elem}
use yellowbullv.Sessions.{Adapter, create, cleanup, get, delete_session}

-- What a clean-up leaves of what is found under an id: a session whose last change is at most the given
-- age ago; and whether it reports the id.
abbrev pub survivor : ℕ → ℕ → Option Session → Option Session
survivor now age none = none
survivor now age (some s) = if leb now (s.updated_at + age) then some s else none

abbrev pub is_expired : ℕ → ℕ → Option Session → Bool
is_expired now age none = false
is_expired now age (some s) = not (leb now (s.updated_at + age))

-- Whether a listing has what is found under an id: all sessions where no user or the empty one is given,
-- and else those of the user.
abbrev pub is_listed : Option String → Option Session → Bool
is_listed user_id none = false
is_listed none (some s) = true
is_listed (some u) (some s) = str_eq u "" || str_eq s.user_id u

-- `IsValid` is what the store is known to satisfy between calls.
pub record AdapterLaws (a : Adapter) (IsValid : a.Store → Type 0) : Type 1 where
  pub save-IsValid : (s : Session) (st : a.Store) → IsValid st → IsValid (a.save s st)
  pub delete-IsValid : (id : String) (st : a.Store) → IsValid st → IsValid (a.delete id st).1
  pub cleanup-IsValid :
      (now age : ℕ) (st : a.Store) → IsValid st → IsValid (a.cleanup_expired now age st).1
  pub load-save :
      (s : Session) (id : String) (st : a.Store)
      → a.load id (a.save s st) ≡ (if str_eq s.session_id id then some s else a.load id st)
  pub load-delete :
      (id other : String) (st : a.Store)
      → a.load other (a.delete id st).1 ≡ (if str_eq id other then none else a.load other st)
  pub delete-found : (id : String) (st : a.Store) → (a.delete id st).0 ≡ is_some (a.load id st)
  pub load-cleanup :
      (now age : ℕ) (id : String) (st : a.Store)
      → IsValid st
      → a.load id (a.cleanup_expired now age st).1 ≡ survivor now age (a.load id st)
  pub cleanup-reports :
      (now age : ℕ) (id : String) (st : a.Store)
      → IsValid st
      → elem id (a.cleanup_expired now age st).0 ≡ is_expired now age (a.load id st)
  pub list-lists :
      (user_id : Option String) (id : String) (st : a.Store)
      → IsValid st
      → elem id (a.list_session_ids user_id st) ≡ is_listed user_id (a.load id st)

module _ (a : Adapter) (IsValid : a.Store → Type 0) (laws : AdapterLaws a IsValid) where
  open laws use {load-save, load-delete, delete-found, load-cleanup}

  -- Over an adapter that keeps its laws, on a valid store: after `create`, a clean-up at a time no
  -- later than the session's creation plus the manager's time to live leaves the session, as
  -- returned, under its id; a deletion after `create` reports that it was there, and after it
  -- nothing is found under the id.
  pub session_life :
      (id user_id : String) (created updated later age : ℕ) (st : a.Store)
      → IsValid st
      → later ≤ updated + age
      → let st' = (create a id user_id created updated st).1 in
        (get a id (cleanup a age none later st').1
          ≡ some (create a id user_id created updated st).0)
        × ((delete_session a id st').0 ≡ true)
        × (get a id (delete_session a id st').1 ≡ none)
  unfolding create get delete_session cleanup
  session_life id user_id created updated later age st v young =
      let s = fresh_session id user_id created updated in
      let found = load-save s id st in
      let here : a.load id (a.save s st) ≡ some s = ground (arith, found, str_eq_refl id) in
      (
        load-cleanup later age id (a.save s st) (laws.save-IsValid s st v)
            ∙ rw (here) (ground (arith)),
        delete-found id (a.save s st) ∙ rw here refl,
        load-delete id id (a.save s st) ∙ rw (str_eq_refl id) refl,
      )
