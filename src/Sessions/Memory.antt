-- ===== src/Sessions/Memory.antt =====
-- core/session_manager.py, `MemorySessionAdapter`: a dictionary of sessions as an adapter.
use yellowbullv.Shared.{
  ℕ, String, ◌≡◌, refl, sym, ap, ◌∙◌, Option, none, some, Bool, true, false, List, [], ◌∷◌, arith,
  if◌then◌else◌, str_eq, str_eq_iff, str_eq_refl, is_some, is_empty,
}
use yellowbullv.Dict.{Dict, lookup, insert, remove, remove_all, keys, keys_where}
use yellowbullv.Dict.Laws.{
  elem, lookup-insert, lookup-remove, lookup-remove_all, elem-keys_where, IsDistinct,
  insert-IsDistinct, remove-IsDistinct, remove_all-IsDistinct,
}
use yellowbullv.Session.{Session}
use yellowbullv.Sessions.{Adapter, is_stale, load_all, list_sessions}
use yellowbullv.Sessions.Laws.{AdapterLaws, survivor, is_expired, is_listed}

-- `if user_id: [… if s.user_id == user_id] else list(keys)`
owned_by : String → String → Session → Bool
owned_by user_id k s = str_eq s.user_id user_id

unfoldable pub list_session_ids : Option String → Dict Session → List String
unfolding owned_by
list_session_ids none st = keys st
list_session_ids (some user_id) st =
    if is_empty user_id then keys st else keys_where (owned_by user_id) st

unfoldable pub cleanup_expired : ℕ → ℕ → Dict Session → List String × Dict Session
cleanup_expired now max_age st =
    let expired = keys_where (λ k s. is_stale now max_age s) st in (expired, remove_all expired st)

abbrev pub memory : Adapter
memory = record {
  Store = Dict Session;
  save = λ s st. insert s.session_id s st;
  load = lookup;
  delete = λ id st. (is_some (lookup id st), remove id st);
  list_session_ids = list_session_ids;
  cleanup_expired = cleanup_expired;
}

load-cleanup_expired :
    (now age : ℕ) (id : String) (st : Dict Session)
    → IsDistinct st
    → lookup id (cleanup_expired now age st).1 ≡ survivor now age (lookup id st)
unfolding cleanup_expired
load-cleanup_expired now age id st d =
    let p : String → Session → Bool = λ k s. is_stale now age s in
    ground (arith, lookup-remove_all (keys_where p st) id st, elem-keys_where p id st d)

cleanup_expired-IsDistinct :
    (now age : ℕ) (st : Dict Session) → IsDistinct st → IsDistinct (cleanup_expired now age st).1
unfolding cleanup_expired
cleanup_expired-IsDistinct now age st d = remove_all-IsDistinct _ st d

keys-keys_where : (d : Dict Session) → keys d ≡ keys_where (λ k s. true) d
unfolding keys_where
keys-keys_where [] = refl
keys-keys_where ((k, s) ∷ d) = ap (◌∷◌ k) (keys-keys_where d)

elem-keys :
    (id : String) (st : Dict Session)
    → IsDistinct st
    → elem id (keys st) ≡ is_listed none (lookup id st)
elem-keys id st d =
    let same = keys-keys_where st in let e = elem-keys_where (λ k s. true) id st d in ground arith

cleanup-reports :
    (now age : ℕ) (id : String) (st : Dict Session)
    → IsDistinct st
    → elem id (cleanup_expired now age st).0 ≡ is_expired now age (lookup id st)
unfolding cleanup_expired
cleanup-reports now age id st d =
    ground (arith, elem-keys_where (λ k s. is_stale now age s) id st d)

list-lists :
    (user_id : Option String) (id : String) (st : Dict Session)
    → IsDistinct st
    → elem id (list_session_ids user_id st) ≡ is_listed user_id (lookup id st)
unfolding list_session_ids owned_by
list-lists none id st d = elem-keys id st d
list-lists (some u) id st d =
    ground (arith, elem-keys id st d, elem-keys_where (owned_by u) id st d)

-- The in-memory adapter keeps the laws of an adapter, a store being valid while no id occurs in it
-- twice. Saving a session lets it be loaded under its id, and changes no other. Deleting an id tells
-- whether it was there, and takes that session away and no other. Cleaning up takes away the sessions
-- whose last change is longer ago than the given age, leaves every other as it is, and answers with
-- exactly the ids that it takes away. A listing has exactly the ids of the sessions that are there and
-- belong to the user, or all of them where no user or the empty one is given. All of it keeps the store
-- valid.
pub memory_laws : AdapterLaws memory IsDistinct
memory_laws = record {
  save-IsValid = λ s st d. insert-IsDistinct s.session_id s st d;
  delete-IsValid = λ id st d. remove-IsDistinct id st d;
  cleanup-IsValid = cleanup_expired-IsDistinct;
  load-save = λ s id st. lookup-insert s.session_id id s st;
  load-delete = λ id other st. lookup-remove id other st;
  delete-found = λ id st. refl;
  load-cleanup = load-cleanup_expired;
  cleanup-reports = cleanup-reports;
  list-lists = list-lists;
}

-- Loading ids that a store does not add anything to.
load_all-cons :
    (p : String → Session → Bool) (k : String) (s : Session) (d e : Dict Session)
    → lookup k d ≡ none
    → load_all memory (keys_where p d) ((k, s) ∷ e) ≡ load_all memory (keys_where p d) e
unfolding load_all keys_where lookup
load_all-cons p k s [] e h = refl
load_all-cons p k s ((j, w) ∷ d) e h =
    ground (arith, load_all-cons p k s d e, str_eq_iff j k, str_eq_iff k j)

-- The entries of a store that pass a test, in its order.
abbrev pub select : (String → Session → Bool) → Dict Session → Dict Session
select p [] = []
select p ((k, s) ∷ d) = if p k s then (k, s) ∷ select p d else select p d

load_all-select :
    (p : String → Session → Bool) (d : Dict Session)
    → IsDistinct d
    → load_all memory (keys_where p d) d ≡ select p d
unfolding load_all keys_where lookup
load_all-select p [] h = refl
load_all-select p ((k, s) ∷ d) (q, h) =
    ground (arith, load_all-select p d h, load_all-cons p k s d d q, str_eq_refl k)

select-all : (d : Dict Session) → select (λ k s. true) d ≡ d
select-all [] = refl
select-all (e ∷ d) = ap (◌∷◌ e) (select-all d)

load_all-keys : (d : Dict Session) → IsDistinct d → load_all memory (keys d) d ≡ d
load_all-keys d h = rw (keys-keys_where d) (load_all-select (λ k s. true) d h ∙ select-all d)

-- The sessions that a filter asks for: all without one or with an empty one, else those of the user.
abbrev pub wanted : Option String → String → Session → Bool
wanted none k s = true
wanted (some u) k s = if is_empty u then true else str_eq s.user_id u

-- On a valid store `list_sessions` answers the store's entries that belong to the given user, or
-- all of them where no user or the empty one is given, each once and in the order in which they were
-- first saved.
pub list_sessions-select :
    (user_id : Option String) (st : Dict Session)
    → IsDistinct st
    → list_sessions memory user_id st ≡ select (wanted user_id) st
unfolding list_sessions list_session_ids
list_sessions-select none st h = load_all-keys st h ∙ sym (select-all st)
list_sessions-select (some u) st h = cases (is_empty u)
  where
    cases :
        (b : Bool)
        → load_all memory (if b then keys st else keys_where (owned_by u) st) st
          ≡ select (λ k s. if b then true else str_eq s.user_id u) st
    cases true = load_all-keys st h ∙ sym (select-all st)
    cases false = load_all-select (owned_by u) st h
