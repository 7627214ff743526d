-- ===== src/Repl/Listing.antt =====
-- `/sessions` in a session that is there.
use yellowbullv.Shared.{
  String, ◌≡◌, refl, sym, ap, ◌∙◌, Option, none, some, Bool, true, false, List, [], ◌∷◌,
  is_nonempty, if◌then◌else◌, is_some, str_eq, str_eq_iff, str_eq_refl, arith, Bool-cases, inl, inr,
}
use yellowbullv.Shared.Json.{Json}
use yellowbullv.Dict.{Dict, lookup, keys_where}
use yellowbullv.Session.{Session}
use yellowbullv.Sessions.{load_all, list_sessions}
use yellowbullv.Sessions.Memory.{memory, list_session_ids}
use yellowbullv.Agent.{Services, AgentConfig}
use yellowbullv.Repl.{
  Terminal, Repl, Next, goes_on, crashed, Printed, text, user_id, sessions_command,
}
use yellowbullv.Repl.Run.{Settled}

some_inj : (s t : Session) → some s ≡ some t → s ≡ t
some_inj s t h = ground arith

-- Some key of the dictionary stands in a list first.
record Heads {V : Type 0} (d : Dict V) (ks : List String) : Type 0 where
  key : String
  others : List String
  begins : ks ≡ key ∷ others
  there : is_some (lookup key d) ≡ true

passed_over :
    (b : Bool) (q : Session → Bool) (v s : Session) (rest : Option Session)
    → q v ≡ false
    → q s ≡ true
    → (if b then some v else rest) ≡ some s
    → rest ≡ some s
passed_over true q v s rest bad good h = let same = ap q (some_inj v s h) in absurd (ground arith)
passed_over false q v s rest bad good h = h

found_later :
    (b : Bool) (v : Session) (rest : Option Session)
    → is_some rest ≡ true
    → is_some (if b then some v else rest) ≡ true
found_later true v rest h = refl
found_later false v rest h = h

Heads-keys_where :
    (p : String → Session → Bool) (q : Session → Bool) (d : Dict Session) (id : String)
    (s : Session)
    → ((k : String) (v : Session) → p k v ≡ q v)
    → lookup id d ≡ some s
    → q s ≡ true
    → Heads d (keys_where p d)
unfolding lookup keys_where
Heads-keys_where p q [] id s pq h good = absurd (ground arith)
Heads-keys_where p q ((j, v) ∷ d) id s pq h good = elim (Bool-cases (p j v)) [
  | inl e ↦ record {
    key = j;
    others = keys_where p d;
    begins = rw e refl;
    there = rw (str_eq_refl j) refl;
  }
  | inr e ↦
      let h' = passed_over (str_eq j id) q v s (lookup id d) (sym (pq j v) ∙ e) good h in
      let r = Heads-keys_where p q d id s pq h' good in
      record {
        key = r.key;
        others = r.others;
        begins = rw e r.begins;
        there = found_later (str_eq j r.key) v (lookup r.key d) r.there;
      }
]

load_all-Heads :
    (d : Dict Session) (ks : List String) → Heads d ks → is_nonempty (load_all memory ks d) ≡ true
unfolding load_all
load_all-Heads d ks h = rw h.begins (first_found (lookup h.key d) refl h.there)
  where
    first_found :
        (o : Option Session)
        → lookup h.key d ≡ o
        → is_some o ≡ true
        → is_nonempty (load_all memory (h.key ∷ h.others) d) ≡ true
    first_found none e k = absurd (ground arith)
    first_found (some s) e k = ground arith

module _ (sv : Services) (cfg : AgentConfig) (terminal : Terminal sv.World)
    (bad_result : Json → String) where
  listed :
      (st : Repl sv.World)
      → Settled sv cfg terminal bad_result st
      → is_nonempty (list_sessions memory (some user_id) st.store) ≡ true
  unfolding list_sessions list_session_ids
  listed st h = load_all-Heads st.store _ (
      Heads-keys_where _ (λ s. str_eq s.user_id user_id) st.store st.current_session_id h.session
        (λ k v. refl) h.stored ((str_eq_iff h.session.user_id user_id).1 h.owned))

  -- In a session of the command line that is there, `/sessions` prints nothing and an exception leaves
  -- the command line.
  pub sessions_command-crashed :
      (st : Repl sv.World)
      → Settled sv cfg terminal bad_result st
      → sessions_command sv cfg terminal bad_result st
        ≡ ([], crashed "'Session' object has no attribute 'model_dump'")
  unfolding sessions_command
  sessions_command-crashed st h = go (list_sessions memory (some user_id) st.store) (listed st h)
    where
      go :
          (l : List (String × Session))
          → is_nonempty l ≡ true
          → (let out : List Printed × Next = elim l [
            | [] ↦ (text "[dim]暂无会话[/dim]" ∷ [], goes_on)
            | s ∷ ss ↦ ([], crashed "'Session' object has no attribute 'model_dump'")
          ] in
              out)
            ≡ ([], crashed "'Session' object has no attribute 'model_dump'")
      go [] k = absurd (ground arith)
      go (x ∷ xs) k = refl
