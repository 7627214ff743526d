-- ===== src/Repl/Run.antt =====
-- The state of the command line from one line to the next.
use yellowbullv.Shared.{
  String, ◌≡◌, refl, sym, ap, ◌∙◌, some, false, is_empty, starts_with, arith, Bool-cases, inl, inr,
}
use yellowbullv.Shared.Json.{Json}
use yellowbullv.Dict.{Dict, lookup, insert}
use yellowbullv.Dict.Laws.{lookup-insert_self}
use yellowbullv.Session.{Session}
use yellowbullv.Sessions.{create, get}
use yellowbullv.Agent.{
  Services, AgentConfig, ChatRequest, ChatResponse, Answer, answered, failed, chat,
}
use yellowbullv.Agent.Chat.{get_or_create-known}
use yellowbullv.Agent.Answers.{chat-Answered}
use yellowbullv.Agent.Keeps.{identity, chat-identity}
use yellowbullv.Repl.Words.{strip, behind_word}
use yellowbullv.Repl.{
  Input, line, interrupted, Made, made, os_error, other_error, Terminal, Repl, user_id, create_in,
  put_work_dir, dir_changed, change_dir, workdir_command, inherited_dir, new_command, command,
  Command, quit, help, workdir, new, sessions, history, clear, unknown, run_command, after_answer,
  talk, turn,
}

module _ (sv : Services) (cfg : AgentConfig) (terminal : Terminal sv.World)
    (bad_result : Json → String) where
  open sv use {World, uuid}

  -- The current session is there under its id, belongs to the user of the command line, and works in the
  -- folder that the command line shows.
  pub record Settled (st : Repl World) : Type 0 where
    pub session : Session
    pub full : is_empty st.current_session_id ≡ false
    pub stored : lookup st.current_session_id st.store ≡ some session
    pub named : session.session_id ≡ st.current_session_id
    pub owned : session.user_id ≡ user_id
    pub placed : session.work_dir ≡ some st.work_dir

  -- A session that has just been created.
  pub create_in-Settled :
      (dir : String) (store : Dict Session) (w : World)
      → is_empty (uuid w).0 ≡ false
      → let (s, store', w') = create_in sv cfg terminal bad_result dir store w in
        Settled
          (record { current_session_id = s.session_id; work_dir = dir; store = store'; world = w' })
  unfolding create_in create
  create_in-Settled dir store w full = record {
    session = _;
    full = full;
    stored = lookup-insert_self _ _ _;
    named = refl;
    owned = refl;
    placed = refl;
  }

  put_work_dir-insert :
      (id dir : String) (store : Dict Session) (s : Session)
      → is_empty id ≡ false
      → lookup id store ≡ some s
      → put_work_dir sv cfg terminal bad_result id dir store
        ≡ insert id (record s { work_dir = some dir }) store
  unfolding put_work_dir get
  put_work_dir-insert id dir store s full stored = ground arith

  dir_changed-Settled :
      (dir : String) (e : Made) (w : World) (st : Repl World)
      → Settled st
      → Settled (dir_changed sv cfg terminal bad_result dir e w st).2
  unfolding dir_changed
  dir_changed-Settled dir (os_error z) w st h = record {
    session = h.session;
    full = h.full;
    stored = h.stored;
    named = h.named;
    owned = h.owned;
    placed = h.placed;
  }
  dir_changed-Settled dir (other_error z) w st h = record {
    session = h.session;
    full = h.full;
    stored = h.stored;
    named = h.named;
    owned = h.owned;
    placed = h.placed;
  }
  dir_changed-Settled dir made w st h =
      let moved : Session = record h.session { work_dir = some dir } in
      record {
        session = moved;
        full = h.full;
        stored =
            ap (lookup st.current_session_id)
              (put_work_dir-insert st.current_session_id dir st.store h.session h.full h.stored)
            ∙ lookup-insert_self st.current_session_id moved st.store;
        named = h.named;
        owned = h.owned;
        placed = refl;
      }

  workdir_command-Settled :
      (input : String) (st : Repl World)
      → Settled st
      → Settled (workdir_command sv cfg terminal bad_result input st).2
  unfolding workdir_command change_dir
  workdir_command-Settled input st h = elim (Bool-cases (is_empty (behind_word input))) [
    | inl e ↦ rw e h
    | inr e ↦ rw e (dir_changed-Settled _ _ _ st h)
  ]

  new_command-Settled :
      (st : Repl World)
      → is_empty (uuid st.world).0 ≡ false
      → Settled (new_command sv cfg terminal bad_result st).1
  unfolding new_command
  new_command-Settled st full =
      create_in-Settled (inherited_dir sv cfg terminal bad_result st) st.store st.world full

  after_answer-Settled :
      (answer : Answer) (store : Dict Session) (w : World) (st : Repl World) (s : Session)
      → (h : Settled st) → lookup st.current_session_id store ≡ some s
      → identity s ≡ identity h.session
      → ((r : ChatResponse) → answer ≡ answered r → r.session_id ≡ st.current_session_id)
      → Settled (after_answer sv cfg terminal bad_result answer store w st).1
  unfolding after_answer
  after_answer-Settled (failed e) store w st s h stored same named = record {
    session = s;
    full = h.full;
    stored = stored;
    named = ap (λ x. x.0) same ∙ h.named;
    owned = ap (λ x. x.1) same ∙ h.owned;
    placed = ap (λ x. x.2) same ∙ h.placed;
  }
  after_answer-Settled (answered r) store w st s h stored same named =
      let here = named r refl in
      record {
        session = s;
        full = ap is_empty here ∙ h.full;
        stored = ap (λ k. lookup k store) here ∙ stored;
        named = ap (λ x. x.0) same ∙ h.named ∙ sym here;
        owned = ap (λ x. x.1) same ∙ h.owned;
        placed = ap (λ x. x.2) same ∙ h.placed;
      }

  talk-Settled :
      (input : String) (st : Repl World)
      → Settled st
      → Settled (talk sv cfg terminal bad_result input st).1
  unfolding talk
  talk-Settled input st h =
      let req : ChatRequest = record {
        session_id = some st.current_session_id;
        user_id = user_id;
        message = input;
      } in
      let done = chat sv cfg req st.store st.world in
      let known = get_or_create-known sv cfg req st.store st.world h.session h.full h.stored in
      let (s, stored, same) = chat-identity sv cfg req st.store st.world in
      let here = ap (λ x. x.session_id) known.0 ∙ h.named in
      after_answer-Settled done.0 done.1 done.2 st s h
        (ap (λ k. lookup k done.1) (sym here) ∙ stored) (same ∙ ap identity known.0)
        (λ r e. (chat-Answered sv cfg req st.store st.world r e).started ∙ here)

  run_command-Settled :
      (cmd : Command) (input : String) (st : Repl World)
      → is_empty (uuid st.world).0 ≡ false
      → Settled st
      → Settled (run_command sv cfg terminal bad_result cmd input st).2
  unfolding run_command
  run_command-Settled quit input st draws h = h
  run_command-Settled help input st draws h = h
  run_command-Settled workdir input st draws h = workdir_command-Settled input st h
  run_command-Settled new input st draws h = new_command-Settled st draws
  run_command-Settled sessions input st draws h = h
  run_command-Settled history input st draws h = h
  run_command-Settled clear input st draws h = h
  run_command-Settled (unknown cmd) input st draws h = h

  command-Settled :
      (input : String) (st : Repl World)
      → is_empty (uuid st.world).0 ≡ false
      → Settled st
      → Settled (command sv cfg terminal bad_result input st).2
  unfolding command
  command-Settled input st draws h = run_command-Settled _ input st draws h

  -- Where drawn ids are not empty, every line leaves the command line in a session that is there under its
  -- id, belongs to its user and works in the folder that the command line shows: commands, answers and
  -- failures of the model alike.
  pub turn-Settled :
      ((w : World) → is_empty (uuid w).0 ≡ false)
      → (i : Input) (st : Repl World) → Settled st
      → Settled (turn sv cfg terminal bad_result i st).2
  unfolding turn
  turn-Settled draws interrupted st h = h
  turn-Settled draws (line raw) st h = elim (Bool-cases (is_empty (strip raw))) [
    | inl e ↦ rw e h
    | inr e ↦ elim (Bool-cases (starts_with (strip raw) "/")) [
      | inl f ↦ rw (e, f) (command-Settled (strip raw) st (draws st.world) h)
      | inr f ↦ rw (e, f) (talk-Settled (strip raw) st h)
    ]
  ]
