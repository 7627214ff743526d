-- ===== src/Server/Socket/Continuity.antt =====
-- The session of a connection.
use mathlib.Core.Path.{subst}
use yellowbullv.Shared.{
  String, ◌≡◌, refl, sym, ap, ◌∙◌, Option, none, some, or_empty, Bool, true, false, List, [], ◌∷◌,
  ◌++◌, is_empty, is_nonempty, All, All-append, Bool-cases, ◌⊎◌, inl, inr,
}
use yellowbullv.Dict.{Dict, lookup}
use yellowbullv.Session.{Session}
use yellowbullv.Agent.{
  Services, AgentConfig, ChatRequest, ChatResponse, Answer, answered, failed, get_or_create, chat,
}
use yellowbullv.Agent.Chat.{get_or_create-known}
use yellowbullv.Agent.Answers.{chat-Answered}
use yellowbullv.Server.Socket.{
  Incoming, elsewhere, received, disconnected, invalid, Frame, content_frame, Status, waiting,
  closed, crashed, Connection, known_user, frames_of, after_chat, request_of, ws_step, ws_run,
  connected,
}

-- A frame with an answer names this session.
abbrev pub InSession : String → Frame → Type 0
InSession sid (content_frame content session_id) = session_id ≡ sid
InSession sid _ = Unit

frames_InSession : (r : ChatResponse) → All (InSession r.session_id) (frames_of r)
unfolding frames_of
frames_InSession r = elim (Bool-cases (is_nonempty r.tool_results)) [
  | inl e ↦ rw e (refl, (tt, (tt, tt)))
  | inr e ↦ rw e (refl, (tt, tt))
]

-- The others take away no session; they may change those that are there, and add new ones.
abbrev pub TakesNone : Incoming → Type 0
TakesNone (elsewhere change) =
    (sid : String) (store : Dict Session) (s : Session)
    → lookup sid store ≡ some s
    → (s' : Session) × (lookup sid (change store) ≡ some s') × (s'.session_id ≡ s.session_id)
TakesNone _ = Unit

module _ (sv : Services) (cfg : AgentConfig) where
  open sv use {World}

  -- The connection talks in a session that is there under its id.
  record Bound (sid : String) (c : Connection World) : Type 0 where
    named : c.session_id ≡ some sid
    full : is_empty sid ≡ false
    session : Session
    stored : lookup sid c.store ≡ some session
    same : session.session_id ≡ sid

  -- What a round comes to: its answers name the session, and the connection is bound to it as long as it
  -- lasts.
  abbrev Stays : String → List Frame × Status × Connection World → Type 0
  Stays sid (frames, waiting, c) = All (InSession sid) frames × Bound sid c
  Stays sid (frames, closed, c) = All (InSession sid) frames
  Stays sid (frames, crashed e, c) = All (InSession sid) frames

  after_Stays :
      (sid user : String) (answer : Answer) (store : Dict Session) (w : World)
      (c : Connection World)
      → is_empty sid ≡ false
      → ((r : ChatResponse)
          → answer ≡ answered r
          → (r.session_id ≡ sid)
            × ((s : Session) × (lookup sid store ≡ some s) × (s.session_id ≡ sid)))
      → Stays sid (after_chat sv cfg user answer store w c)
  unfolding after_chat
  after_Stays sid user (failed e) store w c full h = tt
  after_Stays sid user (answered r) store w c full h =
      let (named, kept) = h r refl in
      let (s, stored, same) = kept in
      (
        subst (λ k. All (InSession k) (frames_of r)) named (frames_InSession r),
        record { named = ap some named; full = full; session = s; stored = stored; same = same },
      )

  -- The session of an answer is there under the id that the answer names.
  left_there :
      (req : ChatRequest) (store : Dict Session) (w : World) (r : ChatResponse) (sid : String)
      → (chat sv cfg req store w).0 ≡ answered r
      → r.session_id ≡ sid
      → (s : Session) × (lookup sid (chat sv cfg req store w).1 ≡ some s) × (s.session_id ≡ sid)
  left_there req store w r sid e named =
      let a = chat-Answered sv cfg req store w r e in
      let store' = (chat sv cfg req store w).1 in
      (a.finish, ap (λ k. lookup k store') (sym named) ∙ a.stored, sym a.closes.named ∙ named)

  -- A request for a session that is there is answered in it.
  answered_in :
      (req : ChatRequest) (store : Dict Session) (w : World) (r : ChatResponse) (sid : String)
      (s : Session)
      → (chat sv cfg req store w).0 ≡ answered r
      → req.session_id ≡ some sid
      → is_empty sid ≡ false
      → lookup sid store ≡ some s
      → s.session_id ≡ sid
      → r.session_id ≡ sid
  answered_in req store w r sid s e asks full stored same =
      let a = chat-Answered sv cfg req store w r e in
      let id = ap or_empty asks in
      let known =
        get_or_create-known sv cfg req store w s (ap is_empty id ∙ full)
          (ap (λ k. lookup k store) id ∙ stored) in
      a.started ∙ ap (λ x. x.session_id) known.0 ∙ same

  step_Stays :
      (sid : String) (i : Incoming) (c : Connection World)
      → TakesNone i
      → Bound sid c
      → (ready : Bool) → Stays sid (ws_step sv cfg ready i c)
  unfolding ws_step
  step_Stays sid (elsewhere change) c none_taken b ready =
      let (s, stored, same) = none_taken sid c.store b.session b.stored in
      (
        tt,
        record {
          named = b.named;
          full = b.full;
          session = s;
          stored = stored;
          same = same ∙ b.same;
        },
      )
  step_Stays sid disconnected c none_taken b ready = tt
  step_Stays sid (invalid e) c none_taken b ready = tt
  step_Stays sid (received message given) c none_taken b false = (
    (tt, tt),
    record {
      named = b.named;
      full = b.full;
      session = b.session;
      stored = b.stored;
      same = b.same;
    },
  )
  step_Stays sid (received message given) c none_taken b true =
      let user = known_user c.user_id given in
      let req = request_of sv cfg c.session_id user message in
      let done = chat sv cfg req c.store c.world in
      after_Stays sid user done.0 done.1 done.2 c b.full (λ r e.
        let named =
          answered_in req c.store c.world r sid b.session e b.named b.full b.stored b.same in
        (named, left_there req c.store c.world r sid e named))

  run_Bound :
      (ready : Bool) (is : List Incoming)
      → All TakesNone is
      → (c : Connection World) (sid : String) → Bound sid c
      → All (InSession sid) (ws_run sv cfg ready is c).0
  unfolding ws_run
  run_Bound ready [] taken c sid b = tt
  run_Bound ready (i ∷ is) (first, taken) c sid b =
      go (ws_step sv cfg ready i c) (step_Stays sid i c first b ready) (run_Bound ready is taken)
    where
      go :
          (x : List Frame × Status × Connection World)
          → Stays sid x
          → ((c : Connection World) (sid : String)
              → Bound sid c
              → All (InSession sid) (ws_run sv cfg ready is c).0)
          → All
              (InSession sid)
              (let out : List Frame × Status × Connection World = elim x.1 [
                | waiting ↦ (
                  x.0 ++ (ws_run sv cfg ready is x.2).0,
                  (ws_run sv cfg ready is x.2).1,
                  (ws_run sv cfg ready is x.2).2,
                )
                | closed ↦ (x.0, closed, x.2)
                | crashed e ↦ (x.0, crashed e, x.2)
              ] in
                out).0
      go (frames, waiting, c1) (h, b1) rest = All-append (InSession sid) frames _ h (rest c1 sid b1)
      go (frames, closed, c1) h rest = h
      go (frames, crashed e, c1) h rest = h

  -- What a round comes to on a connection without a session: it still has none and no answer was sent,
  -- or it is bound to one.
  abbrev Starts : List Frame × Status × Connection World → Type 0
  Starts (frames, waiting, c) =
      ((c.session_id ≡ none) × ((sid : String) → All (InSession sid) frames))
      ⊎ ((sid : String) × (All (InSession sid) frames × Bound sid c))
  Starts (frames, closed, c) = (sid : String) → All (InSession sid) frames
  Starts (frames, crashed e, c) = (sid : String) → All (InSession sid) frames

  after_Starts :
      (user : String) (answer : Answer) (store : Dict Session) (w : World) (c : Connection World)
      → ((r : ChatResponse)
          → answer ≡ answered r
          → (is_empty r.session_id ≡ false)
            × ((s : Session) × (lookup r.session_id store ≡ some s)
                × (s.session_id ≡ r.session_id)))
      → Starts (after_chat sv cfg user answer store w c)
  unfolding after_chat
  after_Starts user (failed e) store w c h = λ sid. tt
  after_Starts user (answered r) store w c h =
      let (full, kept) = h r refl in
      let (s, stored, same) = kept in
      inr (
        r.session_id,
        (
          frames_InSession r,
          record { named = refl; full = full; session = s; stored = stored; same = same },
        ),
      )

  -- A request without a session is served in a session of a drawn id.
  drawn_id :
      (session : Option String) (user : String) (message : Option String) (store : Dict Session)
      (w : World)
      → session ≡ none
      → (get_or_create sv cfg (request_of sv cfg session user message) store w).0.session_id
        ≡ (sv.uuid w).0
  unfolding get_or_create
  drawn_id session user message store w e = rw e refl

  module _ (draws : (w : World) → is_empty (sv.uuid w).0 ≡ false) where
    fresh_Starts :
        (i : Incoming) (ready : Bool) (c : Connection World)
        → c.session_id ≡ none
        → Starts (ws_step sv cfg ready i c)
    unfolding ws_step
    fresh_Starts (elsewhere change) ready c e = inl (e, λ sid. tt)
    fresh_Starts disconnected ready c e = λ sid. tt
    fresh_Starts (invalid z) ready c e = λ sid. tt
    fresh_Starts (received message given) false c e = inl (e, λ sid. (tt, tt))
    fresh_Starts (received message given) true c e =
        let who = known_user c.user_id given in
        let req = request_of sv cfg c.session_id who message in
        let done = chat sv cfg req c.store c.world in
        after_Starts who done.0 done.1 done.2 c (λ r h.
          let a = chat-Answered sv cfg req c.store c.world r h in
          let drawn = drawn_id c.session_id who message c.store c.world e in
          let full = ap is_empty (a.started ∙ drawn) ∙ draws c.world in
          (full, left_there req c.store c.world r r.session_id h refl))

    run_Fresh :
        (ready : Bool) (is : List Incoming)
        → All TakesNone is
        → (c : Connection World) → c.session_id ≡ none
        → (sid : String) × All (InSession sid) (ws_run sv cfg ready is c).0
    unfolding ws_run
    run_Fresh ready [] taken c e = ("", tt)
    run_Fresh ready (i ∷ is) (first, taken) c e =
        go (ws_step sv cfg ready i c) (fresh_Starts i ready c e) (run_Fresh ready is taken)
      where
        go :
            (x : List Frame × Status × Connection World)
            → Starts x
            → ((c : Connection World)
                → c.session_id ≡ none
                → (sid : String) × All (InSession sid) (ws_run sv cfg ready is c).0)
            → (sid : String) × All
                (InSession sid)
                (let out : List Frame × Status × Connection World = elim x.1 [
                  | waiting ↦ (
                    x.0 ++ (ws_run sv cfg ready is x.2).0,
                    (ws_run sv cfg ready is x.2).1,
                    (ws_run sv cfg ready is x.2).2,
                  )
                  | closed ↦ (x.0, closed, x.2)
                  | crashed e ↦ (x.0, crashed e, x.2)
                ] in
                  out).0
        go (frames, waiting, c1) (inl (e1, h)) rest =
            let (sid, more) = rest c1 e1 in (sid, All-append (InSession sid) frames _ (h sid) more)
        go (frames, waiting, c1) (inr (sid, (h, b))) rest =
            (sid, All-append (InSession sid) frames _ h (run_Bound ready is taken c1 sid b))
        go (frames, closed, c1) h rest = ("", h "")
        go (frames, crashed e, c1) h rest = ("", h "")

-- Where drawn ids are not empty, and where other connections and requests take no session away (what they
-- do stands between two messages, and each message is answered without a break): all the answers that one
-- connection is sent, from its start on and whatever the client sends, name one and the same session.
pub ws_run-InSession :
    (sv : Services) (cfg : AgentConfig)
    → ((w : sv.World) → is_empty (sv.uuid w).0 ≡ false)
    → (ready : Bool) (is : List Incoming) → All TakesNone is
    → (store : Dict Session) (w : sv.World)
    → (sid : String) × All (InSession sid) (ws_run sv cfg ready is (connected sv cfg store w)).0
ws_run-InSession sv cfg draws ready is taken store w =
    run_Fresh sv cfg draws ready is taken (connected sv cfg store w) refl
