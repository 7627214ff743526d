-- ===== src/Agent/Chat.antt =====
-- `chat` on the store of sessions: which session it talks in, and what it leaves there.
use yellowbullv.Shared.{
  ℕ, ◌≤◌, ◌≡◌, ap, ◌∙◌, String, Option, none, some, Bool, true, false, arith, List, [], ◌∷◌, ◌++◌,
  append_assoc, str_eq, str_eq_iff, if◌then◌else◌, is_empty, or_empty, ◌⊎◌,
}
use yellowbullv.Dict.{Dict, lookup, insert}
use yellowbullv.Dict.Laws.{lookup-insert}
use yellowbullv.Session.{user, Message, Session}
use yellowbullv.Agent.{Services, AgentConfig, ChatRequest, Answer, say, rounds, get_or_create, chat}
use yellowbullv.Agent.Transcript.{Script, is_answered, say_lem}
use yellowbullv.Agent.Rounds.{rounds_lem, say_keeps}

if_eq : (a b : String) (x y : Option Session) → a ≡ b → (if str_eq a b then x else y) ≡ x
if_eq a b x y e = ground (arith, str_eq_iff a b)

if_ne :
    (a b j : String) (x y : Option Session)
    → a ≡ b
    → str_eq b j ≡ false
    → (if str_eq a j then x else y) ≡ y
if_ne a b j x y e h = ground (arith, str_eq_iff a j, str_eq_iff b j)

module _ (sv : Services) (cfg : AgentConfig) (req : ChatRequest) (store : Dict Session)
    (w : sv.World) where
  abbrev opened : Session × Dict Session × sv.World
  opened = get_or_create sv cfg req store w

  abbrev start : Session
  start = opened.0

  -- The conversation that a call of `chat` leaves in the store.
  pub record Chatted (done : Bool) (store' : Dict Session) : Type 0 where
    pub finish : Session
    pub question : Message
    pub new : List Message
    pub n : ℕ
    pub within : n ≤ cfg.max_chain_depth
    pub asked : (question.role ≡ user) × (question.content ≡ some req.message)
    pub messages : finish.messages ≡ start.messages ++ question ∷ new
    pub script : Script done n new
    pub stored : lookup start.session_id store' ≡ some finish
    pub others :
        (j : String) → str_eq start.session_id j ≡ false → lookup j store' ≡ lookup j opened.1

  abbrev said : Session × sv.World
  said = say sv cfg user (some req.message) none none start opened.2

  abbrev finished : Answer × Session × sv.World
  finished = rounds sv cfg cfg.max_chain_depth [] said.0 said.1

  -- `chat` keeps what the session held and adds the user's message and a script: at most
  -- `max_chain_depth` complete tool rounds, in each of which every call is answered, in order, by a
  -- tool message with its id, and then the end. Where `chat` answers, the end is one assistant message
  -- without calls. Where an exception leaves it, the end is empty, or it is one assistant message with
  -- the calls of the batch that failed, which no tool message answers. The session stands in the store
  -- under its id, and no other entry is touched.
  pub chat_lem : Chatted (is_answered (chat sv cfg req store w).0) (chat sv cfg req store w).1
  unfolding chat
  chat_lem =
      let t = rounds_lem sv cfg cfg.max_chain_depth [] said.0 said.1 in
      let q = say_lem sv cfg user (some req.message) none none start opened.2 in
      let same =
        t.same_id ∙ (say_keeps sv cfg user (some req.message) none none start opened.2).1 in
      record {
        finish = finished.1;
        question = q.m;
        new = t.new;
        n = t.n;
        within = t.within;
        asked = (q.role_same, q.content_same);
        messages =
            t.appended
            ∙ ap (λ x. x ++ t.new) q.appended
            ∙ append_assoc start.messages (q.m ∷ []) t.new;
        script = t.script;
        stored =
            lookup-insert finished.1.session_id start.session_id finished.1 opened.1
            ∙ if_eq _ _ _ _ same;
        others = λ j h.
            lookup-insert finished.1.session_id j finished.1 opened.1 ∙ if_ne _ _ j _ _ same h;
      }

  -- `chat` goes on in the session that the request names, if its id is not empty and there is a
  -- session under it, with the store as it was.
  pub get_or_create-known :
      (s : Session)
      → is_empty (or_empty req.session_id) ≡ false
      → lookup (or_empty req.session_id) store ≡ some s
      → (start ≡ s) × (opened.1 ≡ store)
  unfolding get_or_create
  get_or_create-known s e f = ground arith

  -- Where the request names no session, the empty id, or a session that is not there, `chat` opens a
  -- new session of the request's user, which holds no message and is stored under its own id.
  pub get_or_create-new :
      (is_empty (or_empty req.session_id) ≡ true) ⊎ (lookup (or_empty req.session_id) store ≡ none)
      → (start.user_id ≡ req.user_id)
        × (start.messages ≡ [])
        × (opened.1 ≡ insert start.session_id start store)
  unfolding get_or_create
  get_or_create-new h = ground arith
