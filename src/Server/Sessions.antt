-- ===== src/Server/Sessions.antt =====
-- The endpoints on sessions, against the session manager and the agent.
use mathlib.Core.Path.{subst}
use yellowbullv.Shared.{
  ℕ, ◌≤◌, String, ◌≡◌, refl, sym, ap, ◌∙◌, ◌↔◌, Option, none, some, or_empty, true, false, List, [],
  ◌∷◌, ◌++◌, map, if◌then◌else◌, str_eq, is_some, arith,
}
use yellowbullv.Dict.{Dict, lookup}
use yellowbullv.Dict.Laws.{IsDistinct, lookup-remove}
use yellowbullv.Session.{Message, Session}
use yellowbullv.Sessions.{list_sessions, get, delete_session}
use yellowbullv.Sessions.Memory.{memory, select, wanted, list_sessions-select}
use yellowbullv.Agent.{
  Services, AgentConfig, ChatRequest, ChatResponse, Answer, answered, failed, get_or_create, chat,
}
use yellowbullv.Agent.Transcript.{Script, is_answered}
use yellowbullv.Agent.Chat.{Chatted, chat_lem}
use yellowbullv.Agent.Answers.{chat-Answered}
use yellowbullv.Server.{
  body, http_exception, History, HistoryEntry, entry_of, role_value, history_endpoint, info_of,
  infos, list_endpoint, delete_endpoint, chat_endpoint, chat_body,
}

infos-select :
    (show_time : ℕ → String) (user_id : Option String) (store : Dict Session)
    → infos show_time (or_empty user_id) store
      ≡ map (λ e. info_of show_time e.1) (select (wanted user_id) store)
unfolding infos
infos-select show_time none [] = refl
infos-select show_time (some u) [] = refl
infos-select show_time none ((k, s) ∷ store) =
    ap (◌∷◌ (info_of show_time s)) (infos-select show_time none store)
infos-select show_time (some u) ((k, s) ∷ store) =
    ground (arith, infos-select show_time (some u) store)

-- On a store in which no id stands twice the listing endpoint answers the information of the sessions
-- that `list_sessions` of the session manager gives for the same user, in the same order.
pub list_endpoint-list_sessions :
    (show_time : ℕ → String) (user_id : Option String) (store : Dict Session)
    → IsDistinct store
    → list_endpoint show_time true user_id store
      ≡ body (map (λ e. info_of show_time e.1) (list_sessions memory user_id store))
unfolding list_endpoint
list_endpoint-list_sessions show_time user_id store d = ap body (
    infos-select show_time user_id store
    ∙ ap (map (λ e. info_of show_time e.1)) (sym (list_sessions-select user_id store d)))

-- Deleting a session succeeds, with an empty answer, exactly when there is a session with the id, and
-- ends in the error 404 otherwise; after it the history of this session is not found and every other
-- history is what it was.
pub history-delete_endpoint :
    (show_time : ℕ → String) (id other : String) (store : Dict Session)
    → let (r, store') = delete_endpoint true id store in
      ((r ≡ body tt) ↔ (is_some (lookup id store) ≡ true))
      × ((r ≡ http_exception 404 "Session not found") ↔ (is_some (lookup id store) ≡ false))
      × (history_endpoint show_time true other store' ≡ (
          if str_eq id other
          then http_exception 404 "Session not found"
          else history_endpoint show_time true other store))
unfolding delete_endpoint delete_session history_endpoint get
history-delete_endpoint show_time id other store = (
  (ground arith, ground arith),
  (ground arith, ground arith),
  ground (arith, lookup-remove id other store),
)

map-append : {A B : Type 0} (f : A → B) (xs ys : List A) → map f (xs ++ ys) ≡ map f xs ++ map f ys
map-append f [] ys = refl
map-append f (x ∷ xs) ys = ap (◌∷◌ (f x)) (map-append f xs ys)

session_inj : (s t : Session) → some s ≡ some t → s ≡ t
session_inj s t h = ground arith

response_inj : (r q : ChatResponse) → body r ≡ body q → r ≡ q
response_inj r q h = ground arith

body_of :
    (a : Answer) (r : ChatResponse)
    → chat_body a ≡ body r
    → (x : ChatResponse) × (a ≡ answered x) × (record x { tool_results = [] } ≡ r)
unfolding chat_body
body_of (answered x) r h = (x, refl, response_inj _ r h)
body_of (failed e) r h = absurd (ground arith)

history_found :
    (show_time : ℕ → String) (id : String) (store : Dict Session) (s : Session)
    → lookup id store ≡ some s
    → history_endpoint show_time true id store
      ≡ body (record { session_id = s.session_id; messages = map (entry_of show_time) s.messages })
unfolding history_endpoint get
history_found show_time id store s h = ground arith

module _ (sv : Services) (cfg : AgentConfig) (show_time : ℕ → String) (req : ChatRequest)
    (store : Dict Session) (w : sv.World) where
  abbrev began : Session
  began = (get_or_create sv cfg req store w).0

  -- The history of the session of an answer: what the session held before, the user's message and what
  -- came of it; its last entry is the assistant's, with the content that was answered.
  pub record Recorded (r : ChatResponse) (h : History) : Type 0 where
    pub question : Message
    pub new : List Message
    pub n : ℕ
    pub before : List HistoryEntry
    pub last : HistoryEntry
    pub id : h.session_id ≡ r.session_id
    pub asked : (entry_of show_time question).role ≡ "user"
    pub said : question.content ≡ some req.message
    pub grown : h.messages ≡ map (entry_of show_time) (began.messages ++ question ∷ new)
    pub within : n ≤ cfg.max_chain_depth
    pub script : Script true n new
    pub ended : h.messages ≡ before ++ last ∷ []
    pub role : last.role ≡ "assistant"
    pub content : r.content ≡ or_empty last.content

  -- Where `POST /api/chat` answers, the history endpoint finds the session that the answer names.
  pub chat_endpoint-history :
      (r : ChatResponse)
      → (chat_endpoint sv cfg req store w).0 ≡ body r
      → (h : History) × (history_endpoint show_time true r.session_id
            (chat_endpoint sv cfg req store w).1
          ≡ body h)
        × Recorded r h
  unfolding chat_endpoint chat_body history_endpoint get
  chat_endpoint-history r e =
      let store' = (chat sv cfg req store w).1 in
      let (x, answer, same) = body_of (chat sv cfg req store w).0 r e in
      let a = chat-Answered sv cfg req store w x answer in
      let c : Chatted sv cfg req store w true store' =
        subst (λ b. Chatted sv cfg req store w b store') (ap is_answered answer)
          (chat_lem sv cfg req store w) in
      let one =
        session_inj c.finish a.finish
          (sym c.stored ∙ ap (λ k. lookup k store') (sym a.started) ∙ a.stored) in
      let found = ap (λ k. lookup k store') (sym (ap (λ q. q.session_id) same)) ∙ a.stored in
      let h : History = record {
        session_id = a.finish.session_id;
        messages = map (entry_of show_time) a.finish.messages;
      } in
      (
        h,
        history_found show_time r.session_id store' a.finish found,
        record {
          question = c.question;
          new = c.new;
          n = c.n;
          before = map (entry_of show_time) a.closes.before;
          last = entry_of show_time a.closes.last;
          id = sym a.closes.named ∙ ap (λ q. q.session_id) same;
          asked = unfold entry_of in ap role_value c.asked.0;
          said = c.asked.1;
          grown =
              ap (λ q. map (entry_of show_time) q.messages) (sym one)
              ∙ ap (map (entry_of show_time)) c.messages;
          within = c.within;
          script = c.script;
          ended =
              ap (map (entry_of show_time)) a.closes.messages
              ∙ map-append (entry_of show_time) a.closes.before (a.closes.last ∷ []);
          role = unfold entry_of in ap role_value a.closes.role;
          content = unfold entry_of in ap (λ q. q.content) (sym same) ∙ a.closes.content;
        },
      )
