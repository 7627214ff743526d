-- ===== src/Agent/Answers.antt =====
-- What `chat` answers, against the session that it leaves in the store.
use mathlib.Core.Path.{subst}
use yellowbullv.Shared.{
  ℕ, zero, suc, ◌≡◌, refl, sym, ap, ◌∙◌, String, Option, none, some, or_empty, true, false, arith,
  List, [], ◌∷◌, ◌++◌, is_nonempty, Bool-cases, inl, inr,
}
use yellowbullv.Dict.{Dict, lookup, insert}
use yellowbullv.Dict.Laws.{lookup-insert_self}
use yellowbullv.Session.{user, assistant, Message, Session}
use yellowbullv.Llm.{LlmResponse}
use yellowbullv.Executor.{ExecutionResult}
use yellowbullv.Executor.Batch.{aborted}
use yellowbullv.Agent.{
  Services, AgentConfig, ChatRequest, ChatResponse, Answer, answered, failed, replied, llm_error,
  fallback, say, response, bump_depth, rounds, get_or_create, chat,
}
use yellowbullv.Agent.Transcript.{say_lem, asked, said_final, ran, replied_to, rounds-round}
use yellowbullv.Agent.Rounds.{say_keeps, Reply-cases, Batch-cases, rounds_lem}

-- The session ends in an assistant message without calls whose content is the response's, and the
-- response names the session.
pub record Closes (r : ChatResponse) (s : Session) : Type 0 where
  pub before : List Message
  pub last : Message
  pub named : r.session_id ≡ s.session_id
  pub messages : s.messages ≡ before ++ last ∷ []
  pub role : last.role ≡ assistant
  pub no_calls : last.tool_calls ≡ none
  pub content : r.content ≡ or_empty last.content
  pub no_results : r.tool_results ≡ []

-- A failure says nothing.
abbrev pub ClosesAny : Answer → Session → Type 0
ClosesAny (answered r) s = Closes r s
ClosesAny (failed e) s = Unit

module _ (sv : Services) (cfg : AgentConfig) where
  open sv use {World}

  said_Closes :
      (content : Option String) (r : ChatResponse) (s : Session) (w : World)
      → r.session_id ≡ s.session_id
      → r.content ≡ or_empty content
      → r.tool_results ≡ []
      → Closes r (say sv cfg assistant content none none s w).0
  said_Closes content r s w named same no_results =
      let said = say_lem sv cfg assistant content none none s w in
      record {
        before = s.messages;
        last = said.m;
        named = named ∙ sym (say_keeps sv cfg assistant content none none s w).1;
        messages = said.appended;
        role = said.role_same;
        no_calls = said.calls_same;
        content = same ∙ ap or_empty (sym said.content_same);
        no_results = no_results;
      }

  module _ (left : ℕ) (log : List ExecutionResult) (s : Session) (w : World) where
    rounds-failed :
        (e : String)
        → (asked sv cfg left log s w).0 ≡ llm_error e
        → (rounds sv cfg (suc left) log s w).0 ≡ failed e
    unfolding rounds
    rounds-failed e h = ground arith

    rounds-stopped :
        (r : LlmResponse) (z : String)
        → (asked sv cfg left log s w).0 ≡ replied r
        → is_nonempty r.tool_calls ≡ true
        → (ran sv cfg left log s w r).0 ≡ aborted z
        → (rounds sv cfg (suc left) log s w).0 ≡ failed z
    unfolding rounds
    rounds-stopped r z h f g = ground arith

    rounds-answered :
        (r : LlmResponse)
        → (asked sv cfg left log s w).0 ≡ replied r
        → is_nonempty r.tool_calls ≡ false
        → rounds sv cfg (suc left) log s w ≡ (
          answered (response (or_empty r.content) s.session_id r.usage),
          (said_final sv cfg left log s w r).0,
          (said_final sv cfg left log s w r).1,
        )
    unfolding rounds
    rounds-answered r h f = ground arith

    failed-Closes : (a : Answer) (e : String) (s' : Session) → a ≡ failed e → ClosesAny a s'
    failed-Closes (failed e) z s' h = tt
    failed-Closes (answered r) z s' h = absurd (ground arith)

    final-Closes :
        (r : LlmResponse)
        → (asked sv cfg left log s w).0 ≡ replied r
        → is_nonempty r.tool_calls ≡ false
        → ClosesAny (rounds sv cfg (suc left) log s w).0 (rounds sv cfg (suc left) log s w).1
    final-Closes r h f = rw (rounds-answered r h f) (
        said_Closes r.content (response (or_empty r.content) s.session_id r.usage) (bump_depth s)
          (asked sv cfg left log s w).1 refl refl refl)

  pub rounds-Closes :
      (left : ℕ) (log : List ExecutionResult) (s : Session) (w : World)
      → ClosesAny (rounds sv cfg left log s w).0 (rounds sv cfg left log s w).1
  rounds-Closes zero log s w =
      unfold rounds in
      said_Closes (some (fallback log)) (response (fallback log) s.session_id none) s w refl refl
        refl
  rounds-Closes (suc left) log s w =
      let next = λ (r : LlmResponse) (results : List ExecutionResult).
        rounds-Closes left (log ++ results) (replied_to sv cfg left log s w r results).0
          (replied_to sv cfg left log s w r results).1 in
      elim (Reply-cases sv cfg (asked sv cfg left log s w).0) [
        | inr (e, h) ↦ failed-Closes left log s w _ e _ (rounds-failed left log s w e h)
        | inl (r, h) ↦ elim (Bool-cases (is_nonempty r.tool_calls)) [
          | inr f ↦ final-Closes left log s w r h f
          | inl f ↦ elim (Batch-cases sv cfg (ran sv cfg left log s w r).0) [
            | inr (z, g) ↦ failed-Closes left log s w _ z _ (rounds-stopped left log s w r z h f g)
            | inl (results, g) ↦
                rw (rounds-round sv cfg left log s w r results h f g) (next r results)
          ]
        ]
      ]

answered_inj : (r q : ChatResponse) → answered r ≡ answered q → r ≡ q
answered_inj r q h = ground arith

module _ (sv : Services) (cfg : AgentConfig) (req : ChatRequest) (store : Dict Session)
    (w : sv.World) where
  -- The session in which `chat` answered.
  pub record Answered (r : ChatResponse) (store' : Dict Session) : Type 0 where
    pub finish : Session
    pub closes : Closes r finish
    pub stored : lookup r.session_id store' ≡ some finish
    pub started : r.session_id ≡ (get_or_create sv cfg req store w).0.session_id

  answered-Closes :
      (a : Answer) (r : ChatResponse) (s : Session) → a ≡ answered r → ClosesAny a s → Closes r s
  answered-Closes (answered x) r s e h = subst (λ q. Closes q s) (answered_inj x r e) h
  answered-Closes (failed z) r s e h = absurd (ground arith)

  -- An answer of `chat` is the content of the last message of a session that stands in the store under
  -- the id which the response names, the one that the request was served in.
  pub chat-Answered :
      (r : ChatResponse)
      → (chat sv cfg req store w).0 ≡ answered r
      → Answered r (chat sv cfg req store w).1
  unfolding chat
  chat-Answered r e =
      let opened = get_or_create sv cfg req store w in
      let said = say sv cfg user (some req.message) none none opened.0 opened.2 in
      let done = rounds sv cfg cfg.max_chain_depth [] said.0 said.1 in
      let closes =
        answered-Closes done.0 r done.1 e
          (rounds-Closes sv cfg cfg.max_chain_depth [] said.0 said.1) in
      let told = rounds_lem sv cfg cfg.max_chain_depth [] said.0 said.1 in
      let kept = (say_keeps sv cfg user (some req.message) none none opened.0 opened.2).1 in
      record {
        finish = done.1;
        closes = closes;
        stored =
            ap (λ k. lookup k (insert done.1.session_id done.1 opened.1)) closes.named
            ∙ lookup-insert_self done.1.session_id done.1 opened.1;
        started = closes.named ∙ told.same_id ∙ kept;
      }
