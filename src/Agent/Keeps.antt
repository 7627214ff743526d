-- ===== src/Agent/Keeps.antt =====
-- The parts of a session that a conversation does not touch.
use yellowbullv.Shared.{
  ℕ, zero, suc, ◌≡◌, refl, sym, ap, ◌∙◌, String, Option, none, some, List, [], ◌∷◌, ◌++◌,
  is_nonempty, get_elem?, Bool-cases, inl, inr,
}
use yellowbullv.Dict.{Dict, lookup, insert}
use yellowbullv.Dict.Laws.{lookup-insert_self}
use yellowbullv.Session.{
  MessageRole, user, assistant, tool, Message, ToolCall, Session, add_message,
}
use yellowbullv.Llm.{LlmResponse}
use yellowbullv.Executor.{ExecutionResult}
use yellowbullv.Agent.{
  Services, AgentConfig, ChatRequest, fallback, tool_content, bump_depth, say, add_results, rounds,
  get_or_create, chat,
}
use yellowbullv.Agent.Transcript.{
  asked, said_calls, ran, replied_to, rounds-error, rounds-final, rounds-aborted, rounds-round,
}
use yellowbullv.Agent.Rounds.{Reply-cases, Batch-cases}

-- `f` of a session does not change when a message is added or the depth is counted.
pub record IsApart {A : Type 0} (f : Session → A) : Type 0 where
  pub added : (m : Message) (now : ℕ) (s : Session) → f (add_message m now s) ≡ f s
  pub bumped : (s : Session) → f (bump_depth s) ≡ f s

module _ (sv : Services) (cfg : AgentConfig) {A : Type 0} (f : Session → A)
    (apart : IsApart f) where
  open sv use {World}

  say_apart :
      (role : MessageRole) (content : Option String) (calls : Option (List ToolCall))
      (id : Option String) (s : Session) (w : World)
      → f (say sv cfg role content calls id s w).0 ≡ f s
  unfolding say
  say_apart role content calls id s w = apart.added _ _ s

  results_apart :
      (idx : ℕ) (cs : List ToolCall) (results : List ExecutionResult) (s : Session) (w : World)
      → f (add_results sv cfg idx cs results s w).0 ≡ f s
  unfolding add_results
  results_apart idx [] results s w = refl
  results_apart idx (c ∷ cs) results s w =
      results_apart (suc idx) cs results _ _
      ∙ say_apart tool (some (tool_content (get_elem? results idx))) none (some c.id) s w

  -- The loop of `chat` keeps it.
  pub rounds_apart :
      (left : ℕ) (log : List ExecutionResult) (s : Session) (w : World)
      → f (rounds sv cfg left log s w).1 ≡ f s
  rounds_apart zero log s w =
      unfold rounds in say_apart assistant (some (fallback log)) none none s w
  rounds_apart (suc left) log s w =
      let s1 = bump_depth s in
      let w1 = (asked sv cfg left log s w).1 in
      let next = λ (r : LlmResponse) (results : List ExecutionResult).
        rounds_apart left (log ++ results) (replied_to sv cfg left log s w r results).0
          (replied_to sv cfg left log s w r results).1 in
      elim (Reply-cases sv cfg (asked sv cfg left log s w).0) [
        | inr (e, h) ↦ ap f (rounds-error sv cfg left log s w e h).0 ∙ apart.bumped s
        | inl (r, h) ↦ elim (Bool-cases (is_nonempty r.tool_calls)) [
          | inr g ↦
              ap f (rounds-final sv cfg left log s w r h g).0
              ∙ say_apart assistant r.content none none s1 w1
              ∙ apart.bumped s
          | inl g ↦ elim (Batch-cases sv cfg (ran sv cfg left log s w r).0) [
            | inr (z, b) ↦
                ap f (rounds-aborted sv cfg left log s w r z h g b).0
                ∙ say_apart assistant r.content (some r.tool_calls) none s1 w1
                ∙ apart.bumped s
            | inl (results, b) ↦
                ap (λ x. f x.1) (rounds-round sv cfg left log s w r results h g b)
                ∙ next r results
                ∙ results_apart 0 r.tool_calls results (said_calls sv cfg left log s w r).0
                    (ran sv cfg left log s w r).1
                ∙ say_apart assistant r.content (some r.tool_calls) none s1 w1
                ∙ apart.bumped s
          ]
        ]
      ]

-- What a session is besides its messages, its state and its last change.
abbrev pub identity : Session → String × String × Option String × ℕ
identity s = (s.session_id, s.user_id, s.work_dir, s.created_at)

identity-IsApart : IsApart identity
identity-IsApart = record { added = λ m now s. unfold add_message in refl; bumped = λ s. refl }

-- Whether it answers or fails, `chat` leaves under the id of the session that serves the request a
-- session with its id, its user, its folder and its time of creation.
pub chat-identity :
    (sv : Services) (cfg : AgentConfig) (req : ChatRequest) (store : Dict Session) (w : sv.World)
    → let s = (get_or_create sv cfg req store w).0 in
      (s' : Session) × (lookup s.session_id (chat sv cfg req store w).1 ≡ some s')
      × (identity s' ≡ identity s)
unfolding chat
chat-identity sv cfg req store w =
    let opened = get_or_create sv cfg req store w in
    let said = say sv cfg user (some req.message) none none opened.0 opened.2 in
    let done = rounds sv cfg cfg.max_chain_depth [] said.0 said.1 in
    let same =
      rounds_apart sv cfg identity identity-IsApart cfg.max_chain_depth [] said.0 said.1
      ∙ say_apart sv cfg identity identity-IsApart user (some req.message) none none opened.0
          opened.2 in
    (
      done.1,
      ap (λ k. lookup k (insert done.1.session_id done.1 opened.1)) (sym (ap (λ x. x.0) same))
          ∙ lookup-insert_self done.1.session_id done.1 opened.1,
      same,
    )
