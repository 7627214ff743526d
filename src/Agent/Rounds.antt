-- ===== src/Agent/Rounds.antt =====
-- core/agent.py: the loop of `chat`, and what it writes into a session.
use yellowbullv.Shared.{
  ℕ, zero, suc, ◌+◌, ◌≤◌, ◌≡◌, refl, sym, ap, ◌∙◌, String, Option, none, some, Bool, true, false,
  ◌⊎◌, inl, inr, arith, List, [], ◌∷◌, ◌++◌, append_assoc, append-nil, is_nonempty, get_elem?,
  Bool-cases,
}
use yellowbullv.Session.{MessageRole, assistant, tool, Message, ToolCall, Session, add_message}
use yellowbullv.Llm.{LlmResponse}
use yellowbullv.Executor.{ExecutionResult}
use yellowbullv.Executor.Batch.{Batch, completed, aborted}
use yellowbullv.Agent.{
  Services, AgentConfig, Reply, replied, llm_error, tool_content, bump_depth, fallback, say,
  add_results, rounds,
}
use yellowbullv.Agent.Transcript.{
  Script, answer, no_reply, no_results, round, is_answered, say_lem, add_results_lem, asked,
  said_calls, ran, replied_to, rounds-error, rounds-final, rounds-aborted, rounds-round,
}

module _ (sv : Services) (cfg : AgentConfig) where
  open sv use {World}

  -- What the loop did to a session: the new messages, after the old ones, with at most `left` tool
  -- rounds among them, the depth counted, and the session's identity.
  pub record Told (left : ℕ) (s : Session) (done : Bool) (s' : Session) : Type 0 where
    pub new : List Message
    pub n : ℕ
    pub within : n ≤ left
    pub appended : s'.messages ≡ s.messages ++ new
    pub script : Script done n new
    pub deepened : s'.state.chain_depth ≤ s.state.chain_depth + left
    pub same_id : s'.session_id ≡ s.session_id

  pub say_keeps :
      (role : MessageRole) (content : Option String) (calls : Option (List ToolCall))
      (id : Option String) (s : Session) (w : World)
      → ((say sv cfg role content calls id s w).0.state.chain_depth ≡ s.state.chain_depth)
        × ((say sv cfg role content calls id s w).0.session_id ≡ s.session_id)
  unfolding say add_message
  say_keeps role content calls id s w = (refl, refl)

  pub add_results_keeps :
      (idx : ℕ) (cs : List ToolCall) (results : List ExecutionResult) (s : Session) (w : World)
      → ((add_results sv cfg idx cs results s w).0.state.chain_depth ≡ s.state.chain_depth)
        × ((add_results sv cfg idx cs results s w).0.session_id ≡ s.session_id)
  unfolding add_results
  add_results_keeps idx [] results s w = (refl, refl)
  add_results_keeps idx (c ∷ cs) results s w =
      let step =
        say sv cfg tool (some (tool_content (get_elem? results idx))) none (some c.id) s w in
      let (a, b) = add_results_keeps (suc idx) cs results step.0 step.1 in
      let (x, y) =
        say_keeps tool (some (tool_content (get_elem? results idx))) none (some c.id) s w in
      (a ∙ x, b ∙ y)

  pub Reply-cases :
      (r : Reply) → ((x : LlmResponse) × (r ≡ replied x)) ⊎ ((e : String) × (r ≡ llm_error e))
  Reply-cases (replied x) = inl (x, refl)
  Reply-cases (llm_error e) = inr (e, refl)

  pub Batch-cases :
      (b : Batch)
      → ((rs : List ExecutionResult) × (b ≡ completed rs)) ⊎ ((e : String) × (b ≡ aborted e))
  Batch-cases (completed rs) = inl (rs, refl)
  Batch-cases (aborted e) = inr (e, refl)

  module _ (left : ℕ) (log : List ExecutionResult) (s : Session) (w : World) where
    Told-error :
        (e : String)
        → (asked sv cfg left log s w).0 ≡ llm_error e
        → Told
            (suc left)
            s
            (is_answered (rounds sv cfg (suc left) log s w).0)
            (rounds sv cfg (suc left) log s w).1
    Told-error e h =
        let (a, b) = rounds-error sv cfg left log s w e h in
        rw (a, b)
          (record {
            new = [];
            n = 0;
            within = omega arith;
            appended = sym (append-nil s.messages);
            script = no_reply;
            deepened = omega arith;
            same_id = refl;
          })

    Told-final :
        (r : LlmResponse)
        → (asked sv cfg left log s w).0 ≡ replied r
        → is_nonempty r.tool_calls ≡ false
        → Told
            (suc left)
            s
            (is_answered (rounds sv cfg (suc left) log s w).0)
            (rounds sv cfg (suc left) log s w).1
    Told-final r h e =
        let (a, b) = rounds-final sv cfg left log s w r h e in
        let said =
          say_lem sv cfg assistant r.content none none (bump_depth s)
            (asked sv cfg left log s w).1 in
        let (x, y) =
          say_keeps assistant r.content none none (bump_depth s) (asked sv cfg left log s w).1 in
        rw (a, b)
          (record {
            new = said.m ∷ [];
            n = 0;
            within = omega arith;
            appended = said.appended;
            script = answer said.m said.role_same said.calls_same;
            deepened = omega (arith, x);
            same_id = y;
          })

    Told-aborted :
        (r : LlmResponse) (z : String)
        → (asked sv cfg left log s w).0 ≡ replied r
        → is_nonempty r.tool_calls ≡ true
        → (ran sv cfg left log s w r).0 ≡ aborted z
        → Told
            (suc left)
            s
            (is_answered (rounds sv cfg (suc left) log s w).0)
            (rounds sv cfg (suc left) log s w).1
    Told-aborted r z h e f =
        let (a, b) = rounds-aborted sv cfg left log s w r z h e f in
        let said =
          say_lem sv cfg assistant r.content (some r.tool_calls) none (bump_depth s)
            (asked sv cfg left log s w).1 in
        let (x, y) =
          say_keeps assistant r.content (some r.tool_calls) none (bump_depth s)
            (asked sv cfg left log s w).1 in
        rw (a, b)
          (record {
            new = said.m ∷ [];
            n = 0;
            within = omega arith;
            appended = said.appended;
            script = no_results said.m r.tool_calls said.role_same said.calls_same;
            deepened = omega (arith, x);
            same_id = y;
          })

    Told-round :
        (r : LlmResponse) (results : List ExecutionResult) (done : Bool) (s' : Session)
        → is_nonempty r.tool_calls ≡ true
        → Told left (replied_to sv cfg left log s w r results).0 done s'
        → Told (suc left) s done s'
    Told-round r results done s' e t =
        let s1 = bump_depth s in
        let w1 = (asked sv cfg left log s w).1 in
        let said = say_lem sv cfg assistant r.content (some r.tool_calls) none s1 w1 in
        let (x, y) = say_keeps assistant r.content (some r.tool_calls) none s1 w1 in
        let w3 = (ran sv cfg left log s w r).1 in
        let s2 = (said_calls sv cfg left log s w r).0 in
        let (ms, added, replies) = add_results_lem sv cfg 0 r.tool_calls results s2 w3 in
        let (u, v) = add_results_keeps 0 r.tool_calls results s2 w3 in
        record {
          new = said.m ∷ (ms ++ t.new);
          n = suc t.n;
          within = omega (arith, t.within);
          appended =
              t.appended
              ∙ ap (λ q. q ++ t.new) (added ∙ ap (λ q. q ++ ms) said.appended)
              ∙ append_assoc (s.messages ++ said.m ∷ []) ms t.new
              ∙ append_assoc s.messages (said.m ∷ []) (ms ++ t.new);
          script =
              round said.m r.tool_calls results ms t.new said.role_same said.calls_same e replies
                t.script;
          deepened = omega (arith, t.deepened, x, u);
          same_id = t.same_id ∙ v ∙ y;
        }

  pub rounds_lem :
      (left : ℕ) (log : List ExecutionResult) (s : Session) (w : World)
      → Told left s (is_answered (rounds sv cfg left log s w).0) (rounds sv cfg left log s w).1
  rounds_lem zero log s w =
      let said = say_lem sv cfg assistant (some (fallback log)) none none s w in
      let (x, y) = say_keeps assistant (some (fallback log)) none none s w in
      unfold rounds in
      record {
        new = said.m ∷ [];
        n = 0;
        within = omega arith;
        appended = said.appended;
        script = answer said.m said.role_same said.calls_same;
        deepened = omega (arith, x);
        same_id = y;
      }
  rounds_lem (suc left) log s w =
      let next = λ (r : LlmResponse) (results : List ExecutionResult).
        rounds_lem left (log ++ results) (replied_to sv cfg left log s w r results).0
          (replied_to sv cfg left log s w r results).1 in
      elim (Reply-cases (asked sv cfg left log s w).0) [
        | inr (e, h) ↦ Told-error left log s w e h
        | inl (r, h) ↦ elim (Bool-cases (is_nonempty r.tool_calls)) [
          | inr f ↦ Told-final left log s w r h f
          | inl f ↦ elim (Batch-cases (ran sv cfg left log s w r).0) [
            | inr (z, g) ↦ Told-aborted left log s w r z h f g
            | inl (results, g) ↦
                rw (rounds-round sv cfg left log s w r results h f g)
                  (Told-round left log s w r results _ _ f (next r results))
          ]
        ]
      ]
