-- ===== src/Agent/World.antt =====
-- What `chat` does to the world: a predicate that its services keep.
use yellowbullv.Shared.{
  ℕ, zero, suc, String, Option, none, some, Bool, true, false, List, [], ◌∷◌, ◌++◌, is_nonempty,
  or_empty, is_empty, if◌then◌else◌,
}
use yellowbullv.Shared.Json.{Json}
use yellowbullv.Dict.{Dict, lookup}
use yellowbullv.Session.{MessageRole, user, assistant, tool, ToolCall, Session}
use yellowbullv.Llm.{LlmMessage, LlmResponse}
use yellowbullv.Executor.{ToolCallRequest, ExecutionResult}
use yellowbullv.Executor.Batch.{Batch, completed, aborted}
use yellowbullv.Agent.{
  Services, AgentConfig, ChatRequest, Answer, answered, failed, response, Reply, replied, llm_error,
  fallback, bump_depth, say, add_results, build_tool_requests, rounds, new_session, get_or_create,
  chat,
}

-- Every service keeps the predicate.
pub record Careful (sv : Services) (P : sv.World → Type 0) : Type 0 where
  pub draws : (w : sv.World) → P w → P (sv.uuid w).1
  pub reads : (w : sv.World) → P w → P (sv.tick w).1
  pub asks :
      (messages : List LlmMessage) (definitions : List Json) (w : sv.World)
      → P w
      → P (sv.llm messages definitions w).1
  pub runs : (calls : List ToolCallRequest) (w : sv.World) → P w → P (sv.batch calls w).1

module _ (sv : Services) (cfg : AgentConfig) (P : sv.World → Type 0) (careful : Careful sv P) where
  open sv use {World}

  say_careful :
      (role : MessageRole) (content : Option String) (calls : Option (List ToolCall))
      (id : Option String) (s : Session) (w : World)
      → P w
      → P (say sv cfg role content calls id s w).1
  unfolding say
  say_careful role content calls id s w h = careful.reads _ (careful.reads _ (careful.draws w h))

  results_careful :
      (idx : ℕ) (cs : List ToolCall) (results : List ExecutionResult) (s : Session) (w : World)
      → P w
      → P (add_results sv cfg idx cs results s w).1
  unfolding add_results
  results_careful idx [] results s w h = h
  results_careful idx (c ∷ cs) results s w h =
      results_careful (suc idx) cs results _ _ (say_careful tool _ none (some c.id) s w h)

  rounds_careful :
      (left : ℕ) (log : List ExecutionResult) (s : Session) (w : World)
      → P w
      → P (rounds sv cfg left log s w).2
  unfolding rounds
  rounds_careful zero log s w h = say_careful assistant (some (fallback log)) none none s w h
  rounds_careful (suc left) log s w h =
      let asked = sv.llm (sv.build (bump_depth s)) sv.definitions w in
      go asked.0 asked.1 (careful.asks _ _ w h) (rounds_careful left)
    where
      s1 : Session
      s1 = bump_depth s

      Again : Type 0
      Again =
          (log : List ExecutionResult) (s : Session) (w : World)
          → P w
          → P (rounds sv cfg left log s w).2

      batched :
          Again
          → (r : LlmResponse) (b : Batch) (s2 : Session) (w3 : World) → P w3
          → P
              (let out : Answer × Session × World = elim b [
                | aborted e ↦ (failed e, s2, w3)
                | completed results ↦
                    let (s3, w4) = add_results sv cfg 0 r.tool_calls results s2 w3 in
                    rounds sv cfg left (log ++ results) s3 w4
              ] in
                out).2
      batched again r (aborted e) s2 w3 k = k
      batched again r (completed results) s2 w3 k =
          again _ _ _ (results_careful 0 r.tool_calls results s2 w3 k)

      called :
          Again
          → (r : LlmResponse) (some_calls : Bool) (w1 : World) → P w1
          → P
              (let out : Answer × Session × World = elim some_calls [
                | false ↦
                    let (s2, w2) = say sv cfg assistant r.content none none s1 w1 in
                    (answered (response (or_empty r.content) s.session_id r.usage), s2, w2)
                | true ↦
                    let (s2, w2) = say sv cfg assistant r.content (some r.tool_calls) none s1 w1 in
                    let (outcome, w3) = sv.batch (build_tool_requests sv cfg r.tool_calls) w2 in
                    elim outcome [
                      | aborted e ↦ (failed e, s2, w3)
                      | completed results ↦
                          let (s3, w4) = add_results sv cfg 0 r.tool_calls results s2 w3 in
                          rounds sv cfg left (log ++ results) s3 w4
                    ]
              ] in
                out).2
      called again r false w1 k = say_careful assistant r.content none none s1 w1 k
      called again r true w1 k =
          let said = say sv cfg assistant r.content (some r.tool_calls) none s1 w1 in
          let ran = sv.batch (build_tool_requests sv cfg r.tool_calls) said.1 in
          batched again r ran.0 said.0 ran.1
            (careful.runs _ _ (say_careful assistant r.content (some r.tool_calls) none s1 w1 k))

      go :
          (reply : Reply) (w1 : World)
          → P w1
          → Again
          → P
              (let out : Answer × Session × World = elim reply [
                | llm_error e ↦ (failed e, s1, w1)
                | replied r ↦ elim (is_nonempty r.tool_calls) [
                  | false ↦
                      let (s2, w2) = say sv cfg assistant r.content none none s1 w1 in
                      (answered (response (or_empty r.content) s.session_id r.usage), s2, w2)
                  | true ↦
                      let (s2, w2) =
                        say sv cfg assistant r.content (some r.tool_calls) none s1 w1 in
                      let (outcome, w3) = sv.batch (build_tool_requests sv cfg r.tool_calls) w2 in
                      elim outcome [
                        | aborted e ↦ (failed e, s2, w3)
                        | completed results ↦
                            let (s3, w4) = add_results sv cfg 0 r.tool_calls results s2 w3 in
                            rounds sv cfg left (log ++ results) s3 w4
                      ]
                ]
              ] in
                out).2
      go (llm_error e) w1 k again = k
      go (replied r) w1 k again = called again r (is_nonempty r.tool_calls) w1 k

  opened_careful :
      (req : ChatRequest) (store : Dict Session) (w : World)
      → P w
      → P (get_or_create sv cfg req store w).2
  unfolding get_or_create
  opened_careful req store w h =
      go (
        if is_empty (or_empty req.session_id) then none else lookup (or_empty req.session_id) store)
    where
      go :
          (known : Option Session)
          → P
              (let out : Session × Dict Session × World = elim known [
                | some s ↦ (s, store, w)
                | none ↦ new_session sv cfg req store w
              ] in
                out).2
      go (some s) = h
      go none = careful.reads _ (careful.reads _ (careful.draws w h))

  -- What the services keep of the world, a call of `chat` keeps.
  pub chat_careful :
      (req : ChatRequest) (store : Dict Session) (w : World) → P w → P (chat sv cfg req store w).2
  unfolding chat
  chat_careful req store w h =
      let opened = get_or_create sv cfg req store w in
      let said = say sv cfg user (some req.message) none none opened.0 opened.2 in
      rounds_careful cfg.max_chain_depth [] said.0 said.1 (
        say_careful user (some req.message) none none opened.0 opened.2
          (opened_careful req store w h))
