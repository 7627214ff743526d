-- ===== src/Agent/Requests.antt =====
-- The requests of one round, and what the model reads of their results.
use yellowbullv.Shared.{
  ℕ, zero, suc, ◌≤◌, min, ◌≡◌, refl, ap, ◌∙◌, String, Option, none, some, arith, List, [], ◌∷◌,
  ◌++◌, length, length-map, length-take, get_elem?, if◌then◌else◌, ◌↔◌,
}
use yellowbullv.Session.{tool, Message, ToolCall, Session}
use yellowbullv.Executor.{Runtime, Executor, ToolCallRequest, ExecutionResult, succeeded}
use yellowbullv.Executor.Caching.{IsSound}
use yellowbullv.Executor.Batch.{AnswerAll}
use yellowbullv.Agent.{Services, AgentConfig, tool_content, add_results, build_tool_requests}
use yellowbullv.Agent.Transcript.{Replies, add_results_lem}

length-build_tool_requests :
    (sv : Services) (cfg : AgentConfig) (calls : List ToolCall)
    → length (build_tool_requests sv cfg calls) ≡ min cfg.max_tool_calls_per_turn (length calls)
unfolding build_tool_requests
length-build_tool_requests sv cfg calls = simp (length-map, length-take)

module _ (rt : Runtime) (ex : Executor) where
  length-AnswerAll :
      (qs : List ToolCallRequest) (rs : List ExecutionResult)
      → AnswerAll rt ex qs rs
      → length rs ≡ length qs
  length-AnswerAll [] [] h = refl
  length-AnswerAll [] (r ∷ rs) h = absurd h
  length-AnswerAll (q ∷ qs) [] h = absurd h
  length-AnswerAll (q ∷ qs) (r ∷ rs) (a, h) = omega (arith, length-AnswerAll qs rs h)

  -- What a tool message says of the call at an index: that there is no result; nothing at all, of a
  -- failed one; or the content of a success.
  abbrev pub told : Option ExecutionResult → String
  told none = "工具执行结果不可用"
  told (some r) = if succeeded r.status then r.content else ""

  IsSound-told : (r : ExecutionResult) → IsSound r → tool_content (some r) ≡ told (some r)
  unfolding tool_content
  IsSound-told r s = ground (arith, s.no_content)

  content-told :
      (qs : List ToolCallRequest) (rs : List ExecutionResult) (i : ℕ)
      → AnswerAll rt ex qs rs
      → tool_content (get_elem? rs i) ≡ told (get_elem? rs i)
  content-told [] [] i h = unfold tool_content in refl
  content-told [] (r ∷ rs) i h = absurd h
  content-told (q ∷ qs) [] i h = absurd h
  content-told (q ∷ qs) (r ∷ rs) zero (a, h) = IsSound-told r a.sound
  content-told (q ∷ qs) (r ∷ rs) (suc i) (a, h) = content-told qs rs i h

  missing : (rs : List ExecutionResult) (i : ℕ) → length rs ≤ i → get_elem? rs i ≡ none
  missing [] i h = refl
  missing (r ∷ rs) zero h = absurd (omega arith)
  missing (r ∷ rs) (suc i) h = missing rs i (omega arith)

  missing-length : (rs : List ExecutionResult) (i : ℕ) → get_elem? rs i ≡ none → length rs ≤ i
  missing-length [] i h = omega arith
  missing-length (r ∷ rs) zero h = absurd (ground arith)
  missing-length (r ∷ rs) (suc i) h = omega (arith, missing-length rs i h)

  -- The content for the call at an index, and where there is no result.
  tool_content-told :
      (sv : Services) (cfg : AgentConfig) (calls : List ToolCall) (rs : List ExecutionResult)
      (i : ℕ)
      → AnswerAll rt ex (build_tool_requests sv cfg calls) rs
      → (tool_content (get_elem? rs i) ≡ told (get_elem? rs i))
        × ((get_elem? rs i ≡ none) ↔ (min cfg.max_tool_calls_per_turn (length calls) ≤ i))
  tool_content-told sv cfg calls rs i h =
      let n = length-AnswerAll (build_tool_requests sv cfg calls) rs h in
      let m = length-build_tool_requests sv cfg calls in
      (
        content-told (build_tool_requests sv cfg calls) rs i h,
        (
          (λ e. omega (arith, missing-length rs i e, n, m)),
          (λ le. missing rs i (omega (arith, n, m))),
        ),
      )

  -- Tool messages that tell the calls one to one and in order, from index `idx` on.
  abbrev pub Told : ℕ → List ExecutionResult → List ToolCall → List Message → Type 0
  Told idx results [] [] = Unit
  Told idx results [] (m ∷ ms) = ⊥
  Told idx results (c ∷ cs) [] = ⊥
  Told idx results (c ∷ cs) (m ∷ ms) =
      (m.role ≡ tool)
      × (m.tool_call_id ≡ some c.id)
      × (m.content ≡ some (told (get_elem? results idx)))
      × Told (suc idx) results cs ms

  Told-Replies :
      (idx : ℕ) (qs : List ToolCallRequest) (rs : List ExecutionResult) (cs : List ToolCall)
      (ms : List Message)
      → AnswerAll rt ex qs rs
      → Replies idx rs cs ms
      → Told idx rs cs ms
  Told-Replies idx qs rs [] [] h r = tt
  Told-Replies idx qs rs [] (m ∷ ms) h r = absurd r
  Told-Replies idx qs rs (c ∷ cs) [] h r = absurd r
  Told-Replies idx qs rs (c ∷ cs) (m ∷ ms) h (role, id, content, r) = (
    role,
    id,
    content ∙ ap some (content-told qs rs idx h),
    Told-Replies (suc idx) qs rs cs ms h r,
  )

  -- The messages that a round adds to a session for these calls and results, with the number of results
  -- that there are.
  pub record Recorded (sv : Services) (cfg : AgentConfig) (calls : List ToolCall)
      (rs : List ExecutionResult) (s : Session) (w : sv.World) : Type 0 where
    pub new : List Message
    pub added : (add_results sv cfg 0 calls rs s w).0.messages ≡ s.messages ++ new
    pub tells : Told 0 rs calls new
    pub absent :
        (i : ℕ) → (get_elem? rs i ≡ none) ↔ (min cfg.max_tool_calls_per_turn (length calls) ≤ i)

  -- Where a batch has answered the requests of a round one to one: the round adds to the session one
  -- tool message for each call, in their order and with its id, whose content is the content of the
  -- result if that is a success, empty if it is a failure, whatever its error says, and a notice where
  -- there is no result, which is so exactly from the limit of calls in a turn on.
  pub add_results-Recorded :
      (sv : Services) (cfg : AgentConfig) (calls : List ToolCall) (rs : List ExecutionResult)
      (s : Session) (w : sv.World)
      → AnswerAll rt ex (build_tool_requests sv cfg calls) rs
      → Recorded sv cfg calls rs s w
  add_results-Recorded sv cfg calls rs s w h =
      let (new, added, replies) = add_results_lem sv cfg 0 calls rs s w in
      record {
        new = new;
        added = added;
        tells = Told-Replies 0 (build_tool_requests sv cfg calls) rs calls new h replies;
        absent = λ i. (tool_content-told sv cfg calls rs i h).1;
      }
