-- ===== src/Llm/Anthropic/Messages.antt =====
-- When the messages of a request can be put into Anthropic's form, and which system prompt is sent.
use yellowbullv.Shared.{
  ℕ, suc, String, ◌≡◌, refl, ◌∙◌, Option, none, some, Bool, true, false, List, [], ◌∷◌, ◌++◌, ◌&&◌,
  ◌⊎◌, not, arith, is_some, Option-cases, Bool-cases, inl, inr, or_empty,
}
use yellowbullv.Shared.Json.{Json}
use yellowbullv.Session.{user, assistant, tool, Message, ToolCall}
use yellowbullv.Llm.{Role, LlmMessage, plain}
use yellowbullv.Llm.Anthropic.{
  Block, tool_result, Content, plain_text, blocks, Turn, add_result, results_turn, assistant_turn,
  format_messages,
}
use yellowbullv.Context.{to_llm, convert}
use yellowbullv.Executor.{ExecutionResult}
use yellowbullv.Agent.Transcript.{Script, answer, no_reply, no_results, round, Replies}

-- The last message is the user's and its content a text.
abbrev pub is_plain : Turn → Bool
is_plain t = t.from_user && elim t.content [ plain_text s ↦ true | blocks bs ↦ false ]

abbrev pub ends_plain : List Turn → Bool
ends_plain [] = false
ends_plain (t ∷ []) = is_plain t
ends_plain (t ∷ u ∷ ts) = ends_plain (u ∷ ts)

-- No tool's message comes right after one of the user, system messages apart; `after_user` says
-- whether one of the user's has just been seen.
abbrev pub placed : Bool → List LlmMessage → Bool
placed after_user [] = true
placed after_user (m ∷ ms) = elim m.role [
  | Role.system ↦ placed after_user ms
  | Role.tool ↦ not after_user && placed false ms
  | Role.assistant ↦ placed false ms
  | Role.user ↦ placed true ms
]

ends_plain-append : (ts : List Turn) (t : Turn) → ends_plain (ts ++ t ∷ []) ≡ is_plain t
ends_plain-append [] t = refl
ends_plain-append (u ∷ []) t = refl
ends_plain-append (u ∷ v ∷ ts) t = ends_plain-append (v ∷ ts) t

-- `add_result` fails exactly after a text of the user's, and leaves a list of blocks at the end.
abbrev AddsTo : Block → List Turn → Type 0
AddsTo r ts =
    ((ends_plain ts ≡ true) × (add_result r ts ≡ none))
    ⊎ ((ends_plain ts ≡ false)
        × ((u : Turn) × (us : List Turn) × (add_result r ts ≡ some (u ∷ us))
            × (ends_plain (u ∷ us) ≡ false)))

add_result-one : (r : Block) (t : Turn) (c : Content) → t.content ≡ c → AddsTo r (t ∷ [])
unfolding add_result
add_result-one r t (plain_text s) e = elim (Bool-cases t.from_user) [
  | inl b ↦ inl (ground arith, ground arith)
  | inr b ↦ inr (ground arith, (t, results_turn r ∷ [], ground arith, refl))
]
add_result-one r t (blocks bs) e = elim (Bool-cases t.from_user) [
  | inl b ↦
      inr (
        ground arith,
        (record t { content = blocks (bs ++ r ∷ []) }, [], ground arith, ground arith),
      )
  | inr b ↦ inr (ground arith, (t, results_turn r ∷ [], ground arith, refl))
]

add_result-AddsTo : (r : Block) (ts : List Turn) → AddsTo r ts
unfolding add_result
add_result-AddsTo r [] = inr (refl, (results_turn r, [], refl, refl))
add_result-AddsTo r (t ∷ []) = add_result-one r t t.content refl
add_result-AddsTo r (t ∷ u ∷ ts) = elim (add_result-AddsTo r (u ∷ ts)) [
  | inl (p, e) ↦ inl (p, ground arith)
  | inr (p, (v, vs, e, q)) ↦ inr (p, (t, v ∷ vs, ground arith, q))
]

module _ (loads : String → Option Json) (zero_float : String → Bool) where
  assistant_turn-plain : (m : LlmMessage) → is_plain (assistant_turn loads zero_float m) ≡ false
  unfolding assistant_turn
  assistant_turn-plain m = refl

  -- A request can be put into Anthropic's form exactly where no tool's message comes right after a
  -- text of the user's, system messages apart, neither in it nor after the messages before it.
  pub format_messages-placed :
      (ms : List LlmMessage) (system_prompt : Option String) (turns : List Turn)
      → is_some (format_messages loads zero_float ms system_prompt turns)
        ≡ placed (ends_plain turns) ms
  unfolding format_messages
  format_messages-placed [] sp ts = refl
  format_messages-placed (m ∷ ms) sp ts =
      cases m.role refl (λ sp' ts'. format_messages-placed ms sp' ts')
    where
      user_turn : Turn
      user_turn = record { from_user = true; content = plain_text (or_empty m.content) }

      cases :
          (role : Role)
          → m.role ≡ role
          → ((sp' : Option String) (ts' : List Turn)
              → is_some (format_messages loads zero_float ms sp' ts') ≡ placed (ends_plain ts') ms)
          → is_some (format_messages loads zero_float (m ∷ ms) sp ts)
            ≡ placed (ends_plain ts) (m ∷ ms)
      cases Role.system e rec = let ih = rec m.content ts in ground arith
      cases Role.user e rec =
          let ih = rec sp (ts ++ user_turn ∷ []) in
          let p = ends_plain-append ts user_turn in ground arith
      cases Role.assistant e rec =
          let t = assistant_turn loads zero_float m in
          let ih = rec sp (ts ++ t ∷ []) in
          let p = ends_plain-append ts t in let q = assistant_turn-plain m in ground arith
      cases Role.tool e rec =
          elim (add_result-AddsTo (tool_result m.tool_call_id (or_empty m.content)) ts) [
            | inl (p, f) ↦ ground arith
            | inr (p, (v, vs, f, q)) ↦ let ih = rec sp (v ∷ vs) in ground arith
          ]

convert-assistant :
    (m : Message) (ms : List Message) (b : Bool)
    → m.role ≡ assistant
    → placed b (convert (m ∷ ms)) ≡ placed false (convert ms)
unfolding convert to_llm
convert-assistant m ms b e = ground arith

convert-tool :
    (m : Message) (ms : List Message)
    → m.role ≡ tool
    → placed false (convert (m ∷ ms)) ≡ placed false (convert ms)
unfolding convert to_llm
convert-tool m ms e = ground arith

Replies-placed :
    (idx : ℕ) (results : List ExecutionResult) (cs : List ToolCall) (ms rest : List Message)
    → Replies idx results cs ms
    → placed false (convert (ms ++ rest)) ≡ placed false (convert rest)
Replies-placed idx results [] [] rest h = refl
Replies-placed idx results [] (m ∷ ms) rest h = absurd h
Replies-placed idx results (c ∷ cs) [] rest h = absurd h
Replies-placed idx results (c ∷ cs) (m ∷ ms) rest (e, a, b, h) =
    convert-tool m (ms ++ rest) e ∙ Replies-placed (suc idx) results cs ms rest h

Script-placed :
    {done : Bool} {n : ℕ} (ms : List Message)
    → Script done n ms
    → (b : Bool) → placed b (convert ms) ≡ true
Script-placed _ (answer m e f) b = convert-assistant m [] b e ∙ unfold convert in refl
Script-placed _ no_reply b = unfold convert in refl
Script-placed _ (no_results m cs e f) b = convert-assistant m [] b e ∙ unfold convert in refl
Script-placed _ (round m cs results ms rest e f g h s) b =
    convert-assistant m (ms ++ rest) b e
    ∙ Replies-placed 0 results cs ms rest h
    ∙ Script-placed rest s false

-- What `chat` writes into a session, a message of the user and a script, can be put into Anthropic's
-- form, behind any system prompt.
pub Script-format_messages :
    (loads : String → Option Json) (zero_float : String → Bool) (system_prompt : Option String)
    (question : Message) {done : Bool} {n : ℕ} (new : List Message)
    → question.role ≡ user
    → Script done n new
    → is_some (format_messages loads zero_float (convert (question ∷ new)) system_prompt []) ≡ true
unfolding convert to_llm
Script-format_messages loads zero_float sp q new e s =
    format_messages-placed loads zero_float (convert (q ∷ new)) sp []
    ∙ (let p = Script-placed new s true in ground arith)

-- The content of the last system message, or what was known before.
abbrev pub last_system : Option String → List LlmMessage → Option String
last_system before [] = before
last_system before (m ∷ ms) = elim m.role [
  | Role.system ↦ last_system m.content ms
  | _ ↦ last_system before ms
]

convert-last_system :
    (before : Option String) (ms : List Message) → last_system before (convert ms) ≡ before
unfolding convert to_llm
convert-last_system before [] = refl
convert-last_system before (m ∷ ms) = let ih = convert-last_system before ms in ground arith

format_messages-last_system :
    (loads : String → Option Json) (zero_float : String → Bool) (ms : List LlmMessage)
    (before after : Option String) (turns sent : List Turn)
    → format_messages loads zero_float ms before turns ≡ some (after, sent)
    → after ≡ last_system before ms
unfolding format_messages
format_messages-last_system loads zero_float [] b a ts sent h = ground arith
format_messages-last_system loads zero_float (m ∷ ms) b a ts sent h =
    let later = λ (sp : Option String) (us : List Turn).
      format_messages-last_system loads zero_float ms sp a us sent in
    elim (Option-cases (add_result (tool_result m.tool_call_id (or_empty m.content)) ts)) [
      | inl e ↦ ground (
        arith,
        later m.content ts,
        later b (ts ++ record { from_user = true; content = plain_text (or_empty m.content) } ∷ []),
        later b (ts ++ assistant_turn loads zero_float m ∷ []),
      )
      | inr (us, e) ↦ ground (
        arith,
        later m.content ts,
        later b (ts ++ record { from_user = true; content = plain_text (or_empty m.content) } ∷ []),
        later b (ts ++ assistant_turn loads zero_float m ∷ []),
        later b us,
      )
    ]

-- A request with a system prompt, a summary and converted messages of a session: if it can be put
-- into Anthropic's form, what is sent as the system prompt is the summary, and the agent's own is
-- lost.
pub format_messages-summary :
    (loads : String → Option Json) (zero_float : String → Bool) (prompt text : String)
    (ms : List Message) (system_prompt : Option String) (sent : List Turn)
    → format_messages loads zero_float
        (plain Role.system (some prompt) ∷ plain Role.system (some text) ∷ convert ms)
        none
        []
      ≡ some (system_prompt, sent)
    → system_prompt ≡ some text
format_messages-summary loads zero_float prompt text ms sp sent h =
    format_messages-last_system loads zero_float _ none sp [] sent h
    ∙ convert-last_system (some text) ms
