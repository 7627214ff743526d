-- ===== src/Assembly/Providers.antt =====
-- The agent over the providers of llm/: `create_llm` gives it one of the two, and `chat` calls it.
use yellowbullv.Shared.{
  ℕ, suc, String, ◌≡◌, refl, ap, ◌∙◌, Option, none, some, Bool, false, List, [], ◌∷◌,
}
use yellowbullv.Shared.Json.{Json}
use yellowbullv.Dict.{Dict, lookup, insert}
use yellowbullv.Session.{user, Session}
use yellowbullv.Tools.{Tool, ToolRegistry, function_definition, to_function_definitions}
use yellowbullv.Llm.{LlmMessage, llm_error, Provider}
use yellowbullv.Llm.Anthropic.{Turn, format_tool, format_tools, format_messages}
use yellowbullv.Llm.Anthropic.Api.{Request, Completion, send, ask}
use yellowbullv.Llm.Anthropic.Api
use yellowbullv.Agent.Transcript.{is_answered}
use yellowbullv.Agent.{
  Services, AgentConfig, ChatRequest, failed, bump_depth, say, rounds, get_or_create, chat,
}

-- The agent's services with Anthropic's provider as the model.
abbrev pub with_anthropic :
    (sv : Services) (dumps : Json → String) (zero_float : String → Bool)
    → Provider
    → (Request → sv.World → Completion × sv.World)
    → Services
with_anthropic sv dumps zero_float p create = record {
  World = sv.World;
  uuid = sv.uuid;
  tick = sv.tick;
  llm = λ messages definitions w.
      Api.chat sv.loads dumps zero_float create p messages (some definitions) w;
  batch = sv.batch;
  loads = sv.loads;
  build = sv.build;
  definitions = sv.definitions;
}

-- An exception of the model leaves the loop.
rounds-llm_error :
    (sv : Services) (cfg : AgentConfig) (left : ℕ) (s : Session) (w w' : sv.World) (e : String)
    → sv.llm (sv.build (bump_depth s)) sv.definitions w ≡ (llm_error e, w')
    → rounds sv cfg (suc left) [] s w ≡ (failed e, bump_depth s, w')
unfolding rounds
rounds-llm_error sv cfg left s w w' e h = rw (h, rounds) (ap (λ r. (failed e, bump_depth s, r.1)) h)

module _ (sv : Services) (dumps : Json → String) (zero_float : String → Bool) (p : Provider)
    (create : Request → sv.World → Completion × sv.World) (k : String) (t : Tool)
    (tools : ToolRegistry) where
  abbrev own : List Json
  own = to_function_definitions ((k, t) ∷ tools)

  unsendable :
      (prompt : Option String) (turns : List Turn) → Api.request p prompt turns (some own) ≡ none
  unfolding Api.request to_function_definitions format_tools format_tool function_definition lookup
  unsendable prompt turns = refl

  ask-fails :
      (formatted : Option (Option String × List Turn)) (w : sv.World)
      → (e : String) × (ask sv.loads dumps zero_float create p formatted (some own) w
          ≡ (llm_error e, w))
  ask-fails none w = (_, refl)
  ask-fails (some (prompt, turns)) w =
      (_, ap (λ r. send sv.loads dumps zero_float create r w) (unsendable prompt turns))

  chat-fails :
      (messages : List LlmMessage) (w : sv.World)
      → (e : String) × (Api.chat sv.loads dumps zero_float create p messages (some own) w
          ≡ (llm_error e, w))
  unfolding Api.chat
  chat-fails messages w = ask-fails (format_messages sv.loads zero_float messages none []) w

  module _ (cfg : AgentConfig) (registered : sv.definitions ≡ own) where
    abbrev claude : Services
    claude = with_anthropic sv dumps zero_float p create

    asked-fails :
        (messages : List LlmMessage) (w : sv.World)
        → (e : String) × (claude.llm messages claude.definitions w ≡ (llm_error e, w))
    asked-fails messages w = rw registered (chat-fails messages w)

    rounds-fails :
        (depth : ℕ)
        → cfg.max_chain_depth ≡ suc depth
        → (s : Session) (w : sv.World)
        → (e : String) × (rounds claude cfg cfg.max_chain_depth [] s w
            ≡ (failed e, bump_depth s, w))
    rounds-fails depth deep s w =
        let (e, same) = asked-fails (sv.build (bump_depth s)) w in
        (
          e,
          ap (λ n. rounds claude cfg n [] s w) deep
              ∙ rounds-llm_error claude cfg depth s w w e same,
        )

    abbrev opened : ChatRequest → Dict Session → sv.World → Session × Dict Session × sv.World
    opened = get_or_create sv cfg

    abbrev asked : ChatRequest → Dict Session → sv.World → Session × sv.World
    asked req store w =
        let (s, store1, w1) = opened req store w in
        say sv cfg user (some req.message) none none s w1

    -- With Anthropic as the provider, a tool in the registry and a depth of at least one, every call of
    -- `chat` fails, and the API is not called: whatever it would answer, the call adds the user's message
    -- to the session, counts one round, and leaves the store and the world at that.
    pub chat-anthropic :
        (depth : ℕ)
        → cfg.max_chain_depth ≡ suc depth
        → (req : ChatRequest) (store : Dict Session) (w : sv.World)
        → (is_answered (chat claude cfg req store w).0 ≡ false)
          × ((chat claude cfg req store w).1
              ≡ insert
                  (asked req store w).0.session_id
                  (bump_depth (asked req store w).0)
                  (opened req store w).1)
          × ((chat claude cfg req store w).2 ≡ (asked req store w).1)
    unfolding chat get_or_create say
    chat-anthropic depth deep req store w =
        let (e, same) = rounds-fails depth deep (asked req store w).0 (asked req store w).1 in
        (
          ap (λ r. is_answered r.0) same,
          ap (λ r. insert r.1.session_id r.1 (opened req store w).1) same,
          ap (λ r. r.2) same,
        )
