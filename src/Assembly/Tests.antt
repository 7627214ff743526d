-- ===== src/Assembly/Tests.antt =====
-- A conversation with a reading tool alone, on a small file system in memory.
use mathlib.Core.Path.{subst}
use yellowbullv.Shared.{
  ℕ, suc, String, ◌≡◌, refl, sym, ◌∙◌, none, some, false, [], ◌∷◌, ltb, if◌then◌else◌, str_eq,
  Bool-cases, inl, inr, arith, show_nat,
}
use yellowbullv.Shared.Json.{str, obj, end, field}
use yellowbullv.Dict.{Dict, lookup, insert, keys}
use yellowbullv.Session.{user, ToolCall, Session}
use yellowbullv.Llm.{LlmResponse, Provider}
use yellowbullv.Llm.Anthropic.Api.{Request, Completion, completion}
use yellowbullv.Tools.{Tool, find_tool, register}
use yellowbullv.Executor.{Attempt, Executor, timed_out}
use yellowbullv.Agent.Transcript.{is_answered}
use yellowbullv.Agent.{
  Services, AgentConfig, ChatRequest, replied, bump_depth, say, get_or_create, chat,
}
use yellowbullv.Builtins.{ok, raised, other_error}
use yellowbullv.Builtins.Command.{exited}
use yellowbullv.Builtins.Lookups.{found}
use yellowbullv.Builtins.Memory.{
  file, folder, Disk, memory_files, memory_files-laws, memory_content,
}
use yellowbullv.Shared.Json.{pos}
use yellowbullv.Builtins.Calls.{read_file, Host}
use yellowbullv.Assembly.{
  builtin_named, tool_of, agent_executor, agent_config, register_all, builtin_registry, Outside,
  services,
}
use yellowbullv.Settings.Records.{default_settings}
use yellowbullv.Llm.Factory.{
  created, openai, defaults, resolve_config, create_llm, construct, given, merged,
}
use yellowbullv.Assembly.Setup.{created_llm}
use yellowbullv.Assembly.Providers.{with_anthropic, chat-anthropic}
use yellowbullv.Assembly.Files.{IsTame, chat-kept}

abbrev disk : Disk
disk = ("/w", folder) ∷ ("/w/a", file "one\n") ∷ []

abbrev host : Host
host = record {
  files = memory_files;
  shell = record { spawn = λ c cwd t st. (ok (exited c "" (pos 0)), st); kill = λ st. (ok tt, st) };
  ddgs = λ q n. found [];
  evaluate = λ e st. (raised (other_error "no names"), st);
  clock = record {
    Zone = String;
    utc = "UTC";
    zone_info = λ z. ok z;
    now = λ z. ok "2025-01-01 00:00:00 UTC";
  };
}

abbrev call : ToolCall
call = record { id = "c"; name = "read_file"; arguments = "{\"filepath\": \"/w/a\"}" }

abbrev wants : LlmResponse
wants = record { content = none; tool_calls = call ∷ []; usage = none }

abbrev answers : LlmResponse
answers = record { content = some "done"; tool_calls = []; usage = none }

-- The model asks for the file until five ticks have passed.
abbrev out : Outside host
out = record {
  Rest = ℕ;
  clock = λ n. n;
  sleep = λ num den n. n;
  tick = λ n. (n, suc n);
  uuid = λ n. (show_nat n, suc n);
  llm = λ messages definitions n. (replied (if ltb n 5 then wants else answers), suc n);
  build = λ s. [];
  loads = λ s. some (obj (field "filepath" (str "/w/a") end));
  dumps = λ v. "{}";
  sha256 = λ s. s;
  show_seconds = show_nat;
  mapping_error = λ tool v. "not a mapping";
  schedule = λ calls n. 0 ∷ 1 ∷ 0 ∷ 1 ∷ [];
  cut_off = λ c limit st. none;
  misfit = λ b v m. (Attempt.raised "execute() got unexpected arguments", m);
  other_tool = λ tool v limit m. (timed_out, m);
}

abbrev ex : Executor
ex = agent_executor (("read_file", tool_of read_file) ∷ []) default_settings

abbrev cfg : AgentConfig
cfg = agent_config default_settings

abbrev hello : ChatRequest
hello = record { session_id = none; user_id = "me"; message = "hi" }

abbrev claude : Provider
claude = record { model_name = "claude"; temperature = "0.7"; max_tokens = 4096 }

-- The API, which would answer with no blocks.
abbrev api : Request → (services host out ex).World → Completion × (services host out ex).World
api r w = (completion [] none, w)

abbrev sv : Services
sv = services host out ex

abbrev with_claude : Services
with_claude = with_anthropic sv (λ v. "{}") (λ t. false) claude api

abbrev opened : Session × Dict Session × sv.World
opened = get_or_create sv cfg hello [] (disk, 0, [])

abbrev asked : Session × sv.World
asked = say sv cfg user (some hello.message) none none opened.0 opened.2

chat-anthropic_example :
    (is_answered (chat with_claude cfg hello [] (disk, 0, [])).0 ≡ false)
    × ((chat with_claude cfg hello [] (disk, 0, [])).1
        ≡ insert asked.0.session_id (bump_depth asked.0) opened.1)
    × ((chat with_claude cfg hello [] (disk, 0, [])).2 ≡ asked.1)
chat-anthropic_example =
    chat-anthropic sv (λ v. "{}") (λ t. false) claude api "read_file" (tool_of read_file) [] cfg
      refl 99 refl hello [] (disk, 0, [])

tool_inj : (t u : Tool) → some t ≡ some u → t ≡ u
tool_inj t u h = ground arith

only_reading :
    (name : String) (tool : Tool)
    → find_tool name ex.registry ≡ some tool
    → IsTame (builtin_named tool.info.name)
unfolding find_tool lookup builtin_named
only_reading name tool h = elim (Bool-cases (str_eq "read_file" name)) [
  | inl e ↦
      let same = tool_inj (tool_of read_file) tool (sym (rw e refl) ∙ h) in
      subst (λ t. IsTame (builtin_named t.info.name)) same tt
  | inr e ↦ absurd (ground arith)
]

chat-kept_example :
    memory_files-laws.content "/w/a" (chat (services host out ex) cfg hello [] (disk, 0, [])).2.0
    ≡ some "one\n"
unfolding lookup
chat-kept_example =
    chat-kept host out memory_files-laws ex "/w/a" "one\n" only_reading (λ b v m tame h. h) cfg
      hello [] (disk, 0, []) (memory_content "/w/a" disk)

-- The seven tools are registered under their names.
registered :
    keys builtin_registry
    ≡ "calculator" ∷ "execute_command" ∷ "create_file_folder" ∷ "current_time" ∷ "read_file"
      ∷ "write_file" ∷ "web_search" ∷ []
unfolding builtin_registry register_all register insert
registered = refl

-- With no settings at all the model is OpenAI's, with its defaults.
default_llm_created : created_llm (λ p kwargs. none) default_settings ≡ created openai defaults
unfolding created_llm create_llm resolve_config construct given merged lookup insert
default_llm_created = refl
