-- ===== src/Repl/Tests.antt =====
-- Runs of the command line against a model that always answers "done".
use yellowbullv.Shared.{ℕ, suc, String, ◌≡◌, refl, none, some, true, List, [], ◌∷◌, split_words}
use yellowbullv.Shared.Json.{Json, obj, end}
use yellowbullv.Dict.{lookup}
use yellowbullv.Session.{Session, fresh_session}
use yellowbullv.Llm.{LlmResponse}
use yellowbullv.Executor.Batch.{completed}
use yellowbullv.Agent.{Services, AgentConfig, ChatRequest, replied}
use yellowbullv.Repl.Words.{strip, lstrip, first_word}
use yellowbullv.Builtins.Lines.{rstrip}
use yellowbullv.Repl.{
  Input, line, made, Terminal, Repl, Next, crashed, sessions_command, turn, command, read_command,
  run_command, farewell,
}
use yellowbullv.Repl.Run.{Settled}
use yellowbullv.Repl.Listing.{sessions_command-crashed}

abbrev answers : LlmResponse
answers = record { content = some "done"; tool_calls = []; usage = none }

abbrev sv : Services
sv = record {
  World = ℕ;
  uuid = λ w. ("id", suc w);
  tick = λ w. (w, suc w);
  llm = λ ms ds w. (replied answers, w);
  batch = λ qs w. (completed [], w);
  loads = λ s. some (obj end);
  build = λ s. [];
  definitions = [];
}

abbrev cfg : AgentConfig
cfg = record { max_chain_depth = 3; max_tool_calls_per_turn = 2 }

-- Every folder is there.
abbrev terminal : Terminal ℕ
terminal = record {
  abspath = λ p. p;
  isdir = λ p w. true;
  makedirs = λ p w. (made, w);
  shows = λ p. none;
  lower = λ s. s;
}

abbrev no_text : Json → String
no_text v = "no text"

abbrev typed : List Input
typed = line "" ∷ line "/tmp " ∷ line "hello" ∷ line "/new" ∷ line "/workdir /home" ∷ []

abbrev mine : Session
mine = record (fresh_session "a" "cli_user" 1 1) { work_dir = some "/tmp" }

abbrev at_prompt : Repl ℕ
at_prompt = record {
  current_session_id = "a";
  work_dir = "/tmp";
  store = ("a", mine) ∷ [];
  world = 0;
}

at_prompt-Settled : Settled sv cfg terminal no_text at_prompt
unfolding lookup
at_prompt-Settled = record {
  session = mine;
  full = refl;
  stored = refl;
  named = refl;
  owned = refl;
  placed = refl;
}

sessions_command-crashed_example :
    sessions_command sv cfg terminal no_text at_prompt
    ≡ ([], crashed "'Session' object has no attribute 'model_dump'")
sessions_command-crashed_example =
    sessions_command-crashed sv cfg terminal no_text at_prompt at_prompt-Settled

abbrev hello : ChatRequest
hello = record { session_id = some "a"; user_id = "cli_user"; message = "hi" }

quits :
    turn sv cfg terminal no_text (line " /quit ") at_prompt ≡ (farewell ∷ [], Next.left, at_prompt)
unfolding turn command read_command run_command strip lstrip rstrip first_word split_words
quits = refl
