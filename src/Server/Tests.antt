-- ===== src/Server/Tests.antt =====
-- Runs of the endpoints against a model that always answers "done".
use yellowbullv.Shared.{
  ℕ, suc, String, ◌≡◌, refl, ◌↔◌, none, some, true, false, List, [], ◌∷◌, map, All, is_some,
  show_nat, if◌then◌else◌, str_eq,
}
use yellowbullv.Shared.Json.{obj, end}
use yellowbullv.Dict.{Dict, lookup}
use yellowbullv.Session.{ToolCall, Session, fresh_session, add_message}
use yellowbullv.Sessions.{list_sessions}
use yellowbullv.Sessions.Memory.{memory}
use yellowbullv.Llm.{LlmResponse}
use yellowbullv.Executor.Batch.{completed}
use yellowbullv.Agent.{
  Services, AgentConfig, ChatRequest, ChatResponse, response, replied, chat, get_or_create, rounds,
  say,
}
use yellowbullv.Server.{
  body, http_exception, History, info_of, list_endpoint, delete_endpoint, history_endpoint,
  chat_endpoint, chat_body,
}
use yellowbullv.Server.Sessions.{
  list_endpoint-list_sessions, history-delete_endpoint, Recorded, chat_endpoint-history,
}
use yellowbullv.Server.Socket.{Incoming, elsewhere, received, disconnected, ws_run, connected}
use yellowbullv.Server.Socket.Continuity.{InSession, ws_run-InSession}

abbrev answers : LlmResponse
answers = record { content = some "done"; tool_calls = []; usage = none }

abbrev sv : Services
sv = record {
  World = ℕ;
  uuid = λ w. ("id", suc w);
  tick = λ w. (w, suc w);
  llm = λ ms ds w. (replied answers, w);
  batch = λ qs w. (completed [], w);
  loads = λ s. some (obj end);
  build = λ s. [];
  definitions = [];
}

abbrev cfg : AgentConfig
cfg = record { max_chain_depth = 3; max_tool_calls_per_turn = 2 }

abbrev hello : ChatRequest
hello = record { session_id = none; user_id = "me"; message = "hi" }

abbrev mine : Session
mine = fresh_session "a" "me" 1 1

abbrev theirs : Session
theirs = fresh_session "b" "you" 2 3

abbrev store : Dict Session
store = ("a", mine) ∷ ("b", theirs) ∷ []

list_endpoint-list_sessions_example :
    list_endpoint show_nat true (some "you") store
    ≡ body (map (λ e. info_of show_nat e.1) (list_sessions memory (some "you") store))
unfolding lookup
list_endpoint-list_sessions_example =
    list_endpoint-list_sessions show_nat (some "you") store (refl, (refl, tt))

listed : list_endpoint show_nat true (some "you") store ≡ body (info_of show_nat theirs ∷ [])
unfolding list_endpoint
listed = refl

history-delete_endpoint_example :
    let (r, store') = delete_endpoint true "a" store in
    ((r ≡ body tt) ↔ (is_some (lookup "a" store) ≡ true))
    × ((r ≡ http_exception 404 "Session not found") ↔ (is_some (lookup "a" store) ≡ false))
    × (history_endpoint show_nat true "b" store' ≡ (
        if str_eq "a" "b"
        then http_exception 404 "Session not found"
        else history_endpoint show_nat true "b" store))
history-delete_endpoint_example = history-delete_endpoint show_nat "a" "b" store

abbrev done : ChatResponse
done = response "done" "id" none

chat_endpoint-history_example :
    (h : History) × (history_endpoint show_nat true "id" (chat_endpoint sv cfg hello store 0).1
      ≡ body h)
    × Recorded sv cfg show_nat hello store 0 done h
unfolding chat_endpoint chat_body chat get_or_create rounds say add_message
chat_endpoint-history_example = chat_endpoint-history sv cfg show_nat hello store 0 done refl

abbrev two_messages : List Incoming
two_messages =
    received (some "hi") (some "me")
    ∷ elsewhere (λ sessions. sessions)
    ∷ received (some "more") none
    ∷ disconnected
    ∷ []

ws_run-InSession_example :
    (sid : String) × All
      (InSession sid)
      (ws_run sv cfg true two_messages (connected sv cfg store 0)).0
ws_run-InSession_example =
    ws_run-InSession sv cfg (λ w. refl) true two_messages
      (tt, ((λ sid sessions s h. (s, h, refl)), (tt, (tt, tt)))) store 0

abbrev call : ToolCall
call = record { id = "c"; name = "rm"; arguments = "{}" }
