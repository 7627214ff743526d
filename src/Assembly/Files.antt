-- ===== src/Assembly/Files.antt =====
-- What a conversation can do to the files.
use mathlib.Core.Path.{subst}
use yellowbullv.Shared.{
  ℕ, String, ◌≡◌, refl, sym, Option, none, some, Bool, true, false, List, if◌then◌else◌, Bool-cases,
  inl, inr,
}
use yellowbullv.Shared.Json.{Json, pos}
use yellowbullv.Dict.{Dict}
use yellowbullv.Session.{Session}
use yellowbullv.Tools.{Tool, find_tool}
use yellowbullv.Executor.{Executor, ToolCallRequest, Cache, invoke_tool}
use yellowbullv.Executor.Batch.{Batch, serial}
use yellowbullv.Executor.World.{invoke_tool_keeps, serial_keeps}
use yellowbullv.Executor.Parallel.Driven.{parallel, parallel_keeps}
use yellowbullv.Agent.{AgentConfig, ChatRequest, chat}
use yellowbullv.Agent.World.{Careful, chat_careful}
use yellowbullv.Builtins.Laws.{FileLaws}
use yellowbullv.Builtins.Calls.{
  Builtin, calculator, execute_command, create_file_folder, current_time, read_file, write_file,
  web_search, Call, calculator_call, command_call, create_call, time_call, read_call, write_call,
  search_call, ◌>>=◌, required, default, as_str, as_int, as_bool, or_none, bind_known, is_known,
  bind_call, Host,
}
use yellowbullv.Builtins.Calls.Files.{MayChange, run_call-kept}
use yellowbullv.Assembly.{
  Outside, builtin_named, Machine, run_within, run_bound, run_tool, run_batch, runtime, services,
}

-- The tool of a call.
abbrev kind_of : Call → Builtin
kind_of (calculator_call e) = calculator
kind_of (command_call c d t) = execute_command
kind_of (create_call p k c r) = create_file_folder
kind_of (time_call z) = current_time
kind_of (read_call p a b m) = read_file
kind_of (write_call p c a d) = write_file
kind_of (search_call q n) = web_search

-- A call, if there is one, is one of this tool.
abbrev Made : Builtin → Option Call → Type 0
Made b none = Unit
Made b (some call) = kind_of call ≡ b

bind-Made :
    {A : Type 0} (b : Builtin) (m : Option A) (f : A → Option Call)
    → ((a : A) → Made b (f a))
    → Made b (m >>= f)
unfolding ◌>>=◌
bind-Made b none f k = tt
bind-Made b (some a) f k = k a

bind_known-Made : (b : Builtin) (params : Dict Json) → Made b (bind_known b params)
unfolding bind_known
bind_known-Made calculator params =
    bind-Made calculator (required as_str "expression" params) _ (λ a0. refl)
bind_known-Made execute_command params =
    bind-Made execute_command (required as_str "command" params) _ (λ a0.
      bind-Made execute_command (default (or_none as_str) none "workdir" params) _
        (λ a1. bind-Made execute_command (default as_int (pos 60) "timeout" params) _ (λ a2. refl)))
bind_known-Made create_file_folder params =
    bind-Made create_file_folder (required as_str "path" params) _ (λ a0.
      bind-Made create_file_folder (default as_str "file" "kind" params) _ (λ a1.
        bind-Made create_file_folder (default (or_none as_str) none "content" params) _ (λ a2.
          bind-Made create_file_folder (default as_bool true "recursive" params) _ (λ a3. refl))))
bind_known-Made current_time params =
    bind-Made current_time (default as_str "UTC" "timezone" params) _ (λ a0. refl)
bind_known-Made read_file params = bind-Made read_file (required as_str "filepath" params) _ (λ a0.
    bind-Made read_file (default as_int (pos 1) "start_line" params) _ (λ a1.
      bind-Made read_file (default (or_none as_int) none "end_line" params) _ (λ a2.
        bind-Made read_file (default as_int (pos 102400) "max_bytes" params) _ (λ a3. refl))))
bind_known-Made write_file params =
    bind-Made write_file (required as_str "filepath" params) _ (λ a0.
      bind-Made write_file (required as_str "content" params) _ (λ a1.
        bind-Made write_file (default as_bool false "append" params) _
          (λ a2. bind-Made write_file (default as_bool true "create_dirs" params) _ (λ a3. refl))))
bind_known-Made web_search params =
    bind-Made web_search (required as_str "query" params) _
      (λ a0. bind-Made web_search (default as_int (pos 5) "max_results" params) _ (λ a1. refl))

bind_call-Made : (b : Builtin) (params : Dict Json) → Made b (bind_call b params)
unfolding bind_call
bind_call-Made b params = elim (Bool-cases (is_known b params)) [
  | inl e ↦ rw e (bind_known-Made b params)
  | inr e ↦ rw (e, Made) tt
]

-- A built-in tool that can neither run a command nor evaluate an expression nor write to a file that is
-- there.
abbrev pub IsTame : Option Builtin → Type 0
IsTame (some calculator) = ⊥
IsTame (some execute_command) = ⊥
IsTame (some write_file) = ⊥
IsTame none = ⊥
IsTame _ = Unit

-- A call of such a tool changes no file that is there.
tame-MayChange :
    (host : Host) (call : Call) (q : String) (st : host.files.Store)
    → IsTame (some (kind_of call))
    → ¬ MayChange host.files call q st
tame-MayChange host (calculator_call e) q st h m = h
tame-MayChange host (command_call c d t) q st h m = h
tame-MayChange host (create_call p k c r) q st h m = m
tame-MayChange host (time_call z) q st h m = m
tame-MayChange host (read_call p a b m) q st h x = x
tame-MayChange host (write_call p c a d) q st h m = h
tame-MayChange host (search_call x n) q st h m = m

module _ (host : Host) (out : Outside host) (laws : FileLaws host.files) (q t : String)
    (harmless : (b : Builtin) (arguments : Json) (m : Machine host out)
      → IsTame (some b)
      → laws.content q m.0 ≡ some t
      → laws.content q (out.misfit b arguments m).1.0 ≡ some t) where
  -- The file at `q` holds `t`.
  abbrev Here : Machine host out → Type 0
  Here m = laws.content q m.0 ≡ some t

  run_within-Here :
      (limit : ℕ) (call : Call) (m : Machine host out)
      → IsTame (some (kind_of call))
      → Here m
      → Here (run_within host out limit call m).1
  unfolding run_within
  run_within-Here limit (command_call c d n) m tame h = absurd tame
  run_within-Here limit call m tame h =
      run_call-kept host laws call q t m.0 h (tame-MayChange host call q m.0 tame)

  run_bound-Here :
      (limit : ℕ) (b : Builtin) (arguments : Json) (call : Option Call) (m : Machine host out)
      → Made b call
      → IsTame (some b)
      → Here m
      → Here (run_bound host out limit b arguments call m).1
  run_bound-Here limit b arguments none m made tame h = harmless b arguments m tame h
  run_bound-Here limit b arguments (some call) m made tame h =
      run_within-Here limit call m (subst (λ k. IsTame (some k)) (sym made) tame) h

  run_tool-Here :
      (b : Option Builtin) (tool : Tool) (arguments : Json) (limit : ℕ) (m : Machine host out)
      → IsTame b
      → Here m
      → Here (run_tool host out b tool arguments limit m).1
  run_tool-Here none tool arguments limit m tame h = absurd tame
  run_tool-Here (some b) tool arguments limit m tame h =
      run_bound-Here limit b arguments _ m (bind_call-Made b _) tame h

  module _ (ex : Executor)
      (tame : (name : String) (tool : Tool)
        → find_tool name ex.registry ≡ some tool
        → IsTame (builtin_named tool.info.name)) where
    invoke_tool-Here :
        (name : String) (tool : Tool) (arguments : Json) (limit : ℕ) (m : Machine host out)
        → find_tool name ex.registry ≡ some tool
        → Here m
        → Here (invoke_tool (runtime host out) tool arguments limit m).1
    invoke_tool-Here name tool arguments limit m known h =
        invoke_tool_keeps (runtime host out) Here tool arguments limit m h
          (run_tool-Here (builtin_named tool.info.name) tool arguments limit m
            (tame name tool known) h)
          h

    run_batch-Here :
        (calls : List ToolCallRequest) (cache : Cache) (m : Machine host out)
        → Here m
        → Here (run_batch host out ex calls cache m).2
    unfolding run_batch
    run_batch-Here calls cache m h = go ex.parallel
      where
        one_by_one : Batch × Cache × Machine host out
        one_by_one = serial (runtime host out) ex calls cache m

        interleaved : Batch × Cache × Machine host out
        interleaved = parallel (runtime host out) ex (out.schedule calls m.1) calls cache m

        go : (b : Bool) → Here (if b then interleaved else one_by_one).2
        go true =
            parallel_keeps (runtime host out) ex Here (λ num den n k. k) invoke_tool-Here
              (out.schedule calls m.1) calls cache m h
        go false =
            serial_keeps (runtime host out) ex Here (λ num den n k. k) invoke_tool-Here calls cache
              m h

    services-Careful : Careful (services host out ex) (λ w. laws.content q w.0 ≡ some t)
    services-Careful = record {
      draws = λ w h. h;
      reads = λ w h. h;
      asks = λ messages definitions w h. h;
      runs = λ calls w h. run_batch-Here calls w.2 (w.0, w.1) h;
    }

-- Where every registered tool is a built-in one other than the shell tool, the calculator and
-- `write_file`, and where a call of such a tool whose arguments do not fit its signature leaves the file
-- at `q` as it is: what the tools do in a whole conversation, whatever the model asks for and however
-- the calls end, leaves the text of the file at `q`.
pub chat-kept :
    (host : Host) (out : Outside host) (laws : FileLaws host.files) (ex : Executor) (q t : String)
    → ((name : String) (tool : Tool)
        → find_tool name ex.registry ≡ some tool
        → IsTame (builtin_named tool.info.name))
    → ((b : Builtin) (arguments : Json) (m : Machine host out)
        → IsTame (some b)
        → laws.content q m.0 ≡ some t
        → laws.content q (out.misfit b arguments m).1.0 ≡ some t)
    → (cfg : AgentConfig) (req : ChatRequest) (store : Dict Session)
      (w : (services host out ex).World)
    → laws.content q w.0 ≡ some t
    → laws.content q (chat (services host out ex) cfg req store w).2.0 ≡ some t
chat-kept host out laws ex q t tame harmless cfg req store w h =
    chat_careful (services host out ex) cfg _ (services-Careful host out laws q t harmless ex tame)
      req store w h
