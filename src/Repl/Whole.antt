-- ===== src/Repl/Whole.antt =====
-- A whole run of the command line, from the question for the folder on.
use yellowbullv.Shared.{String, ◌≡◌, some, ◌⊎◌}
use yellowbullv.Shared.Json.{Json}
use yellowbullv.Dict.{Dict}
use yellowbullv.Session.{Session}
use yellowbullv.Agent.{Services, AgentConfig}
use yellowbullv.Repl.{Printed, Made, other_error, Terminal, Repl, Next, crashed}
use yellowbullv.Repl.Run.{Settled}
use yellowbullv.Repl.Start.{Standing, prompting, failed}

abbrev pub no_model_dump : String
no_model_dump = "'Session' object has no attribute 'model_dump'"

module _ (sv : Services) (cfg : AgentConfig) (terminal : Terminal sv.World)
    (bad_result : Json → String) where
  open sv use {World, uuid}

  -- The exceptions that can end a run: the one of `/sessions`, one of rich on something that was to be
  -- printed, and one of making a folder that is no `OSError`.
  abbrev pub Known : String → Type 0
  Known e =
      (e ≡ no_model_dump)
      ⊎ (((p : Printed) × (terminal.shows p ≡ some e))
          ⊎ ((dir : String) × (w : World) × ((terminal.makedirs dir w).0 ≡ other_error e)))

  abbrev Fine : Next → Type 0
  Fine (crashed e) = Known e
  Fine _ = Unit

  -- An attempt to make a folder that ends in an exception other than an `OSError`.
  abbrev Explained : Made → Type 0
  Explained (other_error e) =
      (dir : String) × (w : World) × ((terminal.makedirs dir w).0 ≡ other_error e)
  Explained _ = Unit

  -- Where a run has come to: it waits for a line in a session that is there, belongs to the user and
  -- works in the folder shown; or it still asks, or has ended; or it failed, with a known exception.
  abbrev pub Sound : Standing World → Type 0
  Sound (prompting st) = Settled sv cfg terminal bad_result st
  Sound (failed e) = Known e
  Sound _ = Unit
