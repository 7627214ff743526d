-- ===== src/Context/Tests.antt =====
-- The context builder on a concrete conversation, with a counter that counts characters.
use yellowbullv.Shared.{String, some, true, List, [], ◌∷◌, str_length}
use yellowbullv.Llm.{Role, LlmMessage, plain}
use yellowbullv.Context.{Tools, CompressionConfig, cut_down}
use yellowbullv.Context.Summary.{IsCut, cut_down_fits}

abbrev counting : Tools
counting = record { tiktoken = some str_length; dumps = λ v. "\"\"" }

abbrev long : String
long =
    "a text of more than fifty characters, so that some of them have to go before it fits into a small budget"

abbrev conversation : List LlmMessage
conversation =
    plain Role.user (some long)
    ∷ plain Role.assistant (some "b")
    ∷ plain Role.user (some "c")
    ∷ plain Role.assistant (some "d")
    ∷ []

abbrev keep_one : CompressionConfig
keep_one = record { enabled = true; max_summary_tokens = 300; min_turns_to_keep = 1 }

cut_down_fits_example : IsCut counting 60 long (cut_down counting (str_length long) 60 long)
cut_down_fits_example = cut_down_fits counting 60 long
