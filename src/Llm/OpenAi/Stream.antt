-- ===== src/Llm/OpenAi/Stream.antt =====
-- A stream against the pieces that it is made of.
use yellowbullv.Shared.{
  ℕ, String, ◌≡◌, refl, sym, ap, ◌∙◌, Bool, false, List, [], ◌∷◌, ◌++◌, arith, ◌==◌, ◌||◌, or_empty,
  cat, map, if◌then◌else◌, Bool-cases, inl, inr,
}
use text.Mathlib.TextLemmas
use yellowbullv.Llm.{StreamChunk, text_chunk, call_chunks}
use yellowbullv.Llm.OpenAi.{
  CallDelta, Chunk, no_choice, choice, Calls, take_delta, accumulate, stream_chat,
}

-- The texts and the pieces of calls of all the chunks, in order.
abbrev pub texts : List Chunk → List StreamChunk
texts [] = []
texts (no_choice ∷ cs) = texts cs
texts (choice content tcs ∷ cs) = text_chunk (or_empty content) ∷ texts cs

abbrev pub pieces : List Chunk → List CallDelta
pieces [] = []
pieces (no_choice ∷ cs) = pieces cs
pieces (choice content tcs ∷ cs) = tcs ++ pieces cs

accumulate-append :
    (ds es : List CallDelta) (calls : Calls)
    → accumulate (ds ++ es) calls ≡ accumulate es (accumulate ds calls)
unfolding accumulate
accumulate-append [] es calls = refl
accumulate-append (d ∷ ds) es calls = accumulate-append ds es (take_delta d calls)

-- A stream yields one text for each chunk with a choice, in order, then the calls that all the
-- pieces make up, whatever the chunks that they came in, and then the mark of the end.
pub stream_chat_lem :
    (cs : List Chunk) (calls : Calls)
    → stream_chat cs calls ≡ texts cs ++ call_chunks (map (λ c. c.1) (accumulate (pieces cs) calls))
unfolding stream_chat
stream_chat_lem [] calls = unfold accumulate in refl
stream_chat_lem (no_choice ∷ cs) calls = stream_chat_lem cs calls
stream_chat_lem (choice content tcs ∷ cs) calls =
    ap (◌∷◌ (text_chunk (or_empty content)))
      (rw (accumulate-append tcs (pieces cs) calls) (stream_chat_lem cs (accumulate tcs calls)))

-- The arguments of the call at an index, empty if there is none.
abbrev pub arguments_at : ℕ → Calls → String
arguments_at i [] = ""
arguments_at i ((j, call) ∷ calls) = if j == i then call.arguments else arguments_at i calls

-- Whether a call or a piece has the index.
abbrev pub has_index : ℕ → Calls → Bool
has_index i [] = false
has_index i ((j, call) ∷ calls) = j == i || has_index i calls

abbrev pub mentions : ℕ → List CallDelta → Bool
mentions i [] = false
mentions i (d ∷ ds) = d.index == i || mentions i ds

-- What the pieces with an index say of the arguments.
abbrev pub said_at : ℕ → List CallDelta → String
said_at i [] = ""
said_at i (d ∷ ds) =
    if d.index == i then cat (or_empty d.arguments) (said_at i ds) else said_at i ds

take_delta-arguments_at :
    (i : ℕ) (d : CallDelta) (calls : Calls)
    → arguments_at i (take_delta d calls) ≡ (
        if d.index == i
        then cat (arguments_at i calls) (or_empty d.arguments)
        else arguments_at i calls)
unfolding take_delta
take_delta-arguments_at i d [] = ground arith
take_delta-arguments_at i d ((j, call) ∷ calls) = ground (arith, take_delta-arguments_at i d calls)

take_delta-has_index :
    (i : ℕ) (d : CallDelta) (calls : Calls)
    → has_index i (take_delta d calls) ≡ (d.index == i || has_index i calls)
unfolding take_delta
take_delta-has_index i d [] = ground arith
take_delta-has_index i d ((j, call) ∷ calls) = ground (arith, take_delta-has_index i d calls)

accumulate-arguments_at :
    (i : ℕ) (ds : List CallDelta) (calls : Calls)
    → arguments_at i (accumulate ds calls) ≡ cat (arguments_at i calls) (said_at i ds)
unfolding accumulate
accumulate-arguments_at i [] calls = sym (TextLemmas.append-nil (arguments_at i calls))
accumulate-arguments_at i (d ∷ ds) calls =
    let ih = accumulate-arguments_at i ds (take_delta d calls) in
    let one = take_delta-arguments_at i d calls in
    elim (Bool-cases (d.index == i)) [
      | inl e ↦
          rw (ih, one, e)
            (TextLemmas.append_assoc (arguments_at i calls) (or_empty d.arguments) (said_at i ds))
      | inr e ↦ rw (ih, one, e) refl
    ]

accumulate-has_index :
    (i : ℕ) (ds : List CallDelta) (calls : Calls)
    → has_index i (accumulate ds calls) ≡ (has_index i calls || mentions i ds)
unfolding accumulate
accumulate-has_index i [] calls = ground arith
accumulate-has_index i (d ∷ ds) calls =
    ground (arith, accumulate-has_index i ds (take_delta d calls), take_delta-has_index i d calls)

-- Whatever the order in which the pieces of several calls arrive, there is a call for exactly the
-- indices that some piece has, and its arguments are the pieces' arguments with its index, joined
-- in their order.
pub accumulate_lem :
    (i : ℕ) (ds : List CallDelta)
    → (arguments_at i (accumulate ds []) ≡ said_at i ds)
      × (has_index i (accumulate ds []) ≡ mentions i ds)
accumulate_lem i ds = (
  accumulate-arguments_at i ds [] ∙ TextLemmas.nil-append (said_at i ds),
  accumulate-has_index i ds [],
)
