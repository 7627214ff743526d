-- ===== src/Server/Stream/Replies.antt =====
-- A streamed reply in the form in which the providers send it: texts, then calls, then the end.
use text.Mathlib.TextLemmas
use yellowbullv.Shared.{
  String, ◌≡◌, refl, sym, ap, ◌∙◌, none, some, not, List, [], ◌∷◌, ◌++◌, map, filter, is_empty,
  str_or, str_eq_iff, cat, concat, Bool-cases, inl, inr,
}
use yellowbullv.Session.{assistant, ToolCall, Session}
use yellowbullv.Llm.{text_chunk, call_chunks}
use yellowbullv.Agent.{Services, AgentConfig, say}
use yellowbullv.Server.Stream.{event, session_event, stream_loop}

module _ (sv : Services) (cfg : AgentConfig) where
  open sv use {World}

  -- The session with the reply of this text.
  abbrev pub saved : String → Session → World → Session × World
  saved text s w = say sv cfg assistant (some (str_or text "(empty response)")) none none s w

  -- What the loop comes to: the events of these texts, and one that names the session.
  abbrev pub streamed : List String → String → Session → World → List String × Session × World
  streamed events text s w =
      (events ++ session_event (saved text s w).0 ∷ [], (saved text s w).0, (saved text s w).1)

  calls_lem :
      (full : String) (calls : List ToolCall) (s : Session) (w : World)
      → stream_loop sv cfg full (call_chunks calls) s w ≡ streamed [] full s w
  unfolding stream_loop call_chunks
  calls_lem full [] s w = refl
  calls_lem full (c ∷ calls) s w = calls_lem full calls s w

  texts_lem :
      (full : String) (texts : List String) (calls : List ToolCall) (s : Session) (w : World)
      → stream_loop sv cfg full (map text_chunk texts ++ call_chunks calls) s w
        ≡ streamed (map event (filter (λ t. not (is_empty t)) texts)) (cat full (concat texts)) s w
  unfolding stream_loop
  texts_lem full [] calls s w =
      calls_lem full calls s w ∙ ap (λ t. streamed [] t s w) (sym (TextLemmas.append-nil full))
  texts_lem full (t ∷ texts) calls s w = elim (Bool-cases (is_empty t)) [
    | inl e ↦
        let none_there = ap (λ x. cat x (concat texts)) ((str_eq_iff t "").0 e) in
        rw e (
          texts_lem full texts calls s w
          ∙ ap (λ x. streamed (map event (filter (λ t. not (is_empty t)) texts)) (cat full x) s w)
              (sym (none_there ∙ TextLemmas.nil-append (concat texts))))
    | inr e ↦ rw e (
        ap (λ (x : List String × Session × World). (event t ∷ x.0, x.1, x.2))
          (texts_lem (cat full t) texts calls s w
            ∙ ap (λ x. streamed (map event (filter (λ t. not (is_empty t)) texts)) x s w)
                (TextLemmas.append_assoc full t (concat texts))))
  ]

  -- Of a reply streamed as texts, then calls, then the end, each text that is not empty is sent on in an
  -- event of its own and in order, then one event that names the session; the session gains one
  -- assistant message with all the texts joined, or "(empty response)" where they are empty, and the
  -- calls are lost.
  pub stream_loop-chunks :
      (texts : List String) (calls : List ToolCall) (s : Session) (w : World)
      → stream_loop sv cfg "" (map text_chunk texts ++ call_chunks calls) s w
        ≡ streamed (map event (filter (λ t. not (is_empty t)) texts)) (concat texts) s w
  stream_loop-chunks texts calls s w =
      texts_lem "" texts calls s w
      ∙ ap (λ t. streamed (map event (filter (λ t. not (is_empty t)) texts)) t s w)
          (TextLemmas.nil-append (concat texts))
