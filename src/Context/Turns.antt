-- ===== src/Context/Turns.antt =====
-- core/context_builder.py: the grouping of messages into turns.
use yellowbullv.Shared.{
  ◌≡◌, refl, sym, ap, ◌∙◌, true, false, List, [], ◌∷◌, ◌++◌, append_assoc, append-nil, All,
  All-append, All-split, is_nonempty, Bool-cases, inl, inr, ◌&&◌,
}
use yellowbullv.Llm.{LlmMessage}
use yellowbullv.Context.{is_user, closed, group_turns, flat}

abbrev pub NoUser : List LlmMessage → Type 0
NoUser ms = All (λ m. is_user m ≡ false) ms

-- A turn is not empty, and a user speaks at its start or not at all in it.
abbrev pub IsTurn : List LlmMessage → Type 0
IsTurn [] = ⊥
IsTurn (m ∷ ms) = NoUser ms

abbrev pub IsUserTurn : List LlmMessage → Type 0
IsUserTurn [] = ⊥
IsUserTurn (m ∷ ms) = (is_user m ≡ true) × NoUser ms

-- Turns in a row: all but the first are opened by the user.
abbrev pub AreTurns : List (List LlmMessage) → Type 0
AreTurns [] = Unit
AreTurns (t ∷ ts) = IsTurn t × All IsUserTurn ts

pub flat-append : (ts us : List (List LlmMessage)) → flat (ts ++ us) ≡ flat ts ++ flat us
flat-append [] us = refl
flat-append (t ∷ ts) us = ap (◌++◌ t) (flat-append ts us) ∙ sym (append_assoc t (flat ts) (flat us))

flat-snoc : (ts : List (List LlmMessage)) (t : List LlmMessage) → flat (ts ++ t ∷ []) ≡ flat ts ++ t
flat-snoc ts t = flat-append ts (t ∷ []) ∙ ap (◌++◌ (flat ts)) (append-nil t)

flat-closed :
    (ts : List (List LlmMessage)) (t : List LlmMessage) → flat (closed ts t) ≡ flat ts ++ t
flat-closed ts [] = sym (append-nil (flat ts))
flat-closed ts (m ∷ t) = flat-snoc ts (m ∷ t)

flat-group_turns :
    (ts : List (List LlmMessage)) (t ms : List LlmMessage)
    → flat (group_turns ts t ms) ≡ flat ts ++ (t ++ ms)
unfolding group_turns
flat-group_turns ts t [] = flat-closed ts t ∙ ap (◌++◌ (flat ts)) (sym (append-nil t))
flat-group_turns ts t (m ∷ ms) = elim (Bool-cases (is_user m && is_nonempty t)) [
  | inl e ↦ rw e (
      flat-group_turns (ts ++ t ∷ []) (m ∷ []) ms
      ∙ ap (λ x. x ++ m ∷ ms) (flat-snoc ts t)
      ∙ append_assoc (flat ts) t (m ∷ ms))
  | inr e ↦
      rw e (flat-group_turns ts (t ++ m ∷ []) ms ∙ ap (◌++◌ (flat ts)) (append_assoc t (m ∷ []) ms))
]

AreTurns-longer :
    (ts : List (List LlmMessage)) (c m : LlmMessage) (cs : List LlmMessage)
    → is_user m ≡ false
    → AreTurns (ts ++ (c ∷ cs) ∷ [])
    → AreTurns (ts ++ (c ∷ cs ++ m ∷ []) ∷ [])
AreTurns-longer [] c m cs h a = (All-append (λ x. is_user x ≡ false) cs (m ∷ []) a.0 (h, tt), tt)
AreTurns-longer (t ∷ ts) c m cs h (a, b) =
    let (before, last) = All-split IsUserTurn ts ((c ∷ cs) ∷ []) b in
    (
      a,
      All-append IsUserTurn ts ((c ∷ cs ++ m ∷ []) ∷ []) before
          ((last.0.0, All-append (λ x. is_user x ≡ false) cs (m ∷ []) last.0.1 (h, tt)), tt),
    )

AreTurns-more :
    (ts : List (List LlmMessage)) (t : List LlmMessage) (m : LlmMessage)
    → is_user m ≡ true
    → AreTurns (ts ++ t ∷ [])
    → AreTurns ((ts ++ t ∷ []) ++ (m ∷ []) ∷ [])
AreTurns-more [] t m h (a, b) = (a, ((h, tt), tt))
AreTurns-more (u ∷ ts) t m h (a, b) =
    (a, All-append IsUserTurn (ts ++ t ∷ []) ((m ∷ []) ∷ []) b ((h, tt), tt))

AreTurns-group_turns :
    (ts : List (List LlmMessage)) (c : LlmMessage) (cs ms : List LlmMessage)
    → AreTurns (ts ++ (c ∷ cs) ∷ [])
    → AreTurns (group_turns ts (c ∷ cs) ms)
unfolding group_turns
AreTurns-group_turns ts c cs [] h = h
AreTurns-group_turns ts c cs (m ∷ ms) h = elim (Bool-cases (is_user m)) [
  | inl e ↦
      rw e (AreTurns-group_turns (ts ++ (c ∷ cs) ∷ []) m [] ms (AreTurns-more ts (c ∷ cs) m e h))
  | inr e ↦ rw e (AreTurns-group_turns ts c (cs ++ m ∷ []) ms (AreTurns-longer ts c m cs e h))
]

-- The turns hold exactly the given messages in their order, none of them is empty, a user speaks
-- only at the start of a turn, and every turn but the first starts with the user.
pub group_turns_lem :
    (ms : List LlmMessage) → (flat (group_turns [] [] ms) ≡ ms) × AreTurns (group_turns [] [] ms)
group_turns_lem ms = (flat-group_turns [] [] ms, turns ms)
  where
    turns : (ms : List LlmMessage) → AreTurns (group_turns [] [] ms)
    turns [] = unfold group_turns in tt
    turns (m ∷ ms) =
        unfold group_turns in
        elim (Bool-cases (is_user m)) [
          | inl e ↦ rw e (AreTurns-group_turns [] m [] ms (tt, tt))
          | inr e ↦ rw e (AreTurns-group_turns [] m [] ms (tt, tt))
        ]
