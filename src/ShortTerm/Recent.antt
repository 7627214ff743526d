-- ===== src/ShortTerm/Recent.antt =====
-- The buffer against the whole history of what was appended.
use yellowbullv.Shared.{
  ℕ, zero, suc, ◌+◌, ◌-◌, ◌≤◌, max, min, ◌≡◌, refl, sym, ap, ◌∙◌, List, [], ◌∷◌, ◌++◌, arith,
  length, drop, length-append, length-drop, append-nil, append_assoc, if◌then◌else◌, ◌==◌,
  Bool-cases, inl, inr,
}
use yellowbullv.ShortTerm.{ShortTermMemory, init, append, get_recent, append_all}

module _ {ℓ} {M : Type ℓ} where
  drop-nil : (n : ℕ) → drop {A = M} n [] ≡ []
  drop-nil zero = refl
  drop-nil (suc n) = refl

  drop-drop : (i j : ℕ) (xs : List M) → drop i (drop j xs) ≡ drop (j + i) xs
  drop-drop i zero xs = ap (λ n. drop n xs) (omega arith)
  drop-drop i (suc j) [] = drop-nil i ∙ sym (drop-nil (suc j + i))
  drop-drop i (suc j) (x ∷ xs) =
      let e : suc j + i ≡ suc (j + i) = omega arith in rw e (drop-drop i j xs)

  drop-append : (j : ℕ) (xs ys : List M) → j ≤ length xs → drop j xs ++ ys ≡ drop j (xs ++ ys)
  drop-append zero xs ys h = refl
  drop-append (suc j) [] ys h = absurd (omega arith)
  drop-append (suc j) (x ∷ xs) ys h = drop-append j xs ys (omega arith)

  -- The last entries of a history, as many as fit.
  abbrev pub window : ℕ → List M → List M
  window cap history = drop (length history - cap) history

  length-window : (cap : ℕ) (h : List M) → length (window cap h) ≡ min cap (length h)
  length-window cap h = omega (arith, length-drop (length h - cap) h)

  -- A narrower window on a window.
  window-window : (a b : ℕ) (h : List M) → window a (window b h) ≡ window (min a b) h
  window-window a b h =
      let n : length h - b + (length (window b h) - a) ≡ length h - min a b =
        omega (arith, length-window b h) in
      drop-drop (length (window b h) - a) (length h - b) h ∙ ap (λ k. drop k h) n

  window-append :
      (cap : ℕ) (h : List M) (m : M)
      → window cap (window cap h ++ m ∷ []) ≡ window cap (h ++ m ∷ [])
  window-append cap h m =
      let moved = drop-append (length h - cap) h (m ∷ []) (omega arith) in
      let n : length h - cap + (length (window cap h ++ m ∷ []) - cap)
          ≡ length (h ++ m ∷ []) - cap =
        omega (
          arith,
          length-append (window cap h) (m ∷ []),
          length-append h (m ∷ []),
          length-window cap h,
        ) in
      ap (drop (length (window cap h ++ m ∷ []) - cap)) moved
      ∙ drop-drop (length (window cap h ++ m ∷ []) - cap) (length h - cap) (h ++ m ∷ [])
      ∙ ap (λ k. drop k (h ++ m ∷ [])) n

  append_all-window :
      (ms h : List M) (s : ShortTermMemory M)
      → s.messages ≡ window s.cap h
      → ((append_all ms s).messages ≡ window s.cap (h ++ ms)) × ((append_all ms s).cap ≡ s.cap)
  unfolding append_all append
  append_all-window [] h s e = (e ∙ ap (window s.cap) (sym (append-nil h)), refl)
  append_all-window (m ∷ ms) h s e =
      let s' = append m s in
      let kept : s'.messages ≡ window s.cap (h ++ m ∷ []) =
        ap (λ xs. window s.cap (xs ++ m ∷ [])) e ∙ window-append s.cap h m in
      let (rest, same) = append_all-window ms (h ++ m ∷ []) s' kept in
      (rest ∙ ap (window s.cap) (append_assoc h (m ∷ []) ms), same)

  -- After any sequence of appends to a new memory, `get_recent` answers the last messages of the
  -- whole sequence, oldest first: as many as the limit and the capacity (at least 1) both allow; with
  -- limit 0 it answers as many as the capacity allows.
  pub get_recent-append_all :
      (capacity limit : ℕ) (ms : List M)
      → get_recent limit (append_all ms (init capacity))
        ≡ window (if limit == 0 then max capacity 1 else min limit (max capacity 1)) ms
  unfolding get_recent init
  get_recent-append_all capacity limit ms =
      let kept =
        (append_all-window ms [] (init capacity) (sym (drop-nil (0 - max capacity 1)))).0 in
      elim (Bool-cases (limit == 0)) [
        | inl e ↦ rw e kept
        | inr e ↦ rw e (ap (window limit) kept ∙ window-window limit (max capacity 1) ms)
      ]
