-- ===== src/Middleware/RateLimit/Bounds.antt =====
-- The limiter's promise: its decision, read off the history, and the bound over every window.
use yellowbullv.Shared.{
  ℕ, ◌+◌, ◌≤◌, String, ◌≡◌, refl, Bool, true, false, List, [], ◌∷◌, ◌++◌, ◌&&◌, not, arith, ltb,
  leb, filter, length, filter-append, length-append, append-nil, str_eq, str_eq_iff,
}
use yellowbullv.Middleware.RateLimit.{RateLimit, bucket, is_recent, check_limit}
use yellowbullv.Middleware.RateLimit.Window.{
  Event, admitted, Ordered, Tracks, Tracks-check_limit, pruned, noted, noted-append, length-recent,
  window-check_limit,
}

decision-pruned :
    (u : String) (now : ℕ) (m : RateLimit)
    → (check_limit u now m).0 ≡ not (leb m.max_requests (length (pruned u now m)))
unfolding check_limit
decision-pruned u now m = ground arith

fresh-Tracks :
    (u : String) (last : ℕ) (m : RateLimit)
    → bucket u m ≡ []
    → Tracks m.window_seconds last (bucket u m) []
fresh-Tracks u last m e = record { same = λ n h. rw e }

-- `t` lies in the window that ends at `end`
abbrev pub in_window : ℕ → ℕ → ℕ → Bool
in_window window end t = leb t end && ltb end (t + window)

module _ (window end : ℕ) where
  length-in_window :
      (t : ℕ) (ts : List ℕ)
      → t ≤ end
      → length (filter (in_window window end) ts) ≤ length (filter (is_recent window t) ts)
  length-in_window t [] le = omega arith
  length-in_window t (x ∷ ts) le = ground (arith, length-in_window t ts le)

abbrev Fits : RateLimit → List ℕ → Type 0
Fits m ts = (end : ℕ) → length (filter (in_window m.window_seconds end) ts) ≤ m.max_requests

Fits-admitted :
    (u : String) (t last : ℕ) (m : RateLimit) (past : List ℕ)
    → last ≤ t
    → Tracks m.window_seconds last (bucket u m) past
    → (check_limit u t m).0 ≡ true
    → Fits m past
    → Fits m (past ++ t ∷ [])
Fits-admitted u t last m past le tr ok fits end =
    rw
      (
        filter-append (in_window m.window_seconds end) past (t ∷ []),
        length-append (filter (in_window m.window_seconds end) past)
            (filter (in_window m.window_seconds end) (t ∷ [])),
      )
      (ground (
        arith,
        fits end,
        length-in_window m.window_seconds end t past,
        decision-pruned u t m,
        length-recent t le tr,
      ))

Fits-noted :
    (u v : String) (t last : ℕ) (m : RateLimit) (past : List ℕ)
    → last ≤ t
    → Tracks m.window_seconds last (bucket u m) past
    → Fits m past
    → Fits m (noted ((check_limit v t m).0 && str_eq v u) past t)
Fits-noted u v t last m past le tr fits = cases ((check_limit v t m).0 && str_eq v u) refl
  where
    cases : (b : Bool) → ((check_limit v t m).0 && str_eq v u) ≡ b → Fits m (noted b past t)
    cases false e = fits
    cases true e = Fits-admitted u t last m past le tr (ground (arith, str_eq_iff v u)) fits

Fits-after :
    (u : String) (es : List Event) (last : ℕ) (m : RateLimit) (past : List ℕ)
    → Ordered last es
    → Tracks m.window_seconds last (bucket u m) past
    → Fits m past
    → Fits m (past ++ admitted u es m)
unfolding admitted
Fits-after u [] last m past o tr fits = rw (append-nil past) fits
Fits-after u ((v, t) ∷ es) last m past (le, o) tr fits =
    let m' = (check_limit v t m).1 in
    let ok = (check_limit v t m).0 && str_eq v u in
    let (w, x) = window-check_limit v t m in
    let tr' = Tracks-check_limit u v last t m past le tr in
    let fits' : Fits m' (noted ok past t) =
      λ end. rw (w, x) (Fits-noted u v t last m past le tr fits end) in
    rw (noted-append ok past t (admitted u es m'))
      λ end. rw (w, x) at (Fits-after u es t m' (noted ok past t) o (rw w tr') fits' end)

-- Over any run of checks with a clock that does not run backwards, on a limiter that has not seen
-- the user, no window of the configured length holds more than `max_requests` admitted requests of
-- the user, wherever the window ends.
pub admitted_bounded :
    (u : String) (es : List Event) (last : ℕ) (m : RateLimit) (end : ℕ)
    → bucket u m ≡ []
    → Ordered last es
    → length (filter (in_window m.window_seconds end) (admitted u es m)) ≤ m.max_requests
admitted_bounded u es last m end fresh o =
    Fits-after u es last m [] o (fresh-Tracks u last m fresh) (λ e. omega arith) end
