-- ===== src/Middleware/RateLimit/Window.antt =====
-- The sliding window of the rate limiter against the whole history of a user's admitted requests.
use yellowbullv.Shared.{
  ℕ, ◌≤◌, String, ◌≡◌, refl, ap, sym, ◌∙◌, Bool, true, false, List, [], ◌∷◌, ◌++◌, ◌&&◌, arith,
  if◌then◌else◌, filter, length, filter-append, str_eq, str_eq_iff, append_assoc, append-nil,
}
use yellowbullv.Dict.Laws.{lookup-insert}
use yellowbullv.Middleware.RateLimit.{RateLimit, bucket, is_recent, check_limit}

abbrev pub Event : Type 0
Event = String × ℕ

-- The limiter after a run of checks, and the times at which a user's requests were admitted in it.
unfoldable pub after : List Event → RateLimit → RateLimit
after [] m = m
after ((v, t) ∷ es) m = after es (check_limit v t m).1

unfoldable pub admitted : String → List Event → RateLimit → List ℕ
admitted u [] m = []
admitted u ((v, t) ∷ es) m =
    let rest = admitted u es (check_limit v t m).1 in
    if (check_limit v t m).0 && str_eq v u then t ∷ rest else rest

-- The clock does not run backwards.
abbrev pub Ordered : ℕ → List Event → Type 0
Ordered last [] = Unit
Ordered last ((v, t) ∷ es) = (last ≤ t) × Ordered t es

-- the time of the last check, or `last` if there is none
abbrev pub end_time : ℕ → List Event → ℕ
end_time last [] = last
end_time last ((v, t) ∷ es) = end_time t es

module _ (window now later : ℕ) (le : now ≤ later) where
  filter-filter_recent :
      (ts : List ℕ)
      → filter (is_recent window later) (filter (is_recent window now) ts)
        ≡ filter (is_recent window later) ts
  filter-filter_recent [] = refl
  filter-filter_recent (t ∷ ts) = ground (arith, filter-filter_recent ts)

-- The bucket holds what the window can still reach of the history `past`.
pub record Tracks (window last : ℕ) (ts past : List ℕ) : Type 0 where
  pub same : (n : ℕ) → last ≤ n → filter (is_recent window n) ts ≡ filter (is_recent window n) past

Tracks-later :
    {window last now : ℕ} {ts past : List ℕ}
    → last ≤ now
    → Tracks window last ts past
    → Tracks window now ts past
Tracks-later le t = record { same = λ n h. t.same n (omega arith) }

module _ {window last : ℕ} {ts past : List ℕ} (now : ℕ) (le : last ≤ now)
    (tr : Tracks window last ts past) where
  Tracks-refused : Tracks window now (filter (is_recent window now) ts) past
  Tracks-refused = record {
    same = λ n h. filter-filter_recent window now n h ts ∙ tr.same n (omega arith);
  }

  Tracks-admitted :
      Tracks window now (filter (is_recent window now) ts ++ now ∷ []) (past ++ now ∷ [])
  Tracks-admitted = record {
    same = λ n h. rw (
      filter-append (is_recent window n) (filter (is_recent window now) ts) (now ∷ []),
      filter-append (is_recent window n) past (now ∷ []),
      filter-filter_recent window now n h ts,
      tr.same n (omega arith),
    );
  }

  pub length-recent :
      length (filter (is_recent window now) ts) ≡ length (filter (is_recent window now) past)
  length-recent = ap length (tr.same now le)

-- What one check does to a user's bucket.
abbrev pub pruned : String → ℕ → RateLimit → List ℕ
pruned u now m = filter (is_recent m.window_seconds now) (bucket u m)

bucket-check_limit :
    (v u : String) (t : ℕ) (m : RateLimit)
    → bucket u (check_limit v t m).1 ≡ (
        if str_eq v u
        then (if (check_limit v t m).0 then pruned u t m ++ t ∷ [] else pruned u t m)
        else bucket u m)
unfolding bucket check_limit
bucket-check_limit v u t m = ground (
  arith,
  str_eq_iff v u,
  lookup-insert v u (pruned v t m) m.buckets,
  lookup-insert v u (pruned v t m ++ t ∷ []) m.buckets,
)

pub window-check_limit :
    (v : String) (t : ℕ) (m : RateLimit)
    → ((check_limit v t m).1.window_seconds ≡ m.window_seconds)
      × ((check_limit v t m).1.max_requests ≡ m.max_requests)
unfolding check_limit
window-check_limit v t m = ground arith

pub window-after :
    (es : List Event) (m : RateLimit)
    → ((after es m).window_seconds ≡ m.window_seconds)
      × ((after es m).max_requests ≡ m.max_requests)
unfolding after
window-after [] m = (refl, refl)
window-after ((v, t) ∷ es) m =
    let (a, b) = window-after es (check_limit v t m).1 in
    let (c, d) = window-check_limit v t m in (a ∙ c, b ∙ d)

abbrev pub noted : Bool → List ℕ → ℕ → List ℕ
noted true past t = past ++ t ∷ []
noted false past t = past

pub Tracks-check_limit :
    (u v : String) (last t : ℕ) (m : RateLimit) (past : List ℕ)
    → last ≤ t
    → Tracks m.window_seconds last (bucket u m) past
    → Tracks m.window_seconds t
        (bucket u (check_limit v t m).1)
        (noted ((check_limit v t m).0 && str_eq v u) past t)
Tracks-check_limit u v last t m past le tr =
    rw (bucket-check_limit v u t m) (cases (check_limit v t m).0 (str_eq v u))
  where
    cases :
        (ok same : Bool)
        → Tracks m.window_seconds t
            (if same then (if ok then pruned u t m ++ t ∷ [] else pruned u t m) else bucket u m)
            (noted (ok && same) past t)
    cases true true = Tracks-admitted t le tr
    cases false true = Tracks-refused t le tr
    cases true false = Tracks-later le tr
    cases false false = Tracks-later le tr

pub noted-append :
    (ok : Bool) (past : List ℕ) (t : ℕ) (rest : List ℕ)
    → past ++ (if ok then t ∷ rest else rest) ≡ noted ok past t ++ rest
noted-append true past t rest = sym (append_assoc past (t ∷ []) rest)
noted-append false past t rest = refl

pub Tracks-after :
    (u : String) (es : List Event) (last : ℕ) (m : RateLimit) (past : List ℕ)
    → Ordered last es
    → Tracks m.window_seconds last (bucket u m) past
    → Tracks m.window_seconds (end_time last es) (bucket u (after es m)) (past ++ admitted u es m)
unfolding after admitted
Tracks-after u [] last m past o tr = rw (append-nil past) tr
Tracks-after u ((v, t) ∷ es) last m past (le, o) tr =
    let step = Tracks-check_limit u v last t m past le tr in
    let m' = (check_limit v t m).1 in
    let ok = (check_limit v t m).0 && str_eq v u in
    rw (noted-append ok past t (admitted u es m')) (
      rw (window-check_limit v t m).0 at
        (Tracks-after u es t m' (noted ok past t) o (rw (window-check_limit v t m).0 step)))
