-- ===== src/ShortTerm/Tests.antt =====
-- The buffer on concrete histories.
use yellowbullv.Shared.{ℕ, ◌≡◌, refl, List, [], ◌∷◌}
use yellowbullv.ShortTerm.{init, append, get_recent, append_all}
use yellowbullv.ShortTerm.Recent.{get_recent-append_all}

abbrev history : List ℕ
history = 1 ∷ 2 ∷ 3 ∷ 4 ∷ []

get_recent-append_all_example : get_recent 2 (append_all history (init 3)) ≡ 3 ∷ 4 ∷ []
get_recent-append_all_example = get_recent-append_all 3 2 history

-- A limit of 0 answers the whole buffer.
recent_zero : get_recent 0 (append_all history (init 3)) ≡ 2 ∷ 3 ∷ 4 ∷ []
unfolding get_recent append_all init append
recent_zero = refl
