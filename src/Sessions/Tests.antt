-- ===== src/Sessions/Tests.antt =====
-- The session manager over the in-memory adapter, on concrete stores.
use yellowbullv.Shared.{◌≡◌, refl, none, some, true, [], ◌∷◌, arith}
use yellowbullv.Dict.{Dict, lookup}
use yellowbullv.Dict.Laws.{IsDistinct}
use yellowbullv.Session.{Session, fresh_session}
use yellowbullv.Sessions.{create, get, delete_session, cleanup}
use yellowbullv.Sessions.Laws.{session_life}
use yellowbullv.Sessions.Memory.{memory, memory_laws}

abbrev mine : Session
mine = fresh_session "a" "me" 1 1

abbrev hers : Session
hers = fresh_session "b" "her" 2 2

abbrev both : Dict Session
both = ("a", mine) ∷ ("b", hers) ∷ []

both-IsDistinct : IsDistinct both
unfolding lookup
both-IsDistinct = (refl, (refl, tt))

session_life_example :
    (get memory "c" (cleanup memory 5 none 9 (create memory "c" "me" 4 4 both).1).1
      ≡ some (create memory "c" "me" 4 4 both).0)
    × ((delete_session memory "c" (create memory "c" "me" 4 4 both).1).0 ≡ true)
    × (get memory "c" (delete_session memory "c" (create memory "c" "me" 4 4 both).1).1 ≡ none)
session_life_example =
    session_life memory IsDistinct memory_laws "c" "me" 4 4 9 5 both both-IsDistinct (omega arith)
