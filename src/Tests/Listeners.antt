-- ===== src/Tests/Listeners.antt =====
-- base/broadcaster.h on concrete calls.
use cheaproute.Prelude.{◌≡◌, refl, [], ◌∷◌, List, arith}
use cheaproute.Broadcaster.{Call, adds, drops, run, listening, contains, without}
use cheaproute.Broadcaster.Registered.{Distinct, IsProper, registered, run-registered}

abbrev listener_calls : List Call
listener_calls = adds 3 ∷ adds 5 ∷ drops 3 ∷ adds 7 ∷ []

listener_calls-IsProper : IsProper listener_calls []
unfolding contains without
listener_calls-IsProper = (omega arith, refl, (omega arith, refl, (refl, (omega arith, refl, tt))))

listeners_left : registered listener_calls [] ≡ 5 ∷ 7 ∷ []
unfolding registered without
listeners_left = refl

run-registered_example :
    (run listener_calls (listening []) ≡ listening (registered listener_calls []))
    × Distinct (registered listener_calls [])
run-registered_example = run-registered listener_calls [] tt listener_calls-IsProper
