-- ===== src/Programs/Running.antt =====
-- How a call within the event loop ends, and base/broadcaster.h, `Broadcast`.
use cheaproute.Prelude.{List, [], ◌∷◌}

-- The call returns, with the state; or the program is aborted; or the call does not return; or the
-- behaviour is undefined.
pub data Run {ℓ} (S : Type ℓ) : Type ℓ where
  runs : S → Run S
  aborts : Run S
  hangs : Run S
  undefined : Run S

abbrev pub and_then {ℓ κ} : {S : Type ℓ} {T : Type κ} → Run S → (S → Run T) → Run T
and_then (runs s) k = k s
and_then aborts k = aborts
and_then hangs k = hangs
and_then undefined k = undefined

-- `Broadcast`, of an action that leaves the vector of listeners alone.
unfoldable pub broadcast {ℓ κ} : {L : Type ℓ} {S : Type κ} → (L → S → Run S) → List L → S → Run S
broadcast action [] s = runs s
broadcast action (listener ∷ listeners) s =
    and_then (action listener s) (broadcast action listeners)
