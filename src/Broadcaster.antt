-- ===== src/Broadcaster.antt =====
-- base/broadcaster.h: `Broadcaster` and the handle that `AddListener` returns. A listener is its
-- address, 0 for NULL.
pub mod Registered
use cheaproute.Prelude.{
  ℕ, ◌+◌, Bool, true, false, ◌||◌, List, [], ◌∷◌, ◌++◌, ◌==◌, if◌then◌else◌, length, drop,
}

-- The vector of a broadcaster; or an `assert` or a check has failed, `erase` was called with the
-- end of the vector, or the broadcaster is gone.
pub data Registry : Type 0 where
  listening : List ℕ → Registry
  refused : Registry
  undefined : Registry
  gone : Registry

-- `std::find`, compared with the end.
unfoldable pub contains : ℕ → List ℕ → Bool
contains listener [] = false
contains listener (x ∷ xs) = x == listener || contains listener xs

-- What `std::remove` moves to the front.
unfoldable pub without : ℕ → List ℕ → List ℕ
without listener [] = []
without listener (x ∷ xs) =
    let rest = without listener xs in if x == listener then rest else x ∷ rest

-- `AddListener`
unfoldable pub add_listener : ℕ → Registry → Registry
unfolding contains
add_listener listener (listening xs) =
    if listener == 0
    then refused
    else if contains listener xs
    then refused
    else listening (xs ++ listener ∷ [])
add_listener listener refused = refused
add_listener listener undefined = undefined
add_listener listener gone = gone

-- `RemoveListener`: `erase` of the one position that `std::remove` returns.
unfoldable pub remove_listener : ℕ → List ℕ → Registry
unfolding without
remove_listener listener xs =
    let kept = without listener xs in
    if length kept == length xs then undefined else listening (kept ++ drop (length kept + 1) xs)

-- `~MyListenerHandle`
unfoldable pub destroy_handle : ℕ → Registry → Registry
unfolding remove_listener
destroy_handle listener (listening xs) = remove_listener listener xs
destroy_handle listener refused = refused
destroy_handle listener undefined = undefined
destroy_handle listener gone = gone

pub data Call : Type 0 where
  adds : ℕ → Call
  drops : ℕ → Call

unfoldable pub run : List Call → Registry → Registry
unfolding add_listener destroy_handle
run [] registry = registry
run (adds listener ∷ calls) registry = run calls (add_listener listener registry)
run (drops listener ∷ calls) registry = run calls (destroy_handle listener registry)
