-- ===== src/Stream.antt =====
-- base/stream.h: the abstract streams, and what their users rely on.
pub mod Output
pub mod Input
pub mod Memory
pub mod File
use cheaproute.Prelude.{ℕ, ◌≤◌, ◌<◌, ◌≡◌, List, [], ◌++◌, length}

-- `OutputStream`: the virtual functions, over the state `S` of an implementation.
pub record OutputStream (S : Type 0) : Type 0 where
  pub write : List ℕ → S → S
  pub flush : S → S

-- Everything written arrives, in order, and a flush writes nothing of its own.
pub record Appends {S : Type 0} (o : OutputStream S) (contents : S → List ℕ) : Type 0 where
  pub contents-write : (bytes : List ℕ) (s : S) → contents (o.write bytes s) ≡ contents s ++ bytes
  pub contents-flush : (s : S) → contents (o.flush s) ≡ contents s

-- The result of `Read`: the bytes stored, or a negative count.
pub data ReadResult : Type 0 where
  chunk : List ℕ → ReadResult
  failure : ReadResult

-- `InputStream`
pub record InputStream (S : Type 0) : Type 0 where
  pub read : ℕ → S → ReadResult × S

-- A read of `count` bytes takes at most that many off what is left, and none only at the end.
abbrev pub IsRead : {S : Type 0} → (S → List ℕ) → ℕ → S → ReadResult × S → Type 0
IsRead rest count s (chunk bytes, s') =
    (rest s ≡ bytes ++ rest s') × (length bytes ≤ count) × (0 < count → bytes ≡ [] → rest s ≡ [])
IsRead rest count s (failure, s') = ⊥

pub record Delivers {S : Type 0} (i : InputStream S) (rest : S → List ℕ) (Valid : S → Type 0)
    : Type 0 where
  pub read-IsRead : (count : ℕ) (s : S) → Valid s → IsRead rest count s (i.read count s)
  pub read-Valid : (count : ℕ) (s : S) → Valid s → Valid (i.read count s).1
