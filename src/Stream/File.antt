-- ===== src/Stream/File.antt =====
-- base/stream.h and base/stream.cc: `FileInputStream` and `FileOutputStream`. What the kernel answers
-- is an input: for `write(2)` a count of bytes taken, or an error, for `open(2)` and `read(2)` the
-- number that they return.
use cheaproute.Prelude.{
  ℕ, ◌+◌, ◌≤◌, ◌<◌, ◌≡◌, ap, ◌∙◌, Option, none, some, List, [], ◌∷◌, ◌++◌, arith, ltb, ◌==◌,
  if◌then◌else◌, lt→ltb, le→ltb, ne→==_false, length, take, take_all, Bool, true, zero, suc, refl,
  sym, append_assoc, append-nil,
}
use mathlib.Core.Option
use cheaproute.Prelude.Int.{ℤ, pos, negsuc}
use cheaproute.EventLoop.{check_fd_op, held}

-- `fd_` and `take_fd_ownership_`, which both classes have.
pub record FileStream : Type 0 where
  pub fd : ℤ
  pub take_fd_ownership : Bool

-- The constructors from a descriptor.
from_fd : ℤ → Bool → FileStream
from_fd fd take_fd_ownership = record { fd = fd; take_fd_ownership = take_fd_ownership }

-- `FileInputStream(const char*)`, by the answer of `open(2)`; none where the program aborts.
from_path : ℤ → Option FileStream
unfolding check_fd_op from_fd
from_path answer = Option.map (λ fd. from_fd fd true) (check_fd_op answer)

-- `FileInputStream::Read`, by the answer of `read(2)`.
read : ℤ → FileStream → Option ℤ
unfolding check_fd_op
read answer s = check_fd_op answer

-- The destructors: the descriptor that is closed.
destroy : FileStream → List ℤ
destroy s = if s.take_fd_ownership then s.fd ∷ [] else []

opened_and_closed : Option FileStream → List ℤ
unfolding destroy
opened_and_closed none = []
opened_and_closed (some s) = destroy s

-- A stream that opens a file closes the descriptor that it got, and there is none if that is -1.
from_path-closes : (answer : ℤ) → opened_and_closed (from_path answer) ≡ held answer
unfolding opened_and_closed destroy from_path check_fd_op from_fd
from_path-closes (pos n) = refl
from_path-closes (negsuc zero) = refl
from_path-closes (negsuc (suc n)) = refl

-- What the descriptor has received when the call returns, when the program aborts, or when the
-- answers given here have run out.
pub data Outcome : Type 0 where
  returned : List ℕ → Outcome
  aborted : List ℕ → Outcome
  waiting : List ℕ → Outcome

unfoldable pub write_loop : List (Option ℕ) → List ℕ → ℕ → List ℕ → Outcome
write_loop [] buf total received =
    if ltb total (length buf) then waiting received else returned received
write_loop (none ∷ answers) buf total received =
    if ltb total (length buf) then aborted received else returned received
write_loop (some bytes_written ∷ answers) buf total received =
    let received' = received ++ take bytes_written buf in
    let next = write_loop answers buf (total + bytes_written) received' in
    if ltb total (length buf)
    then (if bytes_written == 0 then aborted received' else next)
    else returned received

-- `FileOutputStream::Write`: each round passes `buf` to the kernel from its start.
unfoldable pub write : List (Option ℕ) → List ℕ → Outcome
unfolding write_loop
write answers buf = write_loop answers buf 0 []

write_loop_done :
    (answers : List (Option ℕ)) (buf : List ℕ) (total : ℕ) (received : List ℕ)
    → length buf ≤ total
    → write_loop answers buf total received ≡ returned received
unfolding write_loop
write_loop_done [] buf total received h = rw (le→ltb total (length buf) h)
write_loop_done (none ∷ answers) buf total received h = rw (le→ltb total (length buf) h)
write_loop_done (some n ∷ answers) buf total received h = rw (le→ltb total (length buf) h)

write_loop_goes_on :
    (n : ℕ) (answers : List (Option ℕ)) (buf : List ℕ) (total : ℕ) (received : List ℕ)
    → total < length buf
    → 0 < n
    → write_loop (some n ∷ answers) buf total received
      ≡ write_loop answers buf (total + n) (received ++ take n buf)
unfolding write_loop
write_loop_goes_on n answers buf total received h k =
    rw (lt→ltb total (length buf) h, ne→==_false n 0 (omega arith))

abbrev pub sum : List ℕ → ℕ
sum [] = 0
sum (n ∷ counts) = n + sum counts

abbrev pub AllPositive : List ℕ → Type 0
AllPositive [] = Unit {0}
AllPositive (n ∷ counts) = (0 < n) × AllPositive counts

abbrev pub answered : List ℕ → List (Option ℕ) → List (Option ℕ)
answered [] rest = rest
answered (n ∷ counts) rest = some n ∷ answered counts rest

-- The first bytes of the block once for each count.
abbrev pub resent : List ℕ → List ℕ → List ℕ
resent [] buf = []
resent (n ∷ counts) buf = take n buf ++ resent counts buf

write_loop-resent :
    (counts : List ℕ) (m : ℕ) (rest : List (Option ℕ)) (buf : List ℕ) (total : ℕ)
    (received : List ℕ)
    → AllPositive counts
    → total + sum counts < length buf
    → length buf ≤ total + sum counts + m
    → write_loop (answered counts (some m ∷ rest)) buf total received
      ≡ returned (received ++ (resent counts buf ++ take m buf))
write_loop-resent [] m rest buf total received p h k =
    write_loop_goes_on m rest buf total received (omega arith) (omega arith)
    ∙ write_loop_done rest buf (total + m) (received ++ take m buf) (omega arith)
write_loop-resent (n ∷ counts) m rest buf total received (positive, p) h k =
    write_loop_goes_on n (answered counts (some m ∷ rest)) buf total received (omega arith) positive
    ∙ write_loop-resent counts m rest buf (total + n) (received ++ take n buf) p (omega arith)
        (omega arith)
    ∙ ap returned (
        append_assoc received (take n buf) (resent counts buf ++ take m buf)
        ∙ ap (λ t. received ++ t)
            (sym (append_assoc (take n buf) (resent counts buf) (take m buf))))

-- `Write` returns once the counts that the kernel answers, none of them 0, reach the length of the
-- block. The descriptor has then received, for each count, that many bytes from the start of the
-- block: one after another, and not the bytes that follow.
pub write-resent :
    (counts : List ℕ) (m : ℕ) (rest : List (Option ℕ)) (buf : List ℕ)
    → AllPositive counts
    → sum counts < length buf
    → length buf ≤ sum counts + m
    → write (answered counts (some m ∷ rest)) buf ≡ returned (resent counts buf ++ take m buf)
unfolding write
write-resent counts m rest buf p h k =
    write_loop-resent counts m rest buf 0 [] p (omega arith) (omega arith)

-- A kernel that takes everything at once receives the block.
pub write_whole :
    (answers : List (Option ℕ)) (buf : List ℕ)
    → 0 < length buf
    → write (some (length buf) ∷ answers) buf ≡ returned buf
write_whole answers buf h =
    write-resent [] (length buf) answers buf tt h (omega arith)
    ∙ ap returned (take_all (length buf) buf (omega arith))

-- After a short write of `n` bytes the second round sends the start of the block again.
write_starts_again :
    (n m : ℕ) (answers : List (Option ℕ)) (buf : List ℕ)
    → 0 < n
    → n < length buf
    → length buf ≤ n + m
    → write (some n ∷ some m ∷ answers) buf ≡ returned (take n buf ++ take m buf)
write_starts_again n m answers buf h k e =
    write-resent (n ∷ []) m answers buf (h, tt) (omega arith) (omega arith)
    ∙ ap (λ t. returned (t ++ take m buf)) (append-nil (take n buf))
