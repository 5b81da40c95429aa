-- ===== src/Tests/Streams.antt =====
-- base/stream.h and base/stream.cc on concrete inputs.
use cheaproute.Prelude.{ℕ, ◌≡◌, refl, none, some, List, [], ◌∷◌, ◌++◌, ascii, length, arith}
use cheaproute.Stream.{OutputStream, Appends, Delivers}
use cheaproute.Stream.Output.{
  WriteCall, write_char, write_block, flushes, BufferedOutputStream, flush, run, payloads, init,
}
use cheaproute.Stream.Output.Delivers.{run-delivers}
use cheaproute.Stream.Output.Blocks.{cut, recorder, run-cut}
use cheaproute.Stream.Input.{
  BufferedInputStream, read_char, peek_char, as_input_stream, unread, IsOpen,
}
use cheaproute.Stream.Input.Chars.{
  TakesFirst, ShowsFirst, read_char-TakesFirst, peek_char-ShowsFirst,
}
use cheaproute.Stream.Input.Blocks.{buffered-Delivers}
use cheaproute.Stream.Memory.{
  MemoryInputStream, open_memory, as_input, remaining, IsInside, memory-Delivers,
  MemoryOutputStream, fresh, shown, shown-write, write-write_overflows,
}
use cheaproute.Stream.File.{returned, write-resent}
use cheaproute.Stream

-- An output stream that keeps what it gets.
abbrev kept : OutputStream (List ℕ)
kept = record { write = λ bytes s. s ++ bytes; flush = λ s. s }

abbrev kept-Appends : Appends kept (λ s. s)
kept-Appends = record { contents-write = λ bytes s. refl; contents-flush = λ s. refl }

abbrev calls : List WriteCall
calls = write_char b'a' ∷ write_block (ascii "bcdef") ∷ flushes ∷ write_block (ascii "g") ∷ []

run-delivers_example :
    (b : BufferedOutputStream (List ℕ)) × (run kept calls (Stream.Output.init kept (ascii "x") 4)
      ≡ some b)
    × ((flush kept b).delegatee ≡ ascii "x" ++ payloads calls)
    × ((flush kept b).buffer ≡ [])
run-delivers_example = run-delivers kept (λ s. s) kept-Appends (ascii "x") 4 calls (omega arith)

-- A buffer of two bytes over five bytes in memory, of which one is buffered.
abbrev buffered : BufferedInputStream MemoryInputStream
buffered = record {
  delegatee = record { bytes = ascii "hello"; pos = 2 };
  window = ascii "l";
  capacity = 2;
}

buffered-IsOpen : IsOpen IsInside buffered
buffered-IsOpen = (omega arith, (omega arith, omega arith))

read_char-TakesFirst_example :
    TakesFirst as_input remaining IsInside memory-Delivers buffered (read_char as_input buffered)
read_char-TakesFirst_example =
    read_char-TakesFirst as_input remaining IsInside memory-Delivers buffered buffered-IsOpen

peek_char-ShowsFirst_example :
    ShowsFirst as_input remaining IsInside memory-Delivers buffered (peek_char as_input buffered)
peek_char-ShowsFirst_example =
    peek_char-ShowsFirst as_input remaining IsInside memory-Delivers buffered buffered-IsOpen

buffered-Delivers_example : Delivers (as_input_stream as_input) (unread remaining) (IsOpen IsInside)
buffered-Delivers_example = buffered-Delivers as_input remaining IsInside memory-Delivers

abbrev half_full : MemoryOutputStream
half_full = record { buffer = ascii "abcd"; pos = 2 }

shown-write_example :
    (m : MemoryOutputStream) × (Stream.Memory.write (ascii "yz") half_full ≡ some m)
    × (shown m ≡ shown half_full ++ ascii "yz")
    × (length m.buffer ≡ length half_full.buffer)
shown-write_example = shown-write (ascii "yz") half_full (omega arith)

write-write_overflows_example :
    (m : MemoryOutputStream) × (Stream.Memory.write (ascii "0123456789") fresh ≡ some m)
    × (Stream.Memory.write (ascii "abcdefghij") m ≡ none)
write-write_overflows_example =
    write-write_overflows (ascii "0123456789") (ascii "abcdefghij") (omega arith) (omega arith)
      (omega arith)

write-resent_example :
    Stream.File.write (some 2 ∷ some 1 ∷ some 3 ∷ []) (ascii "abcd")
    ≡ returned (ascii "aba" ++ ascii "abc")
write-resent_example =
    write-resent (2 ∷ 1 ∷ []) 3 [] (ascii "abcd") (omega arith, (omega arith, tt)) (omega arith)
      (omega arith)

abbrev printed : List WriteCall
printed = write_char b'[' ∷ write_block (ascii "false") ∷ write_char b']' ∷ []

run-cut_example :
    (b : BufferedOutputStream (List (List ℕ))) × (run recorder printed (init recorder [] 4096)
      ≡ some b)
    × ((flush recorder b).delegatee ≡ cut (payloads printed))
run-cut_example = run-cut printed (tt, (omega arith, (tt, tt)))
