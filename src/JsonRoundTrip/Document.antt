-- ===== src/JsonRoundTrip/Document.antt =====
-- A whole document: all that base/json_writer.cc prints in a run, read by `while (reader.Next())`.
use cheaproute.Prelude.{
  ℕ, zero, suc, ◌≤◌, ◌<◌, ◌≡◌, refl, sym, ◌∙◌, ap, subst, Bool, true, false, none, some, Option,
  List, [], ◌∷◌, ◌++◌, append-nil, append_assoc, map, All, arith, length, length-append,
}
use cheaproute.JsonReader.Text.{no_error}
use cheaproute.JsonReader.State.{
  JsonReader, JsonToken, no_token, start_array, end_array, start_object, end_object, property_name,
  string_token, integer, float, boolean, null,
}
use cheaproute.JsonReader.{next, new_reader, skip_whitespace, skipping}
use cheaproute.JsonWriter.{JsonWriter, JsonWriterMode, new_writer, begin_pack, end_pack}
use cheaproute.JsonRoundTrip.Scans.{EndsNumber}
use cheaproute.JsonRoundTrip.Values.{IsSpace}
use cheaproute.JsonRoundTrip.Calls.{
  Call, opens_array, closes_array, opens_object, closes_object, name, text, number, truth, nothing,
  perform, IsReadable, Prints, done, pack, unpack, call, seen, seen_as, read_all,
}
use cheaproute.JsonRoundTrip.Written.{ready, IsResumed, IsInside, Awaits, StaysInside, Ends, Step}
use cheaproute.JsonRoundTrip.ContainerSteps.{opens_array-Step, opens_object-Step}
use cheaproute.JsonRoundTrip.ValueSteps.{written-Step}
use cheaproute.JsonRoundTrip.NameSteps.{name-Step}
use cheaproute.JsonRoundTrip.ClosingSteps.{closes_array-Step, closes_object-Step}

skip_whitespace-IsSpace : (pad : List ℕ) → All IsSpace pad → skip_whitespace pad ≡ none
unfolding skip_whitespace
skip_whitespace-IsSpace [] h = refl
skip_whitespace-IsSpace (ch ∷ pad) h = rw (h.0) (skip_whitespace-IsSpace pad h.1)

inside_ends :
    (bytes rest : List ℕ) → 0 < length bytes → EndsNumber bytes → EndsNumber (bytes ++ rest)
inside_ends [] rest h e = absurd (omega arith)
inside_ends (ch ∷ bytes) rest h e = e

stays_Ends :
    (c : Call) (m : _) (rest : List ℕ)
    → StaysInside c m
    → (IsInside m → EndsNumber rest)
    → Ends c rest
stays_Ends (number v) m rest h f = f h
stays_Ends opens_array m rest h f = tt
stays_Ends closes_array m rest h f = tt
stays_Ends opens_object m rest h f = tt
stays_Ends closes_object m rest h f = tt
stays_Ends (name str) m rest h f = tt
stays_Ends (text str) m rest h f = tt
stays_Ends (truth b) m rest h f = tt
stays_Ends nothing m rest h f = tt

-- What is seen does not depend on the stream or the modes.
seen-ready :
    (t k : JsonToken) (r : JsonReader) (m : JsonWriterMode) (modes : List JsonWriterMode)
    (stream : List ℕ)
    → seen_as t (ready r m modes k stream) ≡ seen_as t r
seen-ready no_token k r m modes stream = refl
seen-ready start_array k r m modes stream = refl
seen-ready end_array k r m modes stream = refl
seen-ready start_object k r m modes stream = refl
seen-ready end_object k r m modes stream = refl
seen-ready property_name k r m modes stream = refl
seen-ready string_token k r m modes stream = refl
seen-ready integer k r m modes stream = refl
seen-ready float k r m modes stream = refl
seen-ready boolean k r m modes stream = refl
seen-ready null k r m modes stream = refl

module _ (strtod_overflows : List ℕ → Bool) where
  perform-Step :
      (c : Call) (w w' : JsonWriter)
      → All IsResumed w.mode_stack
      → IsReadable w c
      → perform c w ≡ some w'
      → Step strtod_overflows c w w'
  perform-Step opens_array w w' s h e = opens_array-Step strtod_overflows w w' s h e
  perform-Step closes_array w w' s h e = closes_array-Step strtod_overflows w w' s e
  perform-Step opens_object w w' s h e = opens_object-Step strtod_overflows w w' s h e
  perform-Step closes_object w w' s h e = closes_object-Step strtod_overflows w w' s e
  perform-Step (name str) w w' s h e = name-Step strtod_overflows str w w' s h e
  perform-Step (text str) w w' s h e = written-Step strtod_overflows (text str) w w' s h e tt
  perform-Step (number v) w w' s h e = written-Step strtod_overflows (number v) w w' s h e tt
  perform-Step (truth b) w w' s h e = written-Step strtod_overflows (truth b) w w' s h e tt
  perform-Step nothing w w' s h e = written-Step strtod_overflows nothing w w' s h e tt

  -- What the loop gives: an event for each call, and the end of the stream with no error.
  pub record Ending (calls : List Call) (before : JsonReader) (a : List (Option Call) × JsonReader)
      : Type 0 where
    pub last : JsonReader
    pub gives : a ≡ (map some calls, last)
    pub ends : last.stream ≡ []
    pub no_error : last.error_code ≡ before.error_code

  pub record Reads (w : JsonWriter) (calls : List Call) (w' : JsonWriter) : Type 0 where
    pub bytes : List ℕ
    pub prints : w'.out ≡ w.out ++ bytes
    pub ends_number : IsInside w.mode → EndsNumber bytes
    pub enough : length calls ≤ length bytes
    pub reads :
        (r : JsonReader) (t : JsonToken) (pad : List ℕ) (fuel : ℕ)
        → Awaits w.mode t
        → All IsSpace pad
        → length calls < fuel
        → Ending calls r
            (read_all strtod_overflows fuel (ready r w.mode w.mode_stack t (pad ++ bytes)))

  next-end :
      (r : JsonReader) (pad : List ℕ)
      → All IsSpace pad
      → next strtod_overflows (record r { stream = pad }) ≡ (false, record r { stream = [] })
  unfolding next skipping
  next-end r pad h = rw (skip_whitespace-IsSpace pad h, skipping) refl

  done-Reads : (w : JsonWriter) → Reads w [] w
  done-Reads w = record {
    bytes = [];
    prints = sym (append-nil w.out);
    ends_number = λ _. tt;
    enough = omega arith;
    reads = λ r t pad fuel a p f. stop r t pad fuel p f;
  }
    where
      stop :
          (r : JsonReader) (t : JsonToken) (pad : List ℕ) (fuel : ℕ)
          → All IsSpace pad
          → 0 < fuel
          → Ending [] r (read_all strtod_overflows fuel (ready r w.mode w.mode_stack t (pad ++ [])))
      stop r t pad zero p f = absurd (omega arith)
      stop r t pad (suc fuel) p f = record {
        last = ready r w.mode w.mode_stack t [];
        gives =
            unfold read_all in
            rw (append-nil pad)
              (rw (next-end (ready r w.mode w.mode_stack t []) pad p, read_all) refl);
        ends = refl;
        no_error = refl;
      }

  read_step :
      (fuel : ℕ) (c : Call) (calls : List Call) (before r r' : JsonReader)
      → next strtod_overflows r ≡ (true, r')
      → seen r' ≡ some c
      → Ending calls before (read_all strtod_overflows fuel r')
      → Ending (c ∷ calls) before (read_all strtod_overflows (suc fuel) r)
  read_step fuel c calls before r r' e s x = record {
    last = x.last;
    gives =
        unfold read_all in
        rw (e, read_all) (rw (x.gives) (ap (λ o. (o ∷ map some calls, x.last)) s));
    ends = x.ends;
    no_error = x.no_error;
  }

  call-Reads :
      (w v w' : JsonWriter) (c : Call) (calls : List Call)
      → Step strtod_overflows c w v
      → Reads v calls w'
      → Reads w (c ∷ calls) w'
  call-Reads w v w' c calls s x = record {
    bytes = s.bytes ++ x.bytes;
    prints = x.prints ∙ ap (λ o. o ++ x.bytes) s.prints ∙ append_assoc w.out s.bytes x.bytes;
    ends_number = λ i. inside_ends s.bytes x.bytes s.some_bytes (s.ends_number i);
    enough = omega (arith, length-append s.bytes x.bytes, s.some_bytes, x.enough);
    reads = go;
  }
    where
      ends : Ends c x.bytes
      ends = stays_Ends c v.mode x.bytes s.stays x.ends_number

      go :
          (r : JsonReader) (t : JsonToken) (pad : List ℕ) (fuel : ℕ)
          → Awaits w.mode t
          → All IsSpace pad
          → suc (length calls) < fuel
          → Ending (c ∷ calls) r (
              read_all strtod_overflows fuel
                (ready r w.mode w.mode_stack t (pad ++ (s.bytes ++ x.bytes))))
      go r t pad zero a p f = absurd (omega arith)
      go r t pad (suc fuel) a p f =
          let q = s.reads r t pad x.bytes a p ends in
          let y = x.reads q.reader q.token q.pad fuel q.awaits q.pad-IsSpace (omega arith) in
          read_step fuel c calls r _ _ q.returns
            (seen-ready q.token q.token q.reader v.mode v.mode_stack (q.pad ++ x.bytes) ∙ q.shows)
            (record {
              last = y.last;
              gives = y.gives;
              ends = y.ends;
              no_error = y.no_error ∙ q.no_error;
            })

  -- Where the printer stands among containers that were opened at a value, what it prints in a run is
  -- read as the calls.
  pub Prints-Reads :
      {w w' : JsonWriter} {calls : List Call}
      → Prints w calls w'
      → All IsResumed w.mode_stack
      → Reads w calls w'
  unfolding begin_pack end_pack
  Prints-Reads (done {w}) s = done-Reads w
  Prints-Reads (pack p) s =
      let x = Prints-Reads p s in
      record {
        bytes = x.bytes;
        prints = x.prints;
        ends_number = x.ends_number;
        enough = x.enough;
        reads = x.reads;
      }
  Prints-Reads (unpack p) s =
      let x = Prints-Reads p s in
      record {
        bytes = x.bytes;
        prints = x.prints;
        ends_number = x.ends_number;
        enough = x.enough;
        reads = x.reads;
      }
  Prints-Reads (call {w} {v} {w'} {c} {calls} h e p) s =
      let step = perform-Step c w v s h e in
      call-Reads w v w' c calls step (Prints-Reads p step.resumes)

  -- Whatever document the printer prints, indented or not and with values packed on a line or not, a
  -- new reader's `while (reader.Next())` sees exactly what the calls wrote, in their order, and stops
  -- at the end of the text with no error; provided that strings hold no zero byte, integers fit an
  -- `int64_t` and are written inside of a container, and no value stands where a name is due.
  pub read_all-Prints :
      (indent : Bool) {w : JsonWriter} {calls : List Call}
      → Prints (new_writer indent) calls w
      → (last : JsonReader) × (read_all strtod_overflows (suc (length w.out)) (new_reader w.out)
          ≡ (map some calls, last))
        × (last.stream ≡ [])
        × (last.error_code ≡ no_error)
  unfolding new_writer new_reader
  read_all-Prints indent {w} {calls} p =
      let x = Prints-Reads p tt in
      let y =
        x.reads (new_reader []) no_token [] (suc (length w.out)) tt tt
          (omega (arith, x.enough, ap length x.prints)) in
      (
        y.last,
        subst
            (λ t.
              read_all strtod_overflows (suc (length w.out)) (record (new_reader []) { stream = t })
              ≡ (map some calls, y.last))
            (sym x.prints) y.gives,
        y.ends,
        y.no_error,
      )
