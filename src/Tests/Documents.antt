-- ===== src/Tests/Documents.antt =====
-- A whole document of base/json_writer.cc, read by base/json_reader.cc.
use cheaproute.Prelude.{
  ℕ, suc, ◌≡◌, ◌≢◌, refl, arith, Bool, true, false, some, List, [], ◌∷◌, ascii, length, map,
}
use cheaproute.Prelude.Int.{negsuc}
use cheaproute.JsonReader.State.{JsonReader}
use cheaproute.JsonReader.Text.{no_error}
use cheaproute.JsonReader.{new_reader}
use cheaproute.JsonWriter.{
  JsonWriter, document_start, start_array, start_object, middle_array, object_property_value,
  new_writer, begin_pack, end_pack,
}
use cheaproute.JsonWriter.Text.{digits, quoted, escaped_text, decimal, signed_decimal}
use cheaproute.JsonRoundTrip.Calls.{
  Call, opens_array, closes_array, opens_object, closes_object, name, text, number, truth, nothing,
  perform, Prints, done, pack, unpack, call, read_all,
}
use cheaproute.JsonRoundTrip.Document.{read_all-Prints}

abbrev calls : List Call
calls =
    opens_array
    ∷ number (negsuc 19)
    ∷ opens_object
    ∷ name (ascii "ip")
    ∷ text (ascii "a\"\n")
    ∷ name []
    ∷ nothing
    ∷ closes_object
    ∷ truth true
    ∷ closes_array
    ∷ []

no_brace_top : document_start ≢ start_object
no_brace_top e = cc

no_brace_first : start_array ≢ start_object
no_brace_first e = cc

no_brace_later : middle_array ≢ start_object
no_brace_later e = cc

no_brace_named : object_property_value ≢ start_object
no_brace_named e = cc

inside : start_array ≢ document_start
inside e = cc

-- The printer at the end of the calls, with a part of them packed.
printed : (w : JsonWriter) × Prints (new_writer true) calls w
unfolding perform new_writer begin_pack end_pack quoted escaped_text decimal signed_decimal
printed = (
  _,
  call no_brace_top refl (
      call (no_brace_first, inside, omega arith) refl
        (call no_brace_later refl (
          pack (
            call (omega arith) refl (
              call (no_brace_named, omega arith) refl
                (call tt refl (
                  unpack (
                    call no_brace_named refl
                      (call tt refl (call no_brace_later refl (call tt refl done))))))))))),
)

printed_text :
    printed.0.out ≡ ascii "[\n  -20,\n  {\"ip\": \"a\\\"\\n\", \"\": null\n  },\n  true\n]"
unfolding printed digits
printed_text = refl

no_float : List ℕ → Bool
no_float digits = false

read_all-Prints_example :
    (last : JsonReader) × (read_all no_float (suc (length printed.0.out)) (new_reader printed.0.out)
      ≡ (map some calls, last))
    × (last.stream ≡ [])
    × (last.error_code ≡ no_error)
read_all-Prints_example = read_all-Prints no_float true printed.1
