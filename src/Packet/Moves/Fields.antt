-- ===== src/Packet/Moves/Fields.antt =====
-- What calls of a `JsonWriter` do that write a field of a header as the value of a property.
use cheaproute.Prelude.{ℕ, ◌<◌, ◌^◌, List, All, IsByte, arith}
use cheaproute.Prelude.Int.{ℤ}
use cheaproute.JsonWriter.{JsonWriterMode, object_property_name, object_property_value}
use cheaproute.JsonWriter.Values.{named}
use cheaproute.Packet.Fields.{byte, u16, u32, ip4_text}
use cheaproute.Packet.Texts.{byte-small, u16-small, u32-small, ip4_text-All}
use cheaproute.Packet.Writing.{int, uint, text}
use cheaproute.Packet.Landing.{at}
use cheaproute.Packet.Moves.{Moves, int-Moves, uint-Moves, text-Moves}

module _ {P : Type 0} (h : List ℕ) (i : ℕ) (b : P → All IsByte h) where
  pub byte_fits : P → byte h i < 2 ^ 63
  byte_fits q = omega (arith, byte-small h i (b q))

  pub u16_fits : P → u16 h i < 2 ^ 63
  u16_fits q = omega (arith, u16-small h i (b q))

  pub u32_fits : P → u32 h i < 2 ^ 63
  u32_fits q = omega (arith, u32-small h i (b q))

module _ {P : Type 0} {st : List JsonWriterMode} {p : ℤ} (h : List ℕ) (i : ℕ)
    (b : P → All IsByte h) where
  pub byte-Moves :
      Moves P (at object_property_value st p) (at object_property_name st p) (int (byte h i))
  byte-Moves = int-Moves named (byte h i) tt (byte_fits h i b)

  pub u16-Moves :
      Moves P (at object_property_value st p) (at object_property_name st p) (int (u16 h i))
  u16-Moves = int-Moves named (u16 h i) tt (u16_fits h i b)

  pub u32-Moves :
      Moves P (at object_property_value st p) (at object_property_name st p) (uint (u32 h i))
  u32-Moves = uint-Moves named (u32 h i) tt (u32_fits h i b)

  pub address-Moves :
      Moves P (at object_property_value st p) (at object_property_name st p) (text (ip4_text h i))
  address-Moves = text-Moves named (ip4_text h i) (λ q. ip4_text-All h i (b q))
