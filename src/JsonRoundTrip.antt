-- ===== src/JsonRoundTrip.antt =====
-- What base/json_writer.cc prints, read by base/json_reader.cc.
pub mod Escapes
pub mod Strings
pub mod Digits
pub mod Scans
pub mod Integers
pub mod Values
pub mod Numerals
pub mod Calls
pub mod Written
pub mod Places
pub mod ContainerSteps
pub mod ValueSteps
pub mod NameSteps
pub mod ClosingSteps
pub mod Document
