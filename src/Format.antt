-- ===== src/Format.antt =====
-- src/rm/format.h, the integer formatter, and the calls of it in os_format.c and nvkms_format.c.
-- Outcome: undefined behaviour, a rejected format, or a result. Output: the bounded buffer.
-- Parse: a directive's flags, width, precision and length. Text and Number: its conversions.
-- Vformat: the loop over the format, and the calls.
pub mod Outcome
pub mod Output
pub mod Parse
pub mod Text
pub mod Number
pub mod Vformat
pub mod Expansion
