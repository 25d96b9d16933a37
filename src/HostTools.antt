-- ===== src/HostTools.antt =====
-- The command-line tools under Tools that decode NVIDIA's data: what they share, a count of the memory
-- and the files that a run holds, and files as the C library shows them.
pub mod Shader
pub mod Archive
use r4os_driver_nvidia.Base.{ℕ, ◌+◌, ◌-◌, Bool, Option, List}

-- The blocks and the files that are held.
pub record Host : Type 0 where
  pub allocated : ℕ
  pub opened : ℕ

abbrev pub allocate : Host → Host
allocate h = record h { allocated = h.allocated + 1 }

abbrev pub release : Host → Host
release h = record h { allocated = h.allocated - 1 }

abbrev pub open_file : Host → Host
open_file h = record h { opened = h.opened + 1 }

abbrev pub close_file : Host → Host
close_file h = record h { opened = h.opened - 1 }

-- A file that is open for reading, by the answers that the C library will give: to the seek to its
-- end, to ftell (none where it is negative), to the seek back, to fread, fgetc and ferror.
pub record Stream : Type 0 where
  pub seeks_end : Bool
  pub tell : Option ℕ
  pub seeks_start : Bool
  pub read : ℕ → List ℕ
  pub at_end : Bool
  pub has_error : Bool
