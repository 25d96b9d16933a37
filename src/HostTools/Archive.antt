-- ===== src/HostTools/Archive.antt =====
-- Tools/Bootstrap/Export.c: save and main, which write out NVIDIA's embedded archives as they are and
-- decoded. The archives, the inflater, malloc and the file system are parameters.
pub mod Complete
use r4os_driver_nvidia.Base.{
  ℕ, ◌+◌, ◌*◌, ◌≡◌, Bool, true, false, not, ◌&&◌, ◌||◌, Option, none, some, List, [], ◌∷◌, ◌++◌,
  ◌==◌, ltb, leb, if◌then◌else◌, length, take, replicate, codes,
}
use r4os_driver_nvidia.Abi.{same_bytes, slice, write_at}

-- struct ExportStorage with its name, by the members that are read.
pub record ExportStorage : Type 0 where
  pub name : List ℕ
  pub bytes : ℕ
  pub encoded : ℕ
  pub data_bytes : List ℕ
  pub compressed : Bool

-- What utilGzAllocate, utilGzGetData and utilGzDestroy answer for one archive, and the guarded buffer
-- that they leave.
pub record Inflated : Type 0 where
  pub allocated : Bool
  pub count : ℕ
  pub destroyed : Bool
  pub buffer : List ℕ

-- The C library: whether a path can be opened, whether it then takes so many bytes and closes, whether
-- malloc has room, and the inflater on the archive, the size and the guarded buffer.
pub record Machine : Type 0 where
  pub opens : List ℕ → Bool
  pub keeps : List ℕ → List ℕ → Bool
  pub room : ℕ → Bool
  pub inflate : List ℕ → ℕ → List ℕ → Inflated

-- A file that was written.
pub record Saved : Type 0 where
  pub path : List ℕ
  pub contents : List ℕ

-- The line of the report on an archive.
pub record Line : Type 0 where
  pub name : List ℕ
  pub bytes : ℕ
  pub encoded_bytes : ℕ
  pub compressed : Bool
  pub last : Bool

-- What main returns, with the files and the lines written by then, in order.
pub record Exported : Type 0 where
  pub code : ℕ
  pub saved : List Saved
  pub lines : List Line

abbrev pub guard_bytes : List ℕ
guard_bytes = replicate 64 0xa5

abbrev pub path_of : List ℕ → List ℕ → List ℕ → List ℕ
path_of root name suffix = root ++ (codes "/" ++ (name ++ (codes "." ++ suffix)))

-- Both guards are untouched.
abbrev pub is_guarded : ℕ → List ℕ → Bool
is_guarded bytes buffer =
    same_bytes (slice 0 64 buffer) guard_bytes
    && same_bytes (slice (64 + bytes) 64 buffer) guard_bytes

module _ (m : Machine) (root : List ℕ) where
  -- save(root, name, suffix, data, bytes) == 0.
  abbrev pub saves : List ℕ → List ℕ → List ℕ → Bool
  saves name suffix contents =
      let path = path_of root name suffix in
      ltb (length path) 4096 && (m.opens path && m.keeps path contents)

  abbrev pub stop : ℕ → Exported
  stop code = record { code = code; saved = []; lines = [] }

  -- More files and lines in front of those of the rest.
  abbrev pub ahead_of : List Saved → List Line → Exported → Exported
  ahead_of saved lines rest = record {
    code = rest.code;
    saved = saved ++ rest.saved;
    lines = lines ++ rest.lines;
  }

  -- The round of an archive from the guards on, with the buffer after decoding.
  abbrev pub export_decoded : ExportStorage → Bool → List ℕ → Exported → Exported
  export_decoded e last buffer rest =
      let decoded = slice 64 e.bytes buffer in
      if not (is_guarded e.bytes buffer)
      then stop 9
      else if not (saves e.name (codes "bin") decoded)
      then stop 10
      else ahead_of (record { path = path_of root e.name (codes "bin"); contents = decoded } ∷ [])
          (record {
            name = e.name;
            bytes = e.bytes;
            encoded_bytes = e.encoded;
            compressed = e.compressed;
            last = last;
          }
            ∷ [])
          rest

  abbrev pub export_decode : ExportStorage → Bool → Exported → Exported
  export_decode e last rest =
      let guarded = replicate (e.bytes + 128) 0xa5 in
      let z = m.inflate e.data_bytes e.bytes guarded in
      if not (m.room (e.bytes + 128))
      then stop 5
      else if e.compressed
      then (if not z.allocated
          then stop 6
          else if not z.destroyed || not (z.count == e.bytes)
          then stop 7
          else export_decoded e last z.buffer rest)
      else if not (e.encoded == e.bytes)
      then stop 8
      else export_decoded e last (write_at 64 (take e.bytes e.data_bytes) guarded) rest

  -- One round of the loop, and what the rounds behind it do.
  abbrev pub export_entry : ExportStorage → Bool → Exported → Exported
  export_entry e last rest =
      let contents = take e.encoded e.data_bytes in
      if e.bytes == 0
        || (ltb (1024 * 1024) e.bytes || (e.encoded == 0 || ltb (1024 * 1024) e.encoded))
      then stop 3
      else if not (saves e.name (codes "encoded") contents)
      then stop 4
      else ahead_of
          (record { path = path_of root e.name (codes "encoded"); contents = contents } ∷ []) []
          (export_decode e last rest)

  abbrev pub is_last : List ExportStorage → Bool
  is_last [] = true
  is_last (e ∷ entries) = false

  abbrev pub export_loop : List ExportStorage → Exported
  export_loop [] = stop 0
  export_loop (e ∷ entries) = export_entry e (is_last entries) (export_loop entries)

  unfoldable pub export_main : ℕ → List ExportStorage → Exported
  export_main argc entries = if not (argc == 2) then stop 2 else export_loop entries
