-- ===== src/HostTools/Shader.antt =====
-- Tools/Rm/VerifyShader.c: read_file and main, which decode a shader of NVIDIA's and compare it with its
-- original. XZ Embedded, the C library's files and malloc are parameters.
pub mod Releases
use r4os_driver_nvidia.Base.{
  ℕ, ◌*◌, Bool, true, false, not, ◌||◌, Option, none, some, List, [], ◌∷◌, ◌==◌, ltb, if◌then◌else◌,
  length, get_or,
}
use r4os_driver_nvidia.Abi.{same_bytes}
use r4os_driver_nvidia.HostTools.{Host, allocate, release, open_file, close_file, Stream}

-- What read_file returns (none for NULL), and what is held then.
pub record ReadFile : Type 0 where
  pub bytes : Option (List ℕ)
  pub host : Host

-- read_file behind the seek to the end, on what ftell answers; `room` is what malloc answers.
abbrev pub read_told : Stream → Bool → Host → Option ℕ → ReadFile
read_told file room h none = record { bytes = none; host = h }
read_told file room h (some size) =
    let bytes = file.read size in
    if ltb size 1 || ltb (1024 * 1024) size
    then record { bytes = none; host = h }
    else if not file.seeks_start
    then record { bytes = none; host = h }
    else if not room
    then record { bytes = none; host = h }
    else if not (length bytes == size) || (not file.at_end || file.has_error)
    then record { bytes = none; host = release (allocate h) }
    else record { bytes = some bytes; host = allocate h }

abbrev pub read_open : Stream → Bool → Host → ReadFile
read_open file room h =
    if not file.seeks_end
    then record { bytes = none; host = h }
    else read_told file room h file.tell

unfoldable pub read_file : Option Stream → Bool → Host → ReadFile
read_file none room h = record { bytes = none; host = h }
read_file (some file) room h =
    let r = read_open file room (open_file h) in record r { host = close_file r.host }

-- What xz_dec_run leaves: its status, the two positions, and the bytes at the output.
pub record Decoded : Type 0 where
  pub stream_end : Bool
  pub in_pos : ℕ
  pub out_pos : ℕ
  pub out : List ℕ

-- XZ Embedded on an input with room for so many bytes of output, and the answers of malloc and of
-- xz_dec_init.
pub record Decoder : Type 0 where
  pub run : List ℕ → ℕ → Decoded
  pub room_first : Bool
  pub room_second : Bool
  pub room_decoded : Bool
  pub room_state : Bool

-- A pointer variable: never assigned, NULL, or what is held.
pub data Pointer : Type 0 where
  unset null block : Pointer

-- The variables of main that live up to the label done, whether it printed, and what is held.
pub record Frame : Type 0 where
  pub result : ℕ
  pub printed : Bool
  pub decoded : Pointer
  pub state : Pointer
  pub host : Host

-- What main returns, whether it printed, and what is still held.
pub record Verified : Type 0 where
  pub code : ℕ
  pub printed : Bool
  pub host : Host

-- free and xz_dec_end of some pointers, in this order: nothing on NULL, and no meaning (none) on a
-- variable that was never assigned.
abbrev pub release_all : List Pointer → Host → Option Host
release_all [] h = some h
release_all (unset ∷ pointers) h = none
release_all (null ∷ pointers) h = release_all pointers h
release_all (block ∷ pointers) h = release_all pointers (release h)

-- return result
abbrev pub end_with : Frame → Option Host → Option Verified
end_with f none = none
end_with f (some h) = some (record { code = f.result; printed = f.printed; host = h })

-- The pointer that read_file returns.
abbrev pub pointer_of : Option (List ℕ) → Pointer
pointer_of none = null
pointer_of (some bytes) = block

-- decoded = NULL; state = NULL; result = 3
abbrev pub new_frame : Host → Frame
new_frame h = record { result = 3; printed = false; decoded = null; state = null; host = h }

-- decoded = malloc(original_size), and state = xz_dec_init(XZ_SINGLE, 0), by what these answer.
abbrev pub set_decoded : Bool → Frame → Frame
set_decoded true f = record f { decoded = block; host = allocate f.host }
set_decoded false f = record f { decoded = null }

abbrev pub set_state : Bool → Frame → Frame
set_state true f = record f { state = block; host = allocate f.host }
set_state false f = record f { state = null }

module _ (d : Decoder) where
  -- main from result = 4 on to the label done, with the variables as each goto leaves them.
  abbrev pub decode_files : List ℕ → List ℕ → Frame → Frame
  decode_files compressed original start =
      let decoded = d.run compressed (length original) in
      let entered = record start { result = 4 } in
      let given = set_decoded d.room_decoded entered in
      let ready = set_state d.room_state given in
      if ltb (length compressed) 12
        || (not (get_or compressed 6 0 == 0) || not (get_or compressed 7 0 == 0))
      then entered
      else if not d.room_decoded
      then given
      else if not d.room_state
      then ready
      else if not decoded.stream_end
          || (not (decoded.in_pos == length compressed) || not (decoded.out_pos == length original))
      then record ready { result = 5 }
      else if not (same_bytes decoded.out original)
      then record ready { result = 6 }
      else record ready { result = 0; printed = true }

  abbrev pub verify_files : Option (List ℕ) → Option (List ℕ) → Frame → Frame
  verify_files none original f = f
  verify_files (some compressed) none f = f
  verify_files (some compressed) (some original) f = decode_files compressed original f

  -- done: xz_dec_end(state); free(decoded); free(original); free(compressed); return result
  abbrev pub finish : Option (List ℕ) → Option (List ℕ) → Frame → Option Verified
  finish compressed original f =
      end_with f (
        release_all (f.state ∷ f.decoded ∷ pointer_of original ∷ pointer_of compressed ∷ []) f.host)

  unfoldable pub verify_shader : ℕ → Option Stream → Option Stream → Host → Option Verified
  verify_shader argc first second h =
      let compressed = read_file first d.room_first h in
      let original = read_file second d.room_second compressed.host in
      let done = verify_files compressed.bytes original.bytes (new_frame original.host) in
      if not (argc == 3)
      then some (record { code = 2; printed = false; host = h })
      else finish compressed.bytes original.bytes done
