-- ===== src/HostTools/Shader/Releases.antt =====
-- What main of Tools/Rm/VerifyShader.c holds when it ends, and when it ends with 0.
use r4os_driver_nvidia.Base.{
  ℕ, ◌+◌, ◌-◌, ◌*◌, ◌≡◌, refl, ◌∙◌, ap, arith, Bool, true, false, not, ◌||◌, Option, none, some,
  List, [], ◌∷◌, ◌++◌, ◌==◌, ltb, if◌then◌else◌, length, get_or,
}
use r4os_driver_nvidia.Abi.{same_bytes}
use r4os_driver_nvidia.HostTools.{Host, allocate, release, open_file, close_file, Stream}
use r4os_driver_nvidia.HostTools.Shader.{
  ReadFile, read_told, read_open, read_file, Decoder, Pointer, unset, null, block, Frame, Verified,
  release_all, end_with, pointer_of, new_frame, set_decoded, set_state, verify_files, finish,
  verify_shader,
}

release-allocate : (h : Host) → release (allocate h) ≡ h
release-allocate h =
    ap (λ k. record h { allocated = k }) {x = h.allocated + 1 - 1} {y = h.allocated} (omega arith)

release_twice : (h : Host) → release (release (allocate (allocate h))) ≡ h
release_twice h = ap release (release-allocate (allocate h)) ∙ release-allocate h

-- The block that a file's bytes stand in, where there is one.
abbrev holding : Option (List ℕ) → Host → Host
holding none h = h
holding (some bytes) h = allocate h

chosen : {A : Type 0} (P : A → Type 0) (b : Bool) {x y : A} → P x → P y → P (if b then x else y)
chosen P true p q = p
chosen P false p q = q

close-holding :
    (o : Option (List ℕ)) (h : Host) → close_file (holding o (open_file h)) ≡ holding o h
close-holding none h =
    ap (λ k. record h { opened = k }) {x = h.opened + 1 - 1} {y = h.opened} (omega arith)
close-holding (some bytes) h =
    ap (λ k. record (allocate h) { opened = k }) {x = h.opened + 1 - 1} {y = h.opened} (omega arith)

-- A file that was read holds its block, and one that was not holds nothing.
abbrev Holds : Host → ReadFile → Type 0
Holds h r = r.host ≡ holding r.bytes h

read_stages :
    (a b c d : Bool) (h : Host) (bytes : List ℕ)
    → Holds h (
        if a
        then record { bytes = none; host = h }
        else if b
        then record { bytes = none; host = h }
        else if c
        then record { bytes = none; host = h }
        else if d
        then record { bytes = none; host = release (allocate h) }
        else record { bytes = some bytes; host = allocate h })
read_stages true b c d h bytes = refl
read_stages false true c d h bytes = refl
read_stages false false true d h bytes = refl
read_stages false false false true h bytes = release-allocate h
read_stages false false false false h bytes = refl

read_told-Holds :
    (file : Stream) (room : Bool) (h : Host) (told : Option ℕ)
    → Holds h (read_told file room h told)
read_told-Holds file room h none = refl
read_told-Holds file room h (some size) =
    let bytes = file.read size in
    read_stages (ltb size 1 || ltb (1024 * 1024) size) (not file.seeks_start) (not room)
      (not (length bytes == size) || (not file.at_end || file.has_error)) h bytes

read_file-Holds : (file : Option Stream) (room : Bool) (h : Host) → Holds h (read_file file room h)
unfolding read_file
read_file-Holds none room h = refl
read_file-Holds (some file) room h =
    let opened : Holds (open_file h) (read_open file room (open_file h)) =
      chosen (Holds (open_file h)) (not file.seeks_end) refl
        (read_told-Holds file room (open_file h) file.tell) in
    ap close_file opened ∙ close-holding (read_open file room (open_file h)).bytes h

-- What the pointers hold is released one behind the other.
release_all-append :
    (ps qs : List Pointer) (h k : Host)
    → release_all ps h ≡ some k
    → release_all (ps ++ qs) h ≡ release_all qs k
release_all-append [] qs h k e = ap (λ o. elim o [ none ↦ none | some j ↦ release_all qs j ]) e
release_all-append (unset ∷ ps) qs h k e = absurd (cc)
release_all-append (null ∷ ps) qs h k e = release_all-append ps qs h k e
release_all-append (block ∷ ps) qs h k e = release_all-append ps qs (release h) k e

-- Its two pointers are all that a frame holds above `h`.
abbrev Owes : Host → Frame → Type 0
Owes h f = release_all (f.state ∷ f.decoded ∷ []) f.host ≡ some h

owes_both : (h : Host) → release_all (block ∷ block ∷ []) (allocate (allocate h)) ≡ some h
owes_both h = ap some (release_twice h)

owes_one : (h : Host) → release_all (null ∷ block ∷ []) (allocate h) ≡ some h
owes_one h = ap some (release-allocate h)

module _ (d : Decoder) where
  -- The gotos of main, by their tests.
  decode_stages :
      (a room1 room2 e f : Bool) (h : Host)
      → let entered = record (new_frame h) { result = 4 } in
        let given = set_decoded room1 entered in
        let ready = set_state room2 given in
        Owes h (
          if a
          then entered
          else if not room1
          then given
          else if not room2
          then ready
          else if e
          then record ready { result = 5 }
          else if f
          then record ready { result = 6 }
          else record ready { result = 0; printed = true })
  decode_stages true b c e f h = refl
  decode_stages false false c e f h = refl
  decode_stages false true false e f h = owes_one h
  decode_stages false true true true f h = owes_both h
  decode_stages false true true false true h = owes_both h
  decode_stages false true true false false h = owes_both h

  verify_files-Owes :
      (compressed original : Option (List ℕ)) (h : Host)
      → Owes h (verify_files d compressed original (new_frame h))
  verify_files-Owes none original h = refl
  verify_files-Owes (some compressed) none h = refl
  verify_files-Owes (some compressed) (some original) h =
      let decoded = d.run compressed (length original) in
      decode_stages
        (ltb (length compressed) 12
          || (not (get_or compressed 6 0 == 0) || not (get_or compressed 7 0 == 0)))
        d.room_decoded d.room_state
        (not decoded.stream_end
          || (not (decoded.in_pos == length compressed)
              || not (decoded.out_pos == length original)))
        (not (same_bytes decoded.out original)) h

  files-released :
      (compressed original : Option (List ℕ)) (h : Host)
      → release_all
          (pointer_of original ∷ pointer_of compressed ∷ [])
          (holding original (holding compressed h))
        ≡ some h
  files-released none none h = refl
  files-released none (some original) h = ap some (release-allocate h)
  files-released (some compressed) none h = ap some (release-allocate h)
  files-released (some compressed) (some original) h = ap some (release_twice h)

  finish-host :
      (compressed original : Option (List ℕ)) (f : Frame) (h : Host)
      → Owes (holding original (holding compressed h)) f
      → finish d compressed original f
        ≡ some (record { code = f.result; printed = f.printed; host = h })
  finish-host compressed original f h owes = ap (end_with f) (
      release_all-append (f.state ∷ f.decoded ∷ [])
        (pointer_of original ∷ pointer_of compressed ∷ []) f.host
        (holding original (holding compressed h)) owes
      ∙ files-released compressed original h)

  -- However main of VerifyShader ends, with whichever file missing or broken, whichever allocation
  -- refused and whatever the decoder says, it returns: it releases no pointer that was never
  -- assigned, and holds as many blocks and open files as before.
  pub verify_shader-host :
      (argc : ℕ) (first second : Option Stream) (h : Host)
      → (v : Verified) × (verify_shader d argc first second h ≡ some v) × (v.host ≡ h)
  unfolding verify_shader
  verify_shader-host argc first second h =
      let compressed = read_file first d.room_first h in
      let original = read_file second d.room_second compressed.host in
      let held : original.host ≡ holding original.bytes (holding compressed.bytes h) =
        read_file-Holds second d.room_second compressed.host
        ∙ ap (holding original.bytes) (read_file-Holds first d.room_first h) in
      let f = verify_files d compressed.bytes original.bytes (new_frame original.host) in
      let ends =
        finish-host compressed.bytes original.bytes f h
          (verify_files-Owes compressed.bytes original.bytes original.host ∙ ap some held) in
      chosen (λ r. (v : Verified) × (r ≡ some v) × (v.host ≡ h)) (not (argc == 3))
        (record { code = 2; printed = false; host = h }, refl, refl)
        (record { code = f.result; printed = f.printed; host = h }, ends, refl)
