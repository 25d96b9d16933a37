-- ===== src/HostTools/Archive/Complete.antt =====
-- What a successful run of main in Tools/Bootstrap/Export.c has reported.
use r4os_driver_nvidia.Base.{
  ℕ, ◌≡◌, refl, ap, arith, Bool, true, false, not, ◌||◌, List, [], ◌∷◌, ◌==◌, if◌then◌else◌, suc,
  ◌+◌, ◌*◌, ltb, take, replicate, codes, ◌∙◌, eqb→eq,
}
use r4os_driver_nvidia.Abi.{slice, write_at}
use r4os_driver_nvidia.HostTools.Archive.{
  ExportStorage, Machine, Line, Exported, stop, is_guarded, saves, export_decoded, export_decode,
  is_last, export_entry, export_loop, export_main,
}

abbrev pub line_of : ExportStorage → Bool → Line
line_of e last = record {
  name = e.name;
  bytes = e.bytes;
  encoded_bytes = e.encoded;
  compressed = e.compressed;
  last = last;
}

-- Where the outcome `r` of a round is a success, so is that of the rounds behind it, and the round
-- has added its line to theirs.
Adds : ExportStorage → Bool → Exported → Exported → Type 0
Adds e last rest r = r.code ≡ 0 → (rest.code ≡ 0) × (r.lines ≡ line_of e last ∷ rest.lines)

chosen : {A : Type 0} (P : A → Type 0) (b : Bool) {x y : A} → P x → P y → P (if b then x else y)
chosen P true p q = p
chosen P false p q = q

module _ (m : Machine) (root : List ℕ) where
  -- One line for each archive, in order, the last one marked.
  abbrev pub report : List ExportStorage → List Line
  report [] = []
  report (e ∷ entries) = line_of e (is_last m root entries) ∷ report entries

  stops-Adds :
      (e : ExportStorage) (last : Bool) (rest : Exported) (k : ℕ)
      → Adds e last rest (stop m root (suc k))
  unfolding Adds
  stops-Adds e last rest k z = absurd (omega arith)

  decoded-Adds :
      (e : ExportStorage) (last : Bool) (buffer : List ℕ) (rest : Exported)
      → Adds e last rest (export_decoded m root e last buffer rest)
  unfolding Adds
  decoded-Adds e last buffer rest =
      chosen (Adds e last rest) (not (is_guarded e.bytes buffer)) (stops-Adds e last rest 8) (
        chosen (Adds e last rest)
          (not (saves m root e.name (codes "bin") (slice 64 e.bytes buffer)))
          (stops-Adds e last rest 9) (λ z. (z, refl)))

  decode-Adds :
      (e : ExportStorage) (last : Bool) (rest : Exported)
      → Adds e last rest (export_decode m root e last rest)
  decode-Adds e last rest =
      let z = m.inflate e.data_bytes e.bytes (replicate (e.bytes + 128) 0xa5) in
      chosen (Adds e last rest) (not (m.room (e.bytes + 128))) (stops-Adds e last rest 4) (
        chosen (Adds e last rest) e.compressed
          (chosen (Adds e last rest) (not z.allocated) (stops-Adds e last rest 5) (
            chosen (Adds e last rest) (not z.destroyed || not (z.count == e.bytes))
              (stops-Adds e last rest 6) (decoded-Adds e last z.buffer rest)))
          (chosen (Adds e last rest) (not (e.encoded == e.bytes)) (stops-Adds e last rest 7) (
            decoded-Adds e last
              (write_at 64 (take e.bytes e.data_bytes) (replicate (e.bytes + 128) 0xa5)) rest)))

  entry-Adds :
      (e : ExportStorage) (last : Bool) (rest : Exported)
      → Adds e last rest (export_entry m root e last rest)
  unfolding Adds
  entry-Adds e last rest =
      chosen (Adds e last rest)
        (e.bytes == 0
          || (ltb (1024 * 1024) e.bytes || (e.encoded == 0 || ltb (1024 * 1024) e.encoded)))
        (stops-Adds e last rest 2)
        (chosen (Adds e last rest)
          (not (saves m root e.name (codes "encoded") (take e.encoded e.data_bytes)))
          (stops-Adds e last rest 3) (decode-Adds e last rest))

  loop-report :
      (entries : List ExportStorage)
      → (export_loop m root entries).code ≡ 0
      → (export_loop m root entries).lines ≡ report entries
  unfolding Adds
  loop-report [] z = refl
  loop-report (e ∷ entries) z =
      let (succeeded, line) =
        entry-Adds e (is_last m root entries) (export_loop m root entries) z in
      line ∙ ap (λ ls. line_of e (is_last m root entries) ∷ ls) (loop-report entries succeeded)

  started :
      (b : Bool) (run : Exported) (lines : List Line)
      → (run.code ≡ 0 → run.lines ≡ lines)
      → (if not b then stop m root 2 else run).code ≡ 0
      → (b ≡ true) × ((if not b then stop m root 2 else run).lines ≡ lines)
  started true run lines f z = (refl, f z)
  started false run lines f z = absurd (omega arith)

  -- main of Export returns 0 only for one argument, and then it has reported every archive, in
  -- order, the last one marked as such.
  pub export_main-report :
      (argc : ℕ) (entries : List ExportStorage)
      → (export_main m root argc entries).code ≡ 0
      → (argc ≡ 2) × ((export_main m root argc entries).lines ≡ report entries)
  unfolding export_main
  export_main-report argc entries z =
      let (two, lines) =
        started (argc == 2) (export_loop m root entries) (report entries) (loop-report entries) z in
      (eqb→eq argc 2 two, lines)
