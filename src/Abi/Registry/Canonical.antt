-- ===== src/Abi/Registry/Canonical.antt =====
-- Which packed registry tables r4nv_gsp_preboot_abi_check accepts (Tools/Bootstrap/GspMessageAbi.c).
use r4os_driver_nvidia.Base.{
  ℕ, zero, suc, ◌+◌, ◌-◌, ◌*◌, ◌≡◌, ◌≤◌, ◌↔◌, eq→eqb, refl, sym, ◌∙◌, ap, arith, Bool, true, false,
  not, ◌||◌, List, [], ◌∷◌, ◌++◌, ◌==◌, ltb, if◌then◌else◌, length, length-append, take, drop,
  drop-drop, drop_all, length-take,
}
use r4os_driver_nvidia.Abi.{
  same_bytes, slice, differs, same_bytes-eq, eq-same_bytes, slice_first, drop_length, differs_iff,
  drop_length,
}
use r4os_driver_nvidia.Abi.Registry.{
  RegistryEntry, RegistryHeaders, Setting, c_string, registry_expected, registry_settings,
  registry_loop, preboot_abi_check,
}

take-drop : (a : ℕ) (xs : List ℕ) → take a xs ++ drop a xs ≡ xs
take-drop zero xs = refl
take-drop (suc a) [] = refl
take-drop (suc a) (x ∷ xs) = ap (◌∷◌ x) (take-drop a xs)

slice-drop : (o a : ℕ) (xs : List ℕ) → slice o a xs ++ drop (o + a) xs ≡ drop o xs
slice-drop o a xs =
    ap (λ ys. slice o a xs ++ ys)
      (sym (drop-drop a o xs ∙ ap (λ k. drop k xs) {x = a + o} {y = o + a} (omega arith)))
    ∙ take-drop a (drop o xs)

entry_room : (t i l e len : ℕ) → t + (i + suc l) * e ≤ len → t + (suc i + l) * e ≤ len
entry_room t i l e len h = omega arith

entry_fits : (t i l e len : ℕ) → t + (i + suc l) * e ≤ len → t + i * e + e ≤ len
entry_fits t i l e len h = omega arith

slice_length : (o e : ℕ) (xs : List ℕ) → o + e ≤ length xs → length (slice o e xs) ≡ e
slice_length zero e xs h = omega (arith, length-take e xs)
slice_length (suc o) e [] h = absurd (omega arith)
slice_length (suc o) e (x ∷ xs) h = slice_length o e xs (omega arith)

at_end : (a b : ℕ) → ◌≡◌ {A = ℕ} (if a == b then 0 else 1) 0 → a ≡ b
at_end a b h = ground arith

length_drop : (k : ℕ) (xs : List ℕ) → length (drop k xs) ≡ length xs - k
length_drop zero xs = omega arith
length_drop (suc k) [] = omega arith
length_drop (suc k) (x ∷ xs) = length_drop k xs ∙ omega arith

length-c_string : (name : List ℕ) → length (c_string name) ≡ length name + 1
length-c_string name = omega (arith, length-append name (0 ∷ []))

-- The tests of one round that passed.
passed :
    (o at t d_type d v l room bytes_of : ℕ) (same : Bool) (rest : ℕ)
    → ◌≡◌ {A = ℕ}
        (if not (o == at)
            || (not (t == d_type)
                || (not (d == v) || (not (l == 4) || (ltb room bytes_of || not same))))
          then 3
          else rest)
        0
    → (o ≡ at) × (t ≡ d_type) × (d ≡ v) × (l ≡ 4) × (bytes_of ≤ room) × (same ≡ true) × (rest ≡ 0)
passed o at t d_type d v l room bytes_of same rest h = ground arith

-- A round whose tests hold.
passes :
    (o at t d_type d v l room bytes_of : ℕ) (same : Bool) (rest : ℕ)
    → o ≡ at
    → t ≡ d_type
    → d ≡ v
    → l ≡ 4
    → bytes_of ≤ room
    → same ≡ true
    → rest ≡ 0
    → ◌≡◌ {A = ℕ}
        (if not (o == at)
            || (not (t == d_type)
                || (not (d == v) || (not (l == 4) || (ltb room bytes_of || not same))))
          then 3
          else rest)
        0
passes o at t d_type d v l room bytes_of same rest h1 h2 h3 h4 h5 h6 h7 = ground arith

starts :
    (differ : Bool) (at len size count rest : ℕ)
    → differ ≡ false
    → at ≤ len
    → size ≡ len
    → count ≡ 4
    → rest ≡ 0
    → ◌≡◌ {A = ℕ}
        (if differ || ltb len at
          then 1
          else if not (size == len) || not (count == 4)
          then 2
          else rest)
        0
starts differ at len size count rest h1 h2 h3 h4 h5 = ground arith

started :
    (differ : Bool) (at len size count rest : ℕ)
    → ◌≡◌ {A = ℕ}
        (if differ || ltb len at
          then 1
          else if not (size == len) || not (count == 4)
          then 2
          else rest)
        0
    → (differ ≡ false) × (at ≤ len) × (size ≡ len) × (count ≡ 4) × (rest ≡ 0)
started differ at len size count rest h = ground arith

entry_eq :
    (e k : RegistryEntry)
    → e.name_offset ≡ k.name_offset
    → e.type ≡ k.type
    → e.entry_data ≡ k.entry_data
    → e.length ≡ k.length
    → e ≡ k
entry_eq e k a b c d = rw (← a, ← b, ← c, ← d) refl

module _ (n : RegistryHeaders) where
  -- The names of settings, one behind the other.
  abbrev pub names : List Setting → List ℕ
  names [] = []
  names (s ∷ settings) = c_string s.name ++ names settings

  abbrev pub entry_for : Setting → ℕ → RegistryEntry
  entry_for s at = record {
    name_offset = at;
    type = n.entry_type_dword;
    entry_data = s.value;
    length = 4;
  }

  -- The entries for settings, where the names start at `at`.
  abbrev pub entries_for : List Setting → ℕ → List RegistryEntry
  entries_for [] at = []
  entries_for (s ∷ settings) at = entry_for s at ∷ entries_for settings (at + (length s.name + 1))

  -- The members of `count` entries of a table, from entry `i` on.
  abbrev pub entries_read : ℕ → ℕ → List ℕ → List RegistryEntry
  entries_read zero i bytes = []
  entries_read (suc count) i bytes =
      n.entry.decode (slice (n.table.bytes + i * n.entry.bytes) n.entry.bytes bytes)
      ∷ entries_read count (suc i) bytes

  -- A table that lists settings: the header counts the bytes and the entries, the entries have the
  -- settings' members, and the names stand behind them without a gap, with nothing behind.
  abbrev pub Lists : List Setting → List ℕ → Type 0
  Lists settings bytes =
      let at = n.table.bytes + length settings * n.entry.bytes in
      let header = n.table.decode (slice 0 n.table.bytes bytes) in
      (at ≤ length bytes)
      × (header.size ≡ length bytes)
      × (header.num_entries ≡ length settings)
      × (entries_read (length settings) 0 bytes ≡ entries_for settings at)
      × (drop at bytes ≡ names settings)

  module _ (bytes : List ℕ) where
    -- A loop that accepts has read the entries and the names of its settings, and nothing follows.
    loop_lem :
        (settings : List Setting) (i at : ℕ)
        → at ≤ length bytes
        → registry_loop n settings i at bytes (length bytes) ≡ 0
        → (entries_read (length settings) i bytes ≡ entries_for settings at)
          × (drop at bytes ≡ names settings)
    loop_lem [] i at h z = (refl, drop_all at bytes (omega (arith, at_end at (length bytes) z)))
    loop_lem (s ∷ settings) i at h z =
        let entry =
          n.entry.decode (slice (n.table.bytes + i * n.entry.bytes) n.entry.bytes bytes) in
        let (offset, type, value, size, room, same, rest) =
          passed entry.name_offset at entry.type n.entry_type_dword entry.entry_data s.value
            entry.length (length bytes - at) (length s.name + 1)
            (same_bytes (slice at (length s.name + 1) bytes) (c_string s.name))
            (registry_loop n settings (suc i) (at + (length s.name + 1)) bytes (length bytes)) z in
        let (listed, named) =
          loop_lem settings (suc i) (at + (length s.name + 1)) (omega arith) rest in
        (
          ap (λ e. e ∷ entries_read (length settings) (suc i) bytes)
                (entry_eq entry (entry_for s at) offset type value size)
              ∙ ap (◌∷◌ (entry_for s at)) listed,
          sym (slice-drop at (length s.name + 1) bytes)
              ∙ ap (λ a. a ++ drop (at + (length s.name + 1)) bytes) (same_bytes-eq _ _ same)
              ∙ ap (λ b. c_string s.name ++ b) named,
        )

    name_room :
        (s : Setting) (settings : List Setting) (at : ℕ)
        → drop at bytes ≡ c_string s.name ++ names settings
        → length s.name + 1 + length (names settings) ≡ length bytes - at
    name_room s settings at e = omega (
      arith,
      ap length e,
      length-append (c_string s.name) (names settings),
      length-append s.name (0 ∷ []),
      length_drop at bytes,
    )

    -- The other way round.
    accepts :
        (settings : List Setting) (i at : ℕ)
        → at ≤ length bytes
        → entries_read (length settings) i bytes ≡ entries_for settings at
        → drop at bytes ≡ names settings
        → registry_loop n settings i at bytes (length bytes) ≡ 0
    accepts [] i at h listed named =
        rw (eq→eqb at (length bytes) (omega (arith, length_drop at bytes, ap length named))) refl
    accepts (s ∷ settings) i at h listed named =
        let entry =
          n.entry.decode (slice (n.table.bytes + i * n.entry.bytes) n.entry.bytes bytes) in
        let named_first : slice at (length s.name + 1) bytes ≡ c_string s.name =
          ap (take (length s.name + 1)) named
          ∙ ap (λ k. take k (c_string s.name ++ names settings)) (sym (length-c_string s.name))
          ∙ slice_first (c_string s.name) (names settings) in
        let named_rest : drop (at + (length s.name + 1)) bytes ≡ names settings =
          ap (λ k. drop k bytes) {x = at + (length s.name + 1)} {y = length s.name + 1 + at}
            (omega arith)
          ∙ sym (drop-drop (length s.name + 1) at bytes)
          ∙ ap (drop (length s.name + 1)) named
          ∙ ap (λ k. drop k (c_string s.name ++ names settings)) (sym (length-c_string s.name))
          ∙ drop_length (c_string s.name) (names settings) in
        let fits = name_room s settings at named in
        let rest =
          accepts settings (suc i) (at + (length s.name + 1)) (omega (arith, fits)) (cc)
            named_rest in
        let first : entry ≡ entry_for s at = cc in
        passes entry.name_offset at entry.type n.entry_type_dword entry.entry_data s.value
          entry.length (length bytes - at) (length s.name + 1)
          (same_bytes (slice at (length s.name + 1) bytes) (c_string s.name))
          (registry_loop n settings (suc i) (at + (length s.name + 1)) bytes (length bytes))
          (ap (λ e. e.name_offset) first) (ap (λ e. e.type) first) (ap (λ e. e.entry_data) first)
          (ap (λ e. e.length) first) (omega (arith, fits)) (eq-same_bytes _ _ named_first) rest

  -- r4nv_gsp_preboot_abi_check accepts exactly where the caller's nine words are NVIDIA's sizes and
  -- offsets and the table lists the four settings: the header's two members count the bytes and the
  -- four entries, each entry has its name's offset, the type DWORD, the value and the length 4 (the
  -- padding between members is free), and the names stand behind the entries without a gap, with
  -- nothing behind them.
  pub preboot_abi_check-registry :
      (actual : List ℕ) (count : ℕ) (bytes : List ℕ)
      → (preboot_abi_check n actual count bytes (length bytes) ≡ 0) ↔ (
          (count ≡ length (registry_expected n))
          × (take count actual ≡ registry_expected n)
          × Lists (registry_settings n) bytes)
  unfolding preboot_abi_check
  preboot_abi_check-registry actual count bytes = (
    sound,
    λ (counted, same, lists).
        complete ((differs_iff (registry_expected n) actual count).1 (counted, same)) lists,
  )
    where
      sound :
          preboot_abi_check n actual count bytes (length bytes) ≡ 0
          → (count ≡ length (registry_expected n))
            × (take count actual ≡ registry_expected n)
            × Lists (registry_settings n) bytes
      sound z =
          let settings = registry_settings n in
          let at = n.table.bytes + 4 * n.entry.bytes in
          let t = n.table.decode (slice 0 n.table.bytes bytes) in
          let (same, room, size, four, rest) =
            started (differs (registry_expected n) actual count) at (length bytes) t.size
              t.num_entries (registry_loop n settings 0 at bytes (length bytes)) z in
          let (listed, named) = loop_lem bytes settings 0 at room rest in
          let (counted, equal) = (differs_iff (registry_expected n) actual count).0 same in
          (counted, equal, (room, size, four, listed, named))

      complete :
          differs (registry_expected n) actual count ≡ false
          → Lists (registry_settings n) bytes
          → preboot_abi_check n actual count bytes (length bytes) ≡ 0
      complete same (room, size, four, listed, named) =
          let settings = registry_settings n in
          let at = n.table.bytes + 4 * n.entry.bytes in
          let t = n.table.decode (slice 0 n.table.bytes bytes) in
          starts (differs (registry_expected n) actual count) at (length bytes) t.size t.num_entries
            (registry_loop n settings 0 at bytes (length bytes)) same room size four
            (accepts bytes settings 0 at room listed named)
