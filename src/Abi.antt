-- ===== src/Abi.antt =====
-- The host tools under Tools/Bootstrap that compare bytes of the driver with NVIDIA's structures:
-- what they share. The structures, constants and field macros come from NVIDIA's headers, which are
-- parameters here.
pub mod Requests
pub mod Progress
pub mod Messages
pub mod Events
pub mod Sequence
pub mod BitFields
pub mod Channel
pub mod Registry
pub mod Mmu
pub mod Pages
pub mod Registers
pub mod Boot
pub mod Rings
pub mod Fwsec
use r4os_driver_nvidia.Base.{
  ℕ, zero, suc, ◌+◌, ◌≡◌, refl, ap, arith, Bool, true, false, not, ◌&&◌, List, [], ◌∷◌, ◌++◌, ◌==◌,
  length, take, take_all, drop, eqb→eq, eq→eqb, ◌≤◌, ◌<◌, ◌↔◌, sym, ◌∙◌, ◌||◌, if◌then◌else◌,
}

-- A C structure: its size, the bytes of a value with all padding zero, and the value that bytes
-- copied over it give.
pub record Layout {ℓ} (A : Type ℓ) : Type ℓ where
  pub bytes : ℕ
  pub encode : A → List ℕ
  pub decode : List ℕ → A

-- The compiler gives every value of a structure its size.
pub record IsLayout {ℓ} {A : Type ℓ} (l : Layout A) : Type ℓ where
  pub size : (a : A) → length (l.encode a) ≡ l.bytes

-- Each entry is a byte.
abbrev pub AreBytes : List ℕ → Type 0
AreBytes [] = Unit
AreBytes (x ∷ xs) = (x < 256) × AreBytes xs

-- A structure without padding: its bytes hold nothing but its members.
abbrev pub IsPacked : {A : Type 0} → Layout A → Type 0
IsPacked l =
    (bytes : List ℕ) → AreBytes bytes → length bytes ≡ l.bytes → l.encode (l.decode bytes) ≡ bytes

-- memcmp(a, b, n) == 0, on arrays of the same length.
abbrev pub same_bytes : List ℕ → List ℕ → Bool
same_bytes [] [] = true
same_bytes [] (y ∷ ys) = false
same_bytes (x ∷ xs) [] = false
same_bytes (x ∷ xs) (y ∷ ys) = x == y && same_bytes xs ys

-- `n` bytes from `offset` on.
abbrev pub slice : ℕ → ℕ → List ℕ → List ℕ
slice offset n bytes = take n (drop offset bytes)

-- count != sizeof(expected) / sizeof(expected[0]) || memcmp(actual, expected, sizeof(expected)) != 0,
-- for arrays of words.
abbrev pub differs : List ℕ → List ℕ → ℕ → Bool
differs expected actual count =
    not (count == length expected) || not (same_bytes (take (length expected) actual) expected)

-- memcpy(buffer + offset, bytes, length), inside the buffer.
abbrev pub write_at : ℕ → List ℕ → List ℕ → List ℕ
write_at offset bytes buffer = take offset buffer ++ (bytes ++ drop (offset + length bytes) buffer)

take-AreBytes : (n : ℕ) (xs : List ℕ) → AreBytes xs → AreBytes (take n xs)
take-AreBytes zero xs h = tt
take-AreBytes (suc n) [] h = tt
take-AreBytes (suc n) (x ∷ xs) (b, h) = (b, take-AreBytes n xs h)

drop-AreBytes : (n : ℕ) (xs : List ℕ) → AreBytes xs → AreBytes (drop n xs)
drop-AreBytes zero xs h = h
drop-AreBytes (suc n) [] h = tt
drop-AreBytes (suc n) (x ∷ xs) (b, h) = drop-AreBytes n xs h

pub slice-AreBytes : (o n : ℕ) (xs : List ℕ) → AreBytes xs → AreBytes (slice o n xs)
slice-AreBytes o n xs h = take-AreBytes n (drop o xs) (drop-AreBytes o xs h)

both : (x y : Bool) → (x && y) ≡ true → (x ≡ true) × (y ≡ true)
both x y h = ground arith

pub same_bytes-eq : (xs ys : List ℕ) → same_bytes xs ys ≡ true → xs ≡ ys
same_bytes-eq [] [] h = refl
same_bytes-eq [] (y ∷ ys) h = absurd (cc)
same_bytes-eq (x ∷ xs) [] h = absurd (cc)
same_bytes-eq (x ∷ xs) (y ∷ ys) h =
    let (e, r) = both (x == y) (same_bytes xs ys) h in
    rw (eqb→eq x y e) (ap (◌∷◌ y) (same_bytes-eq xs ys r))

pub same_bytes_self : (xs : List ℕ) → same_bytes xs xs ≡ true
same_bytes_self [] = refl
same_bytes_self (x ∷ xs) = rw (eq→eqb x x refl, same_bytes_self xs) refl

pub eq-same_bytes : (xs ys : List ℕ) → xs ≡ ys → same_bytes xs ys ≡ true
eq-same_bytes xs ys e = rw e (same_bytes_self ys)

pub slice_halves :
    (a b : ℕ) (bytes : List ℕ) → length bytes ≡ a + b → slice 0 a bytes ++ slice a b bytes ≡ bytes
slice_halves zero b bytes h = take_all b bytes (omega arith)
slice_halves (suc a) b [] h = absurd (omega arith)
slice_halves (suc a) b (x ∷ bytes) h = ap (◌∷◌ x) (slice_halves a b bytes (omega arith))

pub slice_first : (xs ys : List ℕ) → slice 0 (length xs) (xs ++ ys) ≡ xs
slice_first [] ys = refl
slice_first (x ∷ xs) ys = ap (◌∷◌ x) (slice_first xs ys)

pub slice_second : (xs ys : List ℕ) → slice (length xs) (length ys) (xs ++ ys) ≡ ys
slice_second [] ys = take_all (length ys) ys (omega arith)
slice_second (x ∷ xs) ys = slice_second xs ys

neither : (x y : Bool) → (not x || not y) ≡ false → (x ≡ true) × (y ≡ true)
neither x y k = ground arith

pub differs_iff :
    (expected actual : List ℕ) (count : ℕ)
    → (differs expected actual count ≡ false)
      ↔ ((count ≡ length expected) × (take count actual ≡ expected))
differs_iff expected actual count = (sound, λ (e, same). complete e same)
  where
    complete :
        count ≡ length expected
        → take count actual ≡ expected
        → differs expected actual count ≡ false
    complete e same =
        rw
          (
            eq→eqb count (length expected) e,
            eq-same_bytes (take (length expected) actual) expected
                (ap (λ k. take k actual) (sym e) ∙ same),
          )
          refl

    sound :
        differs expected actual count ≡ false
        → (count ≡ length expected) × (take count actual ≡ expected)
    sound h =
        let (c, s) =
          neither (count == length expected) (same_bytes (take (length expected) actual) expected)
            h in
        let e = eqb→eq count (length expected) c in
        (e, ap (λ k. take k actual) e ∙ same_bytes-eq (take (length expected) actual) expected s)

pub drop_length : (xs ys : List ℕ) → drop (length xs) (xs ++ ys) ≡ ys
drop_length [] ys = refl
drop_length (x ∷ xs) ys = drop_length xs ys
