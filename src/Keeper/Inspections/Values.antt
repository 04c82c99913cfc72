-- ===== src/Keeper/Inspections/Values.antt =====
-- keeper/src/sui/sui.service.ts: what Move returned is what the keeper reads.
use leverx.Prelude.{
  ℕ, zero, suc, ◌+◌, ◌*◌, ◌/◌, ◌%◌, ◌^◌, ◌≤◌, ◌<◌, ◌≡◌, refl, true, false, some, List, [], ◌∷◌,
  ◌++◌, inl, inr, ap, sym, subst, arith,
}
use leverx.Prelude.Tests.{ltb, Bool-cases}
use leverx.Prelude.Lists.{length, take, All}
use leverx.Keeper.Inspections.{
  Inspection, last_values, little_endian, read_u64, dev_inspect_u64, dev_inspect_u64_pair,
  dev_inspect_u64_quad,
}

-- The number of values of so many bytes.
abbrev pub span : ℕ → ℕ
span zero = 1
span (suc width) = 256 * span width

-- The encoding of an unsigned integer by BCS.
abbrev pub bcs_bytes : ℕ → ℕ → List ℕ
bcs_bytes zero n = []
bcs_bytes (suc width) n = n % 256 ∷ bcs_bytes width (n / 256)

abbrev pub IsByte : ℕ → Type 0
IsByte b = b < 256

pub bcs_bytes-IsByte : (width n : ℕ) → All IsByte (bcs_bytes width n)
bcs_bytes-IsByte zero n = tt
bcs_bytes-IsByte (suc width) n = (omega arith, bcs_bytes-IsByte width (n / 256))

little_endian-bcs_bytes :
    (width n : ℕ) → n < span width → little_endian width (bcs_bytes width n) ≡ n
little_endian-bcs_bytes zero n h = omega arith
little_endian-bcs_bytes (suc width) n h =
    omega (arith, little_endian-bcs_bytes width (n / 256) (omega arith))

little_endian-lt-span :
    (width : ℕ) (bytes : List ℕ) → All IsByte bytes → little_endian width bytes < span width
little_endian-lt-span zero bytes h = omega arith
little_endian-lt-span (suc width) [] h = omega (arith, little_endian-lt-span width [] tt)
little_endian-lt-span (suc width) (b ∷ bytes) (small, rest) =
    omega (arith, little_endian-lt-span width bytes rest)

bcs_bytes-little_endian :
    (width : ℕ) (bytes : List ℕ)
    → All IsByte bytes
    → width ≤ length bytes
    → bcs_bytes width (little_endian width bytes) ≡ take width bytes
bcs_bytes-little_endian zero bytes h long = refl
bcs_bytes-little_endian (suc width) [] h long = absurd (omega arith)
bcs_bytes-little_endian (suc width) (b ∷ bytes) (small, rest) long =
    let high = little_endian width bytes in
    let low_lem : (b + 256 * high) % 256 ≡ b = omega arith in
    let high_lem : (b + 256 * high) / 256 ≡ high = omega arith in
    rw (low_lem, high_lem)
      (ap (λ t. b ∷ t) (bcs_bytes-little_endian width bytes rest (omega arith)))

read_u64-bcs_bytes : (n : ℕ) → n < 2 ^ 64 → read_u64 (some (bcs_bytes 8 n)) ≡ some n
unfolding read_u64
read_u64-bcs_bytes n h = ap some (little_endian-bcs_bytes 8 n h)

abbrev pub answered : List (List (List ℕ)) → Inspection
answered results = record { is_success = true; failure = ""; results = results }

last_values-append :
    (before : List (List (List ℕ))) (values : List (List ℕ))
    → last_values (before ++ (values ∷ [])) ≡ values
last_values-append [] values = refl
last_values-append (v ∷ []) values = refl
last_values-append (v ∷ w ∷ rest) values = last_values-append (w ∷ rest) values

-- Of a successful inspection, whatever its earlier commands returned, the keeper reads the values of the
-- last command, where these are numbers below 2 ^ 64 as BCS encodes them: the first of one or more, the
-- first two of two or more, and the first four of four or more.
pub dev_inspect-bcs_bytes :
    (before : List (List (List ℕ))) (more : List (List ℕ)) (a b c d : ℕ)
    → a < 2 ^ 64
    → b < 2 ^ 64
    → c < 2 ^ 64
    → d < 2 ^ 64
    → (dev_inspect_u64 (answered (before ++ ((bcs_bytes 8 a ∷ more) ∷ []))) ≡ some a)
      × (dev_inspect_u64_pair (answered (before ++ ((bcs_bytes 8 a ∷ bcs_bytes 8 b ∷ more) ∷ [])))
          ≡ some (a, b))
      × (dev_inspect_u64_quad (
            answered (
              before
              ++ ((bcs_bytes 8 a ∷ bcs_bytes 8 b ∷ bcs_bytes 8 c ∷ bcs_bytes 8 d ∷ more) ∷ [])))
          ≡ some (a, b, c, d))
unfolding dev_inspect_u64 dev_inspect_u64_pair dev_inspect_u64_quad
dev_inspect-bcs_bytes before more a b c d ha hb hc hd =
    let ea = read_u64-bcs_bytes a ha in
    let eb = read_u64-bcs_bytes b hb in
    let ec = read_u64-bcs_bytes c hc in
    let ed = read_u64-bcs_bytes d hd in
    let last = last_values-append before in
    let two : ltb (suc (suc (length more))) 2 ≡ false = ground arith in
    let four : ltb (suc (suc (suc (suc (length more))))) 4 ≡ false = ground arith in
    (rw (last _) ea, rw (last _, ea, eb, two) refl, rw (last _, ea, eb, ec, ed, four) refl)

-- Whatever bytes are returned, a number that is read from them is below 2 ^ 64, and the first eight bytes
-- are its encoding by BCS.
pub read_u64_sound :
    (bytes : List ℕ) (n : ℕ)
    → All IsByte bytes
    → read_u64 (some bytes) ≡ some n
    → (n < 2 ^ 64) × (take 8 bytes ≡ bcs_bytes 8 n)
unfolding read_u64
read_u64_sound bytes n h e = elim (Bool-cases (ltb (length bytes) 8)) [
  | inl short ↦ absurd (cc)
  | inr long ↦
      let value : little_endian 8 bytes ≡ n = cc in
      subst (λ m. (m < 2 ^ 64) × (take 8 bytes ≡ bcs_bytes 8 m)) value
        (
          little_endian-lt-span 8 bytes h,
          sym (bcs_bytes-little_endian 8 bytes h (ground (arith, long))),
        )
]
