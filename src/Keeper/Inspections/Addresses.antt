-- ===== src/Keeper/Inspections/Addresses.antt =====
-- keeper/src/sui/sui.service.ts: an address that an inspection returned is read faithfully.
use leverx.Prelude.{
  ℕ, zero, suc, ◌/◌, ◌%◌, ◌<◌, ◌≡◌, refl, ap, ◌↔◌, true, some, List, [], ◌∷◌, arith,
}
use leverx.Prelude.Lists.{length, All}
use leverx.Prelude.Texts.{Text}
use leverx.Keeper.Messages.{is_address, is_hex, hex_run}
use leverx.Keeper.Inspections.{hex_digit, hex_of, address_text, dev_inspect_address}
use leverx.Keeper.Inspections.Values.{IsByte, answered}

abbrev double : ℕ → ℕ
double zero = 0
double (suc n) = suc (suc (double n))

is_hex-hex_digit : (d : ℕ) → d < 16 → is_hex (hex_digit d) ≡ true
is_hex-hex_digit d h = ground arith

hex_digit-injective : (d e : ℕ) → d < 16 → e < 16 → hex_digit d ≡ hex_digit e → d ≡ e
hex_digit-injective d e hd he same = ground arith

hex_run-hex_of :
    (n : ℕ) (bytes : List ℕ)
    → All IsByte bytes
    → length bytes ≡ n
    → hex_run (double n) (hex_of bytes) ≡ true
hex_run-hex_of zero [] small l = refl
hex_run-hex_of zero (b ∷ bytes) small l = absurd (omega arith)
hex_run-hex_of (suc n) [] small l = absurd (omega arith)
hex_run-hex_of (suc n) (b ∷ bytes) (byte, small) l =
    let high = is_hex-hex_digit (b / 16) (omega arith) in
    let low = is_hex-hex_digit (b % 16) (omega arith) in
    rw (high, low) (hex_run-hex_of n bytes small (omega arith))

hex_of-injective :
    (bytes others : List ℕ)
    → All IsByte bytes
    → All IsByte others
    → hex_of bytes ≡ hex_of others
    → bytes ≡ others
hex_of-injective [] [] s t e = refl
hex_of-injective [] (c ∷ others) s t e = absurd cc
hex_of-injective (b ∷ bytes) [] s t e = absurd cc
hex_of-injective (b ∷ bytes) (c ∷ others) (byte, s) (other, t) e =
    let high : b / 16 ≡ c / 16 =
      hex_digit-injective (b / 16) (c / 16) (omega arith) (omega arith) cc in
    let low : b % 16 ≡ c % 16 =
      hex_digit-injective (b % 16) (c % 16) (omega arith) (omega arith) cc in
    let head : b ≡ c = omega arith in
    let tail : bytes ≡ others = hex_of-injective bytes others s t cc in cc

address_text_lem :
    (bytes : List ℕ)
    → length bytes ≡ 32
    → address_text (some bytes) ≡ some (b'0' ∷ b'x' ∷ hex_of bytes)
address_text_lem bytes long = rw long refl

-- 32 bytes that an inspection returned are read as a text that the keeper accepts as an address, and no
-- other 32 bytes are read as the same text.
pub dev_inspect_address_faithful :
    (bytes others : List ℕ)
    → All IsByte bytes
    → All IsByte others
    → length bytes ≡ 32
    → length others ≡ 32
    → ((t : Text) × (dev_inspect_address (answered ((bytes ∷ []) ∷ [])) ≡ some t)
        × (is_address t ≡ true))
      × ((dev_inspect_address (answered ((bytes ∷ []) ∷ []))
            ≡ dev_inspect_address (answered ((others ∷ []) ∷ [])))
          ↔ (bytes ≡ others))
unfolding dev_inspect_address is_address
dev_inspect_address_faithful bytes others small small_others long long_others =
    let read = address_text_lem bytes long in
    let read_others = address_text_lem others long_others in
    (
      (b'0' ∷ b'x' ∷ hex_of bytes, read, hex_run-hex_of 32 bytes small long),
      (
        (λ same. hex_of-injective bytes others small small_others cc),
        (λ same. ap (λ t. address_text (some t)) same),
      ),
    )
