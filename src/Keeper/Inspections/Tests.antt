-- ===== src/Keeper/Inspections/Tests.antt =====
-- keeper/src/sui/sui.service.ts: the decoding of inspected values at concrete bytes.
use leverx.Prelude.{
  ℕ, ◌^◌, ◌<◌, ◌≡◌, ◌↔◌, refl, true, false, none, some, List, [], ◌∷◌, ◌++◌, arith,
}
use leverx.Prelude.Lists.{take, All-append}
use leverx.Prelude.Texts.{Text}
use leverx.Keeper.Messages.{is_address}
use leverx.Keeper.Sui.{bool_ok, bool_failed}
use leverx.Keeper.Inspections.{
  read_u64, dev_inspect_u64, dev_inspect_u64_pair, dev_inspect_u64_quad, dev_inspect_address,
  try_dev_inspect_bool,
}
use leverx.Keeper.Inspections.Values.{
  IsByte, bcs_bytes, bcs_bytes-IsByte, answered, dev_inspect-bcs_bytes, read_u64_sound,
}
use leverx.Keeper.Inspections.Addresses.{dev_inspect_address_faithful}

-- The first command made a market key and returned it.
abbrev key_command : List (List (List ℕ))
key_command = ((1 ∷ 2 ∷ []) ∷ []) ∷ []

dev_inspect-bcs_bytes_example :
    (dev_inspect_u64 (answered (key_command ++ ((bcs_bytes 8 7 ∷ []) ∷ []))) ≡ some 7)
    × (dev_inspect_u64_pair
          (answered (key_command ++ ((bcs_bytes 8 7 ∷ bcs_bytes 8 258 ∷ []) ∷ [])))
        ≡ some (7, 258))
    × (dev_inspect_u64_quad (
          answered (
            key_command
            ++ ((bcs_bytes 8 7 ∷ bcs_bytes 8 258 ∷ bcs_bytes 8 0 ∷ bcs_bytes 8 1_000_000_000 ∷ [])
                ∷ [])))
        ≡ some (7, 258, 0, 1_000_000_000))
dev_inspect-bcs_bytes_example =
    dev_inspect-bcs_bytes key_command [] 7 258 0 1_000_000_000 (omega arith) (omega arith)
      (omega arith) (omega arith)

abbrev nine_bytes : List ℕ
nine_bytes = 1 ∷ 2 ∷ 0 ∷ 0 ∷ 0 ∷ 0 ∷ 0 ∷ 255 ∷ 9 ∷ []

read_u64_sound_example :
    (18_374_686_479_671_624_193 < 2 ^ 64)
    × (take 8 nine_bytes ≡ bcs_bytes 8 18_374_686_479_671_624_193)
unfolding read_u64
read_u64_sound_example =
    read_u64_sound nine_bytes 18_374_686_479_671_624_193
      (All-append IsByte (bcs_bytes 8 18_374_686_479_671_624_193) (9 ∷ [])
        (bcs_bytes-IsByte 8 18_374_686_479_671_624_193) (omega arith, tt))
      refl

-- A number of seven bytes, a missing value and an empty list of values are refused.
refusals :
    (read_u64 (some (1 ∷ 2 ∷ 3 ∷ 4 ∷ 5 ∷ 6 ∷ 7 ∷ [])) ≡ none)
    × (dev_inspect_u64 (answered []) ≡ none)
    × (dev_inspect_u64_pair (answered ((bcs_bytes 8 7 ∷ []) ∷ [])) ≡ none)
unfolding read_u64 dev_inspect_u64 dev_inspect_u64_pair
refusals = (refl, refl, refl)

-- Only the byte 1 is true; the value of the last command counts.
bools :
    (try_dev_inspect_bool (answered (((0 ∷ []) ∷ []) ∷ ((1 ∷ []) ∷ []) ∷ [])) ≡ some (bool_ok true))
    × (try_dev_inspect_bool (answered (((2 ∷ []) ∷ []) ∷ [])) ≡ some (bool_ok false))
    × (try_dev_inspect_bool (answered ([] ∷ [])) ≡ some (bool_failed "missing_bool_return"))
    × (try_dev_inspect_bool (answered (([] ∷ []) ∷ [])) ≡ none)
unfolding try_dev_inspect_bool
bools = (refl, refl, refl, refl)

abbrev object_bytes : ℕ → List ℕ
object_bytes n = bcs_bytes 32 n

dev_inspect_address_faithful_example :
    ((t : Text) × (dev_inspect_address (answered ((object_bytes 4 ∷ []) ∷ [])) ≡ some t)
      × (is_address t ≡ true))
    × ((dev_inspect_address (answered ((object_bytes 4 ∷ []) ∷ []))
          ≡ dev_inspect_address (answered ((object_bytes 5 ∷ []) ∷ [])))
        ↔ (object_bytes 4 ≡ object_bytes 5))
dev_inspect_address_faithful_example =
    dev_inspect_address_faithful (object_bytes 4) (object_bytes 5) (bcs_bytes-IsByte 32 4)
      (bcs_bytes-IsByte 32 5) refl refl
