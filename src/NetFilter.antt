-- ===== src/NetFilter.antt =====
-- src/netfilter.cpp: an address and a mask. `inet_addr`, which is not of this program, is an
-- argument: the address of a text as four bytes in the order of the network, read from the first.
pub mod Mask
use Prim.Native.Nat.{bit_and}
use ijson.Prelude.{
  ℕ, zero, suc, ◌+◌, ◌-◌, ◌*◌, ◌%◌, ◌/◌, ◌^◌, Bool, true, false, List, [], ◌∷◌, Bytes, ltb, ◌==◌,
  if◌then◌else◌, Option, none, some, Result, ok, err, ◌>>=◌, ◌>>◌,
}
use ijson.Prelude.Int.{ℤ, pos, negsuc, pos_part, neg_part, ◌-ℤ◌}
use ijson.Slice.{atoi, is_empty}
use ijson.Broker.Parse.{to_int}

pub record NetFilter : Type 0 where
  pub ip : ℕ
  pub mask : ℕ

-- `_mask << 1`, `n` times.
unfoldable pub shifted : ℕ → ℕ → ℕ
shifted zero mask = mask
shifted (suc n) mask = shifted n (mask * 2 % 2 ^ 32)

-- Bytes 0 and 3 change places, and bytes 1 and 2.
unfoldable pub swapped : ℕ → ℕ
swapped m =
    m % 2 ^ 8 * 2 ^ 24
    + m / 2 ^ 8 % 2 ^ 8 * 2 ^ 16
    + m / 2 ^ 16 % 2 ^ 8 * 2 ^ 8
    + m / 2 ^ 24 % 2 ^ 8

-- The number of bits that are shifted out for a prefix of `bits` bits.
unfoldable pub shifts : ℤ → ℕ
unfolding ◌-ℤ◌
shifts bits = pos_part (pos 32 -ℤ bits)

-- The mask, in the order of the network.
unfoldable pub mask_of : ℤ → ℕ
unfolding swapped shifted shifts
mask_of bits = swapped (shifted (shifts bits) (2 ^ 32 - 1))

-- The text before the first slash, and that behind it; `none` without a slash.
unfoldable pub split_mask : Bytes → Option (Bytes × Bytes)
split_mask [] = none
split_mask (a ∷ s) =
    let rest : Option (Bytes × Bytes) = elim (split_mask s) [
      | none ↦ none
      | some (x, y) ↦ some (a ∷ x, y)
    ] in
    if a == b'/' then some ([], s) else rest

abbrev filter_of : (Bytes → ℕ) → Bytes → ℤ → NetFilter
filter_of inet_addr ip bits = record {
  ip = bit_and (inet_addr ip) (mask_of bits);
  mask = mask_of bits;
}

-- The constructor.
unfoldable pub net_filter : (Bytes → ℕ) → Bytes → Result NetFilter
unfolding mask_of split_mask to_int
net_filter inet_addr s = elim (split_mask s) [
  | none ↦ ok (filter_of inet_addr s (pos 32))
  | some (ip, rest) ↦ (do
    bits ← atoi rest
    ok (filter_of inet_addr (if is_empty ip then rest else ip) (to_int bits)))
]

-- `match`
unfoldable pub matches : NetFilter → ℕ → Bool
matches f ip = bit_and ip f.mask == f.ip

-- `Server::_valid_ip`
unfoldable pub any_matches : List NetFilter → ℕ → Bool
unfolding matches
any_matches [] ip = false
any_matches (f ∷ fs) ip = let rest = any_matches fs ip in if matches f ip then true else rest

unfoldable pub valid_ip : List NetFilter → ℕ → Bool
unfolding any_matches
valid_ip [] ip = true
valid_ip (f ∷ fs) ip = any_matches (f ∷ fs) ip
