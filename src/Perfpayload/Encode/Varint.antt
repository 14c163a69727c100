-- ===== src/Perfpayload/Encode/Varint.antt =====
-- Round trips of integers.
use forward_go_sdk.Prelude.{
  ℕ, zero, suc, ◌+◌, ◌-◌, ◌*◌, ◌/◌, ◌%◌, ◌^◌, ◌≤◌, ◌<◌, ◌≡◌, true, false, some, [], ◌∷◌, ◌++◌, leb,
  length, arith, Bool-cases, inl, inr, leb_false→lt, leb_gt, All,
}
use forward_go_sdk.Perfpayload.Encode.{Bytes, varint_from, varint, little_endian}
use forward_go_sdk.Perfpayload.Encode.Wire.{read_varint, read_fixed32}

-- What `fuel` digits of base 128 hold.
abbrev digits_bound : ℕ → ℕ
digits_bound zero = 1
digits_bound (suc fuel) = 128 * digits_bound fuel

varint_from-last : (fuel v : ℕ) → leb 128 v ≡ false → varint_from (suc fuel) v ≡ v ∷ []
unfolding varint_from
varint_from-last fuel v h = ground arith

varint_from-more :
    (fuel v : ℕ)
    → leb 128 v ≡ true
    → varint_from (suc fuel) v ≡ (v % 128 + 128) ∷ varint_from fuel (v / 128)
unfolding varint_from
varint_from-more fuel v h = ground arith

read_varint-last :
    (b : ℕ) (rest : Bytes) → leb 128 b ≡ false → read_varint (b ∷ rest) ≡ some (b, rest)
unfolding read_varint
read_varint-last b rest h = ground arith

read_varint-more :
    (v u : ℕ) (bs rest : Bytes)
    → read_varint bs ≡ some (v / 128, rest)
    → read_varint ((v % 128 + 128) ∷ bs) ≡ some (v, rest)
unfolding read_varint
read_varint-more v u bs rest h =
    let sum : v % 128 + 128 - 128 + 128 * (v / 128) ≡ v = omega arith in ground (arith, sum)

read_varint-varint_from :
    (fuel v : ℕ) (rest : Bytes)
    → v < digits_bound (suc fuel)
    → read_varint (varint_from (suc fuel) v ++ rest) ≡ some (v, rest)
read_varint-varint_from zero v rest h =
    let b : leb 128 v ≡ false = leb_gt 128 v (omega arith) in
    rw (varint_from-last zero v b) (read_varint-last v rest b)
read_varint-varint_from (suc fuel) v rest h = elim (Bool-cases (leb 128 v)) [
  | inr b ↦ rw (varint_from-last (suc fuel) v b) (read_varint-last v rest b)
  | inl b ↦
      rw (varint_from-more (suc fuel) v b)
        (read_varint-more v 0 _ rest (read_varint-varint_from fuel (v / 128) rest (omega arith)))
]

-- Every uint64 is read back from its bytes, whatever follows them.
pub read_varint-varint :
    (v : ℕ) (rest : Bytes) → v < 2 ^ 64 → read_varint (varint v ++ rest) ≡ some (v, rest)
unfolding varint
read_varint-varint v rest h = read_varint-varint_from 9 v rest (omega arith)

varint_from-bytes : (fuel v : ℕ) → All (λ b. b < 256) (varint_from fuel v)
unfolding varint_from
varint_from-bytes zero v = tt
varint_from-bytes (suc fuel) v = elim (Bool-cases (leb 128 v)) [
  | inl b ↦ rw b (omega arith, varint_from-bytes fuel (v / 128))
  | inr b ↦ rw b (omega (arith, leb_false→lt 128 v b), tt)
]

varint_from-short : (fuel v : ℕ) → length (varint_from fuel v) ≤ fuel
unfolding varint_from
varint_from-short zero v = omega arith
varint_from-short (suc fuel) v = ground (arith, varint_from-short fuel (v / 128))

pub varint_short : (v : ℕ) → length (varint v) ≤ 10
unfolding varint
varint_short v = varint_from-short 10 v

pub varint_pos : (v : ℕ) → 1 ≤ length (varint v)
unfolding varint
varint_pos v = elim (Bool-cases (leb 128 v)) [
  | inl b ↦ rw (varint_from-more 9 v b) (omega arith)
  | inr b ↦ rw (varint_from-last 9 v b) (omega arith)
]

pub read_fixed32-little_endian :
    (v : ℕ) (rest : Bytes) → v < 2 ^ 32 → read_fixed32 (little_endian v ++ rest) ≡ some (v, rest)
unfolding read_fixed32 little_endian
read_fixed32-little_endian v rest h =
    let sum : v % 256
          + 256 * (v / 256 % 256)
          + 65536 * (v / 65536 % 256)
          + 16777216 * (v / 16777216 % 256)
        ≡ v =
      omega arith in
    rw sum
