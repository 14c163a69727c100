-- ===== src/Perfpayload/Encode/Wire.antt =====
-- How a receiver reads the wire format of Protocol Buffers: the description that the encoding is
-- held against. It reads the three wire types that a performance payload uses.
use forward_go_sdk.Prelude.{
  ℕ, zero, suc, ◌+◌, ◌-◌, ◌*◌, ◌/◌, ◌%◌, ◌==◌, Option, none, some, List, [], ◌∷◌, ◌++◌, ltb, length,
  if◌then◌else◌,
}
use forward_go_sdk.Perfpayload.Encode.{Bytes}

pub data Value : Type 0 where
  integer fixed32 : ℕ → Value
  delimited : Bytes → Value

abbrev pub Field : Type 0
Field = ℕ × Value

abbrev more_digits : ℕ → Option (ℕ × Bytes) → Option (ℕ × Bytes)
more_digits b none = none
more_digits b (some (v, rest)) = some (b - 128 + 128 * v, rest)

-- A base-128 integer, and what follows it.
unfoldable pub read_varint : Bytes → Option (ℕ × Bytes)
read_varint [] = none
read_varint (b ∷ bs) =
    let more = read_varint bs in if ltb b 128 then some (b, bs) else more_digits b more

-- The first `n` bytes, and what follows them.
unfoldable pub split_at : ℕ → Bytes → Option (Bytes × Bytes)
split_at zero bs = some ([], bs)
split_at (suc n) [] = none
split_at (suc n) (b ∷ bs) = elim (split_at n bs) [
  | none ↦ none
  | some (taken, rest) ↦ some (b ∷ taken, rest)
]

abbrev as_integer : ℕ → Option (ℕ × Bytes) → Option (Field × Bytes)
as_integer number none = none
as_integer number (some (v, rest)) = some ((number, integer v), rest)

abbrev as_delimited : ℕ → Option (Bytes × Bytes) → Option (Field × Bytes)
as_delimited number none = none
as_delimited number (some (v, rest)) = some ((number, delimited v), rest)

abbrev of_length : ℕ → Option (ℕ × Bytes) → Option (Field × Bytes)
of_length number none = none
of_length number (some (n, rest)) = as_delimited number (split_at n rest)

unfoldable pub read_fixed32 : Bytes → Option (ℕ × Bytes)
read_fixed32 (a ∷ b ∷ c ∷ d ∷ rest) = some (a + 256 * b + 65536 * c + 16777216 * d, rest)
read_fixed32 _ = none

abbrev as_fixed32 : ℕ → Option (ℕ × Bytes) → Option (Field × Bytes)
as_fixed32 number none = none
as_fixed32 number (some (v, rest)) = some ((number, fixed32 v), rest)

-- The value of a field, by the wire type.
unfoldable pub read_value : ℕ → ℕ → Bytes → Option (Field × Bytes)
read_value number wire bs =
    if wire == 0
    then as_integer number (read_varint bs)
    else if wire == 2
    then of_length number (read_varint bs)
    else if wire == 5
    then as_fixed32 number (read_fixed32 bs)
    else none

abbrev of_tag : Option (ℕ × Bytes) → Option (Field × Bytes)
of_tag none = none
of_tag (some (tag, rest)) = read_value (tag / 8) (tag % 8) rest

unfoldable pub read_field : Bytes → Option (Field × Bytes)
read_field bs = of_tag (read_varint bs)

abbrev pub prepend : List Field → Option (List Field) → Option (List Field)
prepend fs none = none
prepend fs (some gs) = some (fs ++ gs)

abbrev then_read : (Bytes → Option (List Field)) → Option (Field × Bytes) → Option (List Field)
then_read more none = none
then_read more (some (f, rest)) = prepend (f ∷ []) (more rest)

-- Fields up to the end of the bytes; each takes a byte at least, so as much fuel as bytes is enough.
unfoldable pub read_fields : ℕ → Bytes → Option (List Field)
read_fields fuel [] = some []
read_fields zero (b ∷ bs) = none
read_fields (suc fuel) (b ∷ bs) = then_read (read_fields fuel) (read_field (b ∷ bs))

unfoldable pub read_message : Bytes → Option (List Field)
read_message bs = read_fields (length bs) bs
