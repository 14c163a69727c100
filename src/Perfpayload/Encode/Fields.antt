-- ===== src/Perfpayload/Encode/Fields.antt =====
-- What each writer of encode.go writes, read as fields.
use mathlib.Core.Path.{subst}
use mathlib.Core.List.{append-nil, append_assoc}
use forward_go_sdk.Prelude.{
  ℕ, zero, suc, ◌+◌, ◌-◌, ◌*◌, ◌/◌, ◌%◌, ◌^◌, ◌==◌, ◌≤◌, ◌<◌, ◌≡◌, refl, ap, ◌∙◌, Option, none,
  some, List, [], ◌∷◌, ◌++◌, length, length-append, arith, Bool-cases, inl, inr, if◌then◌else◌,
}
use forward_go_sdk.Text.{is_empty}
use forward_go_sdk.Perfpayload.Encode.{
  Bytes, varint, tag, uint, float, bytes, str, little_endian, is_float_zero,
}
use forward_go_sdk.Perfpayload.Encode.Wire.{
  Field, integer, fixed32, delimited, read_varint, split_at, read_value, read_field, read_fields,
  read_message, prepend,
}
use forward_go_sdk.Perfpayload.Encode.Varint.{
  read_varint-varint, varint_pos, read_fixed32-little_endian,
}

abbrev fuel_for : List Field → ℕ → ℕ
fuel_for [] n = n
fuel_for (_ ∷ fs) n = suc (fuel_for fs n)

-- Bytes that a receiver reads as some fields, before whatever follows.
pub record Writes (bs : Bytes) (fs : List Field) : Type 0 where
  pub short : length fs ≤ length bs
  pub reads :
      (n : ℕ) (rest : Bytes)
      → read_fields (fuel_for fs n) (bs ++ rest) ≡ prepend fs (read_fields n rest)

prepend_none : (r : Option (List Field)) → r ≡ prepend [] r
prepend_none none = refl
prepend_none (some fs) = refl

pub Writes-nil : Writes [] []
Writes-nil = record { short = omega arith; reads = λ n rest. prepend_none (read_fields n rest) }

prepend-append :
    (fs gs : List Field) (r : Option (List Field))
    → prepend (fs ++ gs) r ≡ prepend fs (prepend gs r)
prepend-append fs gs none = refl
prepend-append fs gs (some hs) = ap (λ (l : List Field). some l) (append_assoc fs gs hs)

fuel_for-append : (fs gs : List Field) (n : ℕ) → fuel_for (fs ++ gs) n ≡ fuel_for fs (fuel_for gs n)
fuel_for-append [] gs n = refl
fuel_for-append (f ∷ fs) gs n = ap (λ (k : ℕ). suc k) (fuel_for-append fs gs n)

infixl 65 ◌<+>◌
pub ◌<+>◌ :
    {bs cs : Bytes} {fs gs : List Field}
    → Writes bs fs
    → Writes cs gs
    → Writes (bs ++ cs) (fs ++ gs)
◌<+>◌ {bs} {cs} {fs} {gs} v w = record {
  short = omega (arith, length-append {0} bs cs, length-append {0} fs gs, v.short, w.short);
  reads = λ n rest.
      rw
        (
          append_assoc bs cs rest,
          fuel_for-append fs gs n,
          prepend-append fs gs (read_fields n rest),
        )
        (v.reads (fuel_for gs n) (cs ++ rest) ∙ ap (prepend fs) (w.reads n rest));
}

read_field-nil : {f : Field} {rest : Bytes} → read_field [] ≡ some (f, rest) → ⊥
unfolding read_field read_varint
read_field-nil h = cc

read_fields-nil : (n : ℕ) → read_fields n [] ≡ some []
unfolding read_fields
read_fields-nil zero = refl
read_fields-nil (suc n) = refl

read_fields-field :
    (bs rest : Bytes) (f : Field) (n : ℕ)
    → read_field bs ≡ some (f, rest)
    → read_fields (suc n) bs ≡ prepend (f ∷ []) (read_fields n rest)
unfolding read_fields
read_fields-field [] rest f n h = absurd (read_field-nil h)
read_fields-field (b ∷ bs) rest f n h = rw h

Writes-field :
    (bs : Bytes) (f : Field)
    → 1 ≤ length bs
    → ((rest : Bytes) → read_field (bs ++ rest) ≡ some (f, rest))
    → Writes bs (f ∷ [])
Writes-field bs f long h = record {
  short = omega arith;
  reads = λ n rest. read_fields-field (bs ++ rest) rest f n (h rest);
}

fuel_for-sub : (fs : List Field) (k : ℕ) → length fs ≤ k → fuel_for fs (k - length fs) ≡ k
fuel_for-sub [] k h = omega arith
fuel_for-sub (f ∷ fs) zero h = absurd (omega arith)
fuel_for-sub (f ∷ fs) (suc k) h =
    let e : suc k - suc (length fs) ≡ k - length fs = omega arith in
    rw e (ap (λ (n : ℕ). suc n) (fuel_for-sub fs k (omega arith)))

-- A message that some writers wrote is read as their fields.
pub read_message-Writes : {bs : Bytes} {fs : List Field} → Writes bs fs → read_message bs ≡ some fs
unfolding read_message
read_message-Writes {bs} {fs} w =
    subst (λ (n : ℕ). read_fields n bs ≡ some fs) (fuel_for-sub fs (length bs) w.short)
      (subst (λ (cs : Bytes). read_fields (fuel_for fs left) cs ≡ some fs) (append-nil bs)
        (w.reads left []
          ∙ ap (prepend fs) (read_fields-nil left)
          ∙ ap (λ (l : List Field). some l) (append-nil fs)))
  where
    left : ℕ
    left = length bs - length fs

-- The field numbers of the schema fit in a tag of one byte.
IsNumber : ℕ → Type 0
IsNumber number = number < 16

read_field-tag :
    (number wire : ℕ) (rest : Bytes)
    → number < 16
    → wire < 8
    → read_field (tag number wire ++ rest) ≡ read_value number wire rest
unfolding read_field tag
read_field-tag number wire rest h k =
    let number_is : (number * 8 + wire) / 8 ≡ number = omega arith in
    let wire_is : (number * 8 + wire) % 8 ≡ wire = omega arith in
    rw (read_varint-varint (number * 8 + wire) rest (omega arith), number_is, wire_is)

split_at-length : (bs rest : Bytes) → split_at (length bs) (bs ++ rest) ≡ some (bs, rest)
unfolding split_at
split_at-length [] rest = refl
split_at-length (b ∷ bs) rest = rw (split_at-length bs rest)

abbrev pub uint_field : ℕ → ℕ → List Field
uint_field number v = if v == 0 then [] else (number, integer v) ∷ []

abbrev pub float_field : ℕ → ℕ → List Field
float_field number v = if is_float_zero v then [] else (number, fixed32 v) ∷ []

abbrev pub str_field : ℕ → Bytes → List Field
str_field number v = if is_empty v then [] else (number, delimited v) ∷ []

tagged-long : (number wire : ℕ) (v : Bytes) → 1 ≤ length (tag number wire ++ v)
unfolding tag
tagged-long number wire v =
    omega (arith, varint_pos (number * 8 + wire), length-append {0} (varint (number * 8 + wire)) v)

module _ (number : ℕ) (small : number < 16) where
  read_field-integer :
      (v : ℕ) (rest : Bytes)
      → v < 2 ^ 64
      → read_field ((tag number 0 ++ varint v) ++ rest) ≡ some ((number, integer v), rest)
  unfolding read_value
  read_field-integer v rest h = rw (
    append_assoc (tag number 0) (varint v) rest,
    read_field-tag number 0 (varint v ++ rest) small (omega arith),
    read_varint-varint v rest h,
  )

  read_field-fixed32 :
      (v : ℕ) (rest : Bytes)
      → v < 2 ^ 32
      → read_field ((tag number 5 ++ little_endian v) ++ rest) ≡ some ((number, fixed32 v), rest)
  unfolding read_value
  read_field-fixed32 v rest h = rw (
    append_assoc (tag number 5) (little_endian v) rest,
    read_field-tag number 5 (little_endian v ++ rest) small (omega arith),
    read_fixed32-little_endian v rest h,
  )

  read_field-delimited :
      (v rest : Bytes)
      → length v < 2 ^ 64
      → read_field ((tag number 2 ++ varint (length v) ++ v) ++ rest)
        ≡ some ((number, delimited v), rest)
  unfolding read_value
  read_field-delimited v rest h = rw (
    append_assoc (tag number 2 ++ varint (length v)) v rest,
    append_assoc (tag number 2) (varint (length v)) (v ++ rest),
    read_field-tag number 2 (varint (length v) ++ (v ++ rest)) small (omega arith),
    read_varint-varint (length v) (v ++ rest) h,
    split_at-length v rest,
  )

  pub uint-Writes : (v : ℕ) → v < 2 ^ 64 → Writes (uint number v) (uint_field number v)
  unfolding uint
  uint-Writes v h = elim (Bool-cases (v == 0)) [
    | inl z ↦ rw z Writes-nil
    | inr z ↦ rw z (Writes-field _ _ (tagged-long _ _ _) (λ rest. read_field-integer v rest h))
  ]

  pub float-Writes : (v : ℕ) → v < 2 ^ 32 → Writes (float number v) (float_field number v)
  unfolding float
  float-Writes v h = elim (Bool-cases (is_float_zero v)) [
    | inl z ↦ rw z Writes-nil
    | inr z ↦ rw z (Writes-field _ _ (tagged-long _ _ _) (λ rest. read_field-fixed32 v rest h))
  ]

  pub bytes-Writes :
      (v : Bytes) → length v < 2 ^ 64 → Writes (bytes number v) ((number, delimited v) ∷ [])
  unfolding bytes
  bytes-Writes v h = Writes-field _ _ long (λ rest. read_field-delimited v rest h)
    where
      long : 1 ≤ length (tag number 2 ++ varint (length v) ++ v)
      long = omega (
        arith,
        tagged-long number 2 (varint (length v)),
        length-append {0} (tag number 2 ++ varint (length v)) v,
      )

  pub str-Writes : (v : Bytes) → length v < 2 ^ 64 → Writes (str number v) (str_field number v)
  unfolding str
  str-Writes v h = elim (Bool-cases (is_empty v)) [
    | inl z ↦ rw z Writes-nil
    | inr z ↦ rw z (bytes-Writes v h)
  ]
