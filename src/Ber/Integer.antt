-- ===== src/Ber/Integer.antt =====
-- encode_integer: the body that it writes is the two's complement of the value.
use native.Mathlib.Nat.{pow-suc}
use srp.Prelude.{
  ltb, ==_iff, Bool-cases, length, Bytes, ℤ, push_byte, signed_onto, from_bytes_signed, pos, negsuc,
  ok, ℕ, zero, suc, ◌+◌, ◌/◌, ◌^◌, ◌≤◌, ◌<◌, ◌≡◌, refl, sym, ap, ◌∙◌, inl, inr, true, [], ◌∷◌, ◌++◌,
  arith,
}
use srp.Ber.{
  low_byte, shift_byte, is_sign, shift_out_signed, pad_sign, magnitude, integer_body,
  encode_integer, decode_tlv,
}
use srp.Ber.Tlv.{length-encode_tlv, encode_tlv_total, decode_tlv-encode_tlv}

-- What the loop of `encode_integer` ends at: 0, or -1 for a negative value.
abbrev sign : ℤ → ℤ
sign (pos n) = pos 0
sign (negsuc n) = negsuc 0

sign-shift_byte : (v : ℤ) → sign (shift_byte v) ≡ sign v
sign-shift_byte (pos n) = refl
sign-shift_byte (negsuc n) = refl

push_byte-shift_byte : (v : ℤ) → push_byte (shift_byte v) (low_byte v) ≡ v
push_byte-shift_byte (pos n) = ap pos (omega arith)
push_byte-shift_byte (negsuc n) = ap negsuc (omega arith)

sign_of_is_sign : (v : ℤ) → is_sign v ≡ true → sign v ≡ v
sign_of_is_sign (pos n) h = ap pos (sym ((==_iff n 0).0 h))
sign_of_is_sign (negsuc n) h = ap negsuc (sym ((==_iff n 0).0 h))

magnitude-shift_byte : (v : ℤ) → magnitude (shift_byte v) ≡ magnitude v / 256
magnitude-shift_byte (pos n) = refl
magnitude-shift_byte (negsuc n) = refl

sign_of_zero : (v : ℤ) → magnitude v ≤ 0 → sign v ≡ v
sign_of_zero (pos n) h = ap pos (omega arith)
sign_of_zero (negsuc n) h = ap negsuc (omega arith)

is_sign_of_zero : (v : ℤ) → magnitude v ≤ 0 → is_sign v ≡ true
is_sign_of_zero (pos n) h = ground arith
is_sign_of_zero (negsuc n) h = ground arith

-- The loop keeps the value: read back from its end point, the bytes stand for it.
signed_onto-shift_out :
    (fuel : ℕ) (v : ℤ) (body : Bytes)
    → magnitude v ≤ fuel
    → signed_onto (sign v) (shift_out_signed fuel v body) ≡ signed_onto v body
unfolding shift_out_signed
signed_onto-shift_out zero v body h = ap (λ s. signed_onto s body) (sign_of_zero v h)
signed_onto-shift_out (suc fuel) v body h = elim (Bool-cases (is_sign v)) [
  | inl done ↦ rw done (ap (λ s. signed_onto s body) (sign_of_is_sign v done))
  | inr more ↦
      rw (more, ← sign-shift_byte v)
        (signed_onto-shift_out fuel (shift_byte v) (low_byte v ∷ body)
            (omega (arith, magnitude-shift_byte v))
          ∙ ap (λ s. signed_onto s body) (push_byte-shift_byte v))
]

length-shift_out_signed :
    (k fuel : ℕ) (v : ℤ) (body : Bytes)
    → magnitude v < 256 ^ k
    → length (shift_out_signed fuel v body) ≤ k + length body
unfolding shift_out_signed
length-shift_out_signed k zero v body h = omega arith
length-shift_out_signed zero (suc fuel) v body h =
    rw (is_sign_of_zero v (omega arith)) (omega arith)
length-shift_out_signed (suc k) (suc fuel) v body h = elim (Bool-cases (is_sign v)) [
  | inl done ↦ rw done (omega arith)
  | inr more ↦ rw more (
      omega (
        arith,
        length-shift_out_signed k fuel (shift_byte v) (low_byte v ∷ body)
            (omega (arith, pow-suc 256 k, magnitude-shift_byte v)),
      ))
]

pad_sign-pos :
    (n : ℕ) (body : Bytes)
    → signed_onto (pos 0) body ≡ pos n
    → from_bytes_signed (pad_sign (pos n) body) ≡ pos n
unfolding pad_sign
pad_sign-pos n [] h = h
pad_sign-pos n (b ∷ bs) h = elim (Bool-cases (ltb b 128)) [
  | inl low ↦ rw (low, low) h
  | inr high ↦ rw high h
]

pad_sign-negsuc :
    (n : ℕ) (body : Bytes)
    → signed_onto (negsuc 0) body ≡ negsuc n
    → from_bytes_signed (pad_sign (negsuc n) body) ≡ negsuc n
unfolding pad_sign
pad_sign-negsuc n [] h = h
pad_sign-negsuc n (b ∷ bs) h = elim (Bool-cases (ltb b 128)) [
  | inl low ↦ rw low h
  | inr high ↦ rw (high, high) h
]

-- The body that encode_integer writes is the two's complement of the value, at any size: read
-- as a signed big-endian number it is the value again.
pub from_bytes_signed-integer_body : (v : ℤ) → from_bytes_signed (integer_body v) ≡ v
unfolding integer_body
from_bytes_signed-integer_body (pos zero) = refl
from_bytes_signed-integer_body (pos (suc n)) =
    pad_sign-pos (suc n) (shift_out_signed (suc n) (pos (suc n)) [])
      (signed_onto-shift_out (suc n) (pos (suc n)) [] (omega arith))
from_bytes_signed-integer_body (negsuc n) =
    pad_sign-negsuc n (shift_out_signed n (negsuc n) [])
      (signed_onto-shift_out n (negsuc n) [] (omega arith))

length-pad_sign : (v : ℤ) (body : Bytes) → length (pad_sign v body) ≤ suc (length body)
unfolding pad_sign
length-pad_sign (pos n) [] = omega arith
length-pad_sign (pos n) (b ∷ bs) = ground arith
length-pad_sign (negsuc n) [] = omega arith
length-pad_sign (negsuc n) (b ∷ bs) = ground arith

length-integer_body : (k : ℕ) (v : ℤ) → magnitude v < 256 ^ k → length (integer_body v) ≤ suc k
unfolding integer_body
length-integer_body k (pos zero) h = omega arith
length-integer_body k (pos (suc n)) h = omega (
  arith,
  length-pad_sign (pos (suc n)) (shift_out_signed (suc n) (pos (suc n)) []),
  length-shift_out_signed k (suc n) (pos (suc n)) [] h,
)
length-integer_body k (negsuc n) h = omega (
  arith,
  length-pad_sign (negsuc n) (shift_out_signed n (negsuc n) []),
  length-shift_out_signed k n (negsuc n) [] h,
)

-- An INTEGER of up to 126 bytes is written, and decode_tlv reads back from the middle of a message
-- its tag and a body whose signed big-endian reading is the value.
pub decode_tlv-encode_integer :
    (before after : Bytes) (v : ℤ)
    → magnitude v < 256 ^ 126
    → (e body : Bytes) × (encode_integer v ≡ ok e)
      × (decode_tlv (before ++ (e ++ after)) (length before)
          ≡ ok (0x02, body, length before + length e))
      × (from_bytes_signed body ≡ v)
unfolding encode_integer
decode_tlv-encode_integer before after v h =
    let fits : length (integer_body v) < 256 ^ 127 = omega (arith, length-integer_body 126 v h) in
    let (e, he) = encode_tlv_total 0x02 (integer_body v) (omega arith) fits in
    (
      e,
      integer_body v,
      he,
      decode_tlv-encode_tlv before after 0x02 (integer_body v) fits he,
      from_bytes_signed-integer_body v,
    )

pub length-encode_integer :
    (v : ℤ) {e : Bytes} → encode_integer v ≡ ok e → length (integer_body v) < length e
unfolding encode_integer
length-encode_integer v h = length-encode_tlv 0x02 (integer_body v) h
