-- ===== src/Ber/Length.antt =====
-- What encode_length writes, decode_length reads back.
use Prim.Native.Nat.{bit_or}
use mathlib.Core.Path.{subst}
use native.Mathlib.Nat.{pow-suc}
use srp.Prelude.{
  ltb, ◌==◌, ltb→lt, lt→ltb, ltb-false, ltb-false→le, ==_iff, Bool-cases, all_below,
  all_below_sound, length, length-append, take-append, get_elem?-append, drop_past, Bytes, AreBytes,
  from_bytes_onto, ok-injective, ok, ℕ, zero, suc, ◌+◌, ◌/◌, ◌%◌, ◌^◌, ◌≤◌, ◌<◌, ◌≡◌, refl, sym, ap,
  ◌∙◌, inl, inr, true, false, [], ◌∷◌, ◌++◌, arith,
}
use srp.Ber.{shift_out, encode_length, decode_length}

-- The loop of `encode_length` keeps the number that it has still to write.
pub from_bytes-shift_out :
    (fuel n : ℕ) (body : Bytes)
    → n ≤ fuel
    → from_bytes_onto 0 (shift_out fuel n body) ≡ from_bytes_onto n body
unfolding shift_out
from_bytes-shift_out zero n body h = ap (λ k. from_bytes_onto k body) (omega arith)
from_bytes-shift_out (suc fuel) n body h = elim (Bool-cases (n == 0)) [
  | inl done ↦ rw done (ap (λ k. from_bytes_onto k body) (omega (arith, (==_iff n 0).0 done)))
  | inr more ↦ rw more (
      from_bytes-shift_out fuel (n / 256) ((n % 256) ∷ body) (omega arith)
      ∙ ap (λ k. from_bytes_onto k body) (omega arith))
]

-- One byte for each factor of 256.
pub length-shift_out :
    (k fuel n : ℕ) (body : Bytes) → n < 256 ^ k → length (shift_out fuel n body) ≤ k + length body
unfolding shift_out
length-shift_out k zero n body h = omega arith
length-shift_out zero (suc fuel) n body h =
    let done : (n == 0) ≡ true = ground arith in rw done (omega arith)
length-shift_out (suc k) (suc fuel) n body h = elim (Bool-cases (n == 0)) [
  | inl done ↦ rw done (omega arith)
  | inr more ↦ rw more (
      omega (
        arith,
        length-shift_out k fuel (n / 256) ((n % 256) ∷ body) (omega (arith, pow-suc 256 k)),
      ))
]

-- The loop writes bytes.
pub AreBytes-shift_out :
    (fuel n : ℕ) (body : Bytes) → AreBytes body → AreBytes (shift_out fuel n body)
unfolding shift_out
AreBytes-shift_out zero n body h = h
AreBytes-shift_out (suc fuel) n body h = elim (Bool-cases (n == 0)) [
  | inl done ↦ rw done h
  | inr more ↦ rw more (AreBytes-shift_out fuel (n / 256) ((n % 256) ∷ body) (omega arith, h))
]

bit_or-table : all_below 128 (λ k. bit_or 128 k == 128 + k) ≡ true
bit_or-table = refl

bit_or_128 : (k : ℕ) → k < 128 → bit_or 128 k ≡ 128 + k
bit_or_128 k h =
    (==_iff _ _).0 (all_below_sound 128 (λ x. bit_or 128 x == 128 + x) k bit_or-table h)

encode_length-short : (n : ℕ) → n < 128 → encode_length n ≡ ok (n ∷ [])
unfolding encode_length
encode_length-short n h = rw (lt→ltb n 128 h)

-- The bytes of a number that is not in the short form, and how many they are.
module _ (n : ℕ) (long : 128 ≤ n) (fits : n < 256 ^ 127) where
  length-long : length (shift_out n n []) < 128
  length-long = omega (arith, length-shift_out 127 n n [] fits)

  encode_length-long : encode_length n ≡ ok ((128 + length (shift_out n n [])) ∷ shift_out n n [])
  unfolding encode_length
  encode_length-long = rw (
    ltb-false n 128 long,
    bit_or_128 _ length-long,
    lt→ltb (128 + length (shift_out n n [])) 256 (omega (arith, length-long)),
  )

decode_length-short :
    (before after : Bytes) (n : ℕ)
    → n < 128
    → decode_length (before ++ n ∷ after) (length before) ≡ ok (n, 1)
unfolding decode_length
decode_length-short before after n h = rw (get_elem?-append before n after, lt→ltb n 128 h)

decode_length-long :
    (before after body : Bytes)
    → length body < 128
    → decode_length (before ++ (128 + length body) ∷ (body ++ after)) (length before)
      ≡ ok (from_bytes_onto 0 body, suc (length body))
unfolding decode_length
decode_length-long before after body h =
    let first : ℕ = 128 + length body in
    let low : first % 128 ≡ length body = omega arith in
    let enough : ltb (length (before ++ first ∷ (body ++ after))) (length before + 1 + length body)
        ≡ false =
      ltb-false _ _
        (omega (arith, length-append before (first ∷ (body ++ after)), length-append body after)) in
    rw
      (
        get_elem?-append before first (body ++ after),
        ltb-false first 128 (omega arith),
        low,
        enough,
        drop_past before first (body ++ after),
        take-append body after,
      )
      (ap (λ k. ok (from_bytes_onto 0 body, k)) (omega arith))

-- What encode_length writes, decode_length reads back, wherever it stands: the length, and the
-- number of bytes read. The bound is that of the long form, 127 bytes for the length.
pub decode_length-encode_length :
    (before after : Bytes) (n : ℕ) {e : Bytes}
    → n < 256 ^ 127
    → encode_length n ≡ ok e
    → decode_length (before ++ (e ++ after)) (length before) ≡ ok (n, length e)
decode_length-encode_length before after n {e} fits h = elim (Bool-cases (ltb n 128)) [
  | inl short ↦
      subst Good (ok-injective (sym (encode_length-short n (ltb→lt n 128 short)) ∙ h))
        (decode_length-short before after n (ltb→lt n 128 short))
  | inr long ↦
      subst Good (ok-injective (sym (encode_length-long n (ltb-false→le n 128 long) fits) ∙ h)) (
        decode_length-long before after (shift_out n n [])
          (length-long n (ltb-false→le n 128 long) fits)
        ∙ ap (λ k. ok (k, suc (length (shift_out n n []))))
            (from_bytes-shift_out n n [] (omega arith)))
]
  where
    Good : Bytes → Type 0
    Good b = decode_length (before ++ (b ++ after)) (length before) ≡ ok (n, length b)

-- A length below the bound of the long form is always written.
pub encode_length_total : (n : ℕ) → n < 256 ^ 127 → (e : Bytes) × (encode_length n ≡ ok e)
encode_length_total n fits = elim (Bool-cases (ltb n 128)) [
  | inl short ↦ (n ∷ [], encode_length-short n (ltb→lt n 128 short))
  | inr long ↦ (_, encode_length-long n (ltb-false→le n 128 long) fits)
]
