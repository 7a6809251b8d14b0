-- ===== src/Ber/Sequence.antt =====
-- decode_sequence: it ends on every input, stays within it, and undoes encode_tlv item by item.
use mathlib.Core.Path.{subst}
use srp.Prelude.{
  ltb, lt→ltb, Bool-cases, Option-cases, length, get_elem?, length-append, Bytes, Result, ◌>>=◌,
  ok-injective, err-injective, >>=-eq-ok, Result-cases, out_of_fuel, ok, err, ℕ, zero, suc, ◌+◌,
  ◌^◌, ◌≤◌, ◌<◌, ◌≡◌, sym, ap, ◌∙◌, ◌≢◌, inl, inr, List, [], ◌∷◌, ◌++◌, append_assoc, append-nil,
  arith,
}
use srp.Ber.{encode_tlv, decode_tlv, decode_from, decode_sequence}
use srp.Ber.Tlv.{decode_tlv_bounds, decode_tlv-encode_tlv, encode_tlv-eq-ok}

decode_tlv-not_out_of_fuel : (input : Bytes) (at : ℕ) → decode_tlv input at ≢ err out_of_fuel
unfolding decode_tlv
decode_tlv-not_out_of_fuel input at h = elim (Option-cases (get_elem? input at)) [
  | inl e ↦ cc (rw e at h)
  | inr (x, e) ↦ ground arith
]

-- Each round reads at least two bytes, so as many rounds as there are bytes left are enough.
decode_from-not_out_of_fuel :
    (fuel : ℕ) (body : Bytes) (at : ℕ)
    → length body ≤ at + fuel
    → decode_from fuel body at ≢ err out_of_fuel
unfolding decode_from
decode_from-not_out_of_fuel zero body at h fails = ground arith
decode_from-not_out_of_fuel (suc fuel) body at h fails = elim (Bool-cases (ltb at (length body))) [
  | inr stop ↦ cc (rw stop at fails)
  | inl go ↦ elim (Result-cases (decode_tlv body at)) [
    | inr (x, e) ↦
        decode_tlv-not_out_of_fuel body at (e ∙ ap err (err-injective (rw (go, e) at fails)))
    | inl ((tag, value, next), e) ↦ elim (Result-cases (decode_from fuel body next)) [
      | inl (items, ei) ↦ cc (rw (go, e, ei) at fails)
      | inr (x, ex) ↦
          decode_from-not_out_of_fuel fuel body next (omega (arith, decode_tlv_bounds body at e))
            (ex ∙ ap err (err-injective (rw (go, e, ex) at fails)))
    ]
  ]
]

-- The loop of decode_sequence ends on any bytes: it returns items or raises, and its bound on the
-- number of rounds is never what stops it.
pub decode_sequence-not_out_of_fuel : (body : Bytes) → decode_sequence body ≢ err out_of_fuel
unfolding decode_sequence
decode_sequence-not_out_of_fuel body =
    decode_from-not_out_of_fuel (length body) body 0 (omega arith)

-- The bytes that a list of items takes up at least.
abbrev pub extent : List (ℕ × Bytes) → ℕ
extent [] = 0
extent ((tag, value) ∷ items) = 2 + length value + extent items

decode_from_bounds :
    (fuel : ℕ) (body : Bytes) (at : ℕ) {items : List (ℕ × Bytes)}
    → at ≤ length body
    → decode_from fuel body at ≡ ok items
    → at + extent items ≤ length body
unfolding decode_from
decode_from_bounds zero body at h e = ground arith
decode_from_bounds (suc fuel) body at {items} h e = elim (Bool-cases (ltb at (length body))) [
  | inr stop ↦ subst (λ l. at + extent l ≤ length body) (ok-injective (rw stop at e)) (omega arith)
  | inl go ↦
      let ((tag, value, next), et, rest) = >>=-eq-ok (decode_tlv body at) _ (rw go at e) in
      let (more, em, last) = >>=-eq-ok (decode_from fuel body next) _ rest in
      let (shorter, inside) = decode_tlv_bounds body at et in
      let bound : next + extent more ≤ length body = decode_from_bounds fuel body next inside em in
      subst (λ l. at + extent l ≤ length body) (ok-injective last) (omega arith)
]

-- From untrusted bytes no more comes out than went in: the values and two bytes for each of them
-- fit into the input.
pub decode_sequence_bounds :
    (body : Bytes) {items : List (ℕ × Bytes)}
    → decode_sequence body ≡ ok items
    → extent items ≤ length body
unfolding decode_sequence
decode_sequence_bounds body h =
    omega (arith, decode_from_bounds (length body) body 0 (omega arith) h)

-- b"".join(encode_tlv(tag, value) for tag, value in items)
unfoldable pub encode_items : List (ℕ × Bytes) → Result Bytes
encode_items [] = ok []
encode_items ((tag, value) ∷ items) = do
  first ← encode_tlv tag value
  rest ← encode_items items
  ok (first ++ rest)

-- Every value is short enough for its length to be written.
abbrev pub AreShort : List (ℕ × Bytes) → Type 0
AreShort [] = Unit
AreShort ((tag, value) ∷ items) = (length value < 256 ^ 127) × AreShort items

decode_from_end : (fuel : ℕ) (body : Bytes) → decode_from fuel body (length body) ≡ ok []
unfolding decode_from
decode_from_end zero body = ground arith
decode_from_end (suc fuel) body = ground arith

decode_from_step :
    (fuel : ℕ) (body : Bytes) (at : ℕ) {tag next : ℕ} {value : Bytes} {items : List (ℕ × Bytes)}
    → at < length body
    → decode_tlv body at ≡ ok (tag, value, next)
    → decode_from fuel body next ≡ ok items
    → decode_from (suc fuel) body at ≡ ok ((tag, value) ∷ items)
unfolding decode_from
decode_from_step fuel body at inside et em = rw (lt→ltb _ _ inside, et, em)

decode_from-encode_items :
    (items : List (ℕ × Bytes)) (fuel : ℕ) (before : Bytes) {e : Bytes}
    → AreShort items
    → encode_items items ≡ ok e
    → length e ≤ fuel
    → decode_from fuel (before ++ e) (length before) ≡ ok items
unfolding decode_from encode_items
decode_from-encode_items [] fuel before s h f =
    subst (λ e. decode_from fuel (before ++ e) (length before) ≡ ok []) (ok-injective h)
      (rw append-nil (decode_from_end fuel before))
decode_from-encode_items ((tag, value) ∷ items) zero before {e} s h f =
    let (first, ef, rest) = >>=-eq-ok (encode_tlv tag value) _ h in
    let (more, em, last) = >>=-eq-ok (encode_items items) _ rest in
    let (l, _, _, shape) = encode_tlv-eq-ok tag value ef in
    absurd
      (omega (arith, f, ap length (ok-injective last), ap length shape, length-append first more))
decode_from-encode_items ((tag, value) ∷ items) (suc fuel) before {e} s h f =
    let (first, ef, rest) = >>=-eq-ok (encode_tlv tag value) _ h in
    let (more, em, last) = >>=-eq-ok (encode_items items) _ rest in
    let (l, _, _, shape) = encode_tlv-eq-ok tag value ef in
    let whole : first ++ more ≡ e = ok-injective last in
    let some_read : 1 ≤ length first = omega (arith, ap length shape) in
    let sum : length e ≡ length first + length more =
      ap length (sym whole) ∙ length-append first more in
    let later = decode_from-encode_items items fuel (before ++ first) s.1 em (omega arith) in
    decode_from_step fuel (before ++ e) (length before) (omega (arith, length-append before e))
      (subst
        (λ k.
          decode_tlv (before ++ k) (length before) ≡ ok (tag, value, length before + length first))
        whole (decode_tlv-encode_tlv before more tag value s.0 ef))
      (subst (λ k. decode_from fuel (before ++ k) (length before + length first) ≡ ok items) whole
        (rw (← append_assoc before first more, ← length-append before first) later))

-- decode_sequence undoes the concatenation of encoded items, where these can be encoded and each has
-- less than 256 ^ 127 bytes.
pub decode_sequence-encode_items :
    (items : List (ℕ × Bytes)) {e : Bytes}
    → AreShort items
    → encode_items items ≡ ok e
    → decode_sequence e ≡ ok items
unfolding decode_sequence
decode_sequence-encode_items items {e} s h =
    decode_from-encode_items items (length e) [] s h (omega arith)

pub encode_items-cons :
    (tag : ℕ) (value : Bytes) (items : List (ℕ × Bytes)) {e r : Bytes}
    → encode_tlv tag value ≡ ok e
    → encode_items items ≡ ok r
    → encode_items ((tag, value) ∷ items) ≡ ok (e ++ r)
unfolding encode_items
encode_items-cons tag value items h k = rw (h, k)

pub encode_items-one :
    (tag : ℕ) (value : Bytes) {e : Bytes}
    → encode_tlv tag value ≡ ok e
    → encode_items ((tag, value) ∷ []) ≡ ok e
unfolding encode_items
encode_items-one tag value {e} h = rw (h, append-nil e)
