-- ===== src/Ber/Tlv.antt =====
-- encode_tlv and decode_tlv: the round trip, and what a successful read promises of the input.
use mathlib.Core.Path.{subst}
use srp.Prelude.{
  ltb, ltb→lt, lt→ltb, ltb-false, Bool-cases, Option-cases, length, get_elem?, take, drop,
  length-append, length-take, length-drop, get_elem?-append, get_elem?-eq-some, slice-append, Bytes,
  or_index_error, ok-injective, >>=-eq-ok, ok, ℕ, ◌+◌, ◌^◌, ◌≤◌, ◌<◌, ◌≡◌, sym, ap, inl, inr, false,
  [], ◌∷◌, ◌++◌, append_assoc, arith,
}
use srp.Ber.{encode_length, encode_tlv, decode_length, decode_tlv}
use srp.Ber.Length.{encode_length_total, decode_length-encode_length}

-- A TLV that was written has its tag, its length and its value in a row.
pub encode_tlv-eq-ok :
    (tag : ℕ) (body : Bytes) {e : Bytes}
    → encode_tlv tag body ≡ ok e
    → (l : Bytes) × (encode_length (length body) ≡ ok l) × (tag < 256) × (e ≡ tag ∷ (l ++ body))
unfolding encode_tlv
encode_tlv-eq-ok tag body h = elim (Bool-cases (ltb tag 256)) [
  | inl fits ↦
      let (l, hl, he) =
        >>=-eq-ok (encode_length (length body)) (λ l. ok (tag ∷ (l ++ body))) (rw fits at h) in
      (l, hl, ltb→lt tag 256 fits, sym (ok-injective he))
  | inr big ↦ let impossible : ⊥ = cc (rw big at h) in absurd impossible
]

module _ (before after : Bytes) (tag : ℕ) (body : Bytes) (fits : length body < 256 ^ 127) where
  -- The length field, read from behind the tag.
  decode_length-inside :
      (l : Bytes)
      → encode_length (length body) ≡ ok l
      → decode_length (before ++ ((tag ∷ (l ++ body)) ++ after)) (length before + 1)
        ≡ ok (length body, length l)
  decode_length-inside l hl =
      subst
        (λ p.
          decode_length (before ++ ((tag ∷ (l ++ body)) ++ after)) p ≡ ok (length body, length l))
        (omega (arith, length-append before (tag ∷ [])))
        (subst
          (λ input. decode_length input (length (before ++ tag ∷ [])) ≡ ok (length body, length l))
          (simp append_assoc)
          (decode_length-encode_length (before ++ tag ∷ []) (body ++ after) (length body) fits hl))

  tlv_read :
      (l : Bytes)
      → encode_length (length body) ≡ ok l
      → decode_tlv (before ++ ((tag ∷ (l ++ body)) ++ after)) (length before)
        ≡ ok (tag, body, length before + length (tag ∷ (l ++ body)))
  unfolding decode_tlv
  tlv_read l hl =
      rw
        (get_elem?-append before tag ((l ++ body) ++ after), decode_length-inside l hl, enough, cut)
        (ap (λ k. ok (tag, body, k)) (omega (arith, length-append l body)))
    where
      input : Bytes
      input = before ++ ((tag ∷ (l ++ body)) ++ after)

      enough : ltb (length input) (length before + 1 + length l + length body) ≡ false
      enough = ltb-false _ _ (
          omega (
            arith,
            length-append before ((tag ∷ (l ++ body)) ++ after),
            length-append (l ++ body) after,
            length-append l body,
          ))

      cut : take (length body) (drop (length before + 1 + length l) input) ≡ body
      cut =
          slice-append (before ++ tag ∷ l) body after input _ (simp append_assoc)
            (omega (arith, length-append before (tag ∷ l)))

-- What encode_tlv writes of a value of less than 256 ^ 127 bytes, decode_tlv reads back, wherever it
-- stands in a message: the tag, the value, and the position behind it.
pub decode_tlv-encode_tlv :
    (before after : Bytes) (tag : ℕ) (body : Bytes) {e : Bytes}
    → length body < 256 ^ 127
    → encode_tlv tag body ≡ ok e
    → decode_tlv (before ++ (e ++ after)) (length before) ≡ ok (tag, body, length before + length e)
decode_tlv-encode_tlv before after tag body {e} fits h =
    let (l, hl, _, he) = encode_tlv-eq-ok tag body h in
    rw he (tlv_read before after tag body fits l hl)

-- A tag that is a byte, with a value below the bound, is always written.
pub encode_tlv_total :
    (tag : ℕ) (body : Bytes)
    → tag < 256
    → length body < 256 ^ 127
    → (e : Bytes) × (encode_tlv tag body ≡ ok e)
unfolding encode_tlv
encode_tlv_total tag body t fits =
    let (l, hl) = encode_length_total (length body) fits in
    (tag ∷ (l ++ body), rw (lt→ltb tag 256 t, hl))

-- A TLV is longer than its value.
pub length-encode_tlv :
    (tag : ℕ) (body : Bytes) {e : Bytes} → encode_tlv tag body ≡ ok e → length body < length e
length-encode_tlv tag body h =
    let (l, _, _, shape) = encode_tlv-eq-ok tag body h in
    omega (arith, ap length shape, length-append l body)

-- A length that was read ends within the input.
pub decode_length_bounds :
    (input : Bytes) (at : ℕ) {n k : ℕ}
    → decode_length input at ≡ ok (n, k)
    → (1 ≤ k) × (at + k ≤ length input)
unfolding decode_length
decode_length_bounds input at h = elim (Option-cases (get_elem? input at)) [
  | inl e ↦ let impossible : ⊥ = cc (rw e at h) in absurd impossible
  | inr (x, e) ↦ ground (arith, e, get_elem?-eq-some input at e)
]

-- What decode_tlv reads from any bytes at all lies within the input: the value is shorter than
-- what is left by at least the two bytes of the tag and the length.
pub decode_tlv_bounds :
    (input : Bytes) (at : ℕ) {tag next : ℕ} {value : Bytes}
    → decode_tlv input at ≡ ok (tag, value, next)
    → (at + 2 + length value ≤ next) × (next ≤ length input)
unfolding decode_tlv
decode_tlv_bounds input at h =
    let (t, ht, rest) = >>=-eq-ok (or_index_error (get_elem? input at)) _ h in
    let ((n, k), hl, rest') = >>=-eq-ok (decode_length input (at + 1)) _ rest in
    ground (
      arith,
      rest',
      decode_length_bounds input (at + 1) hl,
      length-take n (drop (at + 1 + k) input),
      length-drop (at + 1 + k) input,
    )
