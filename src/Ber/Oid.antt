-- ===== src/Ber/Oid.antt =====
-- encode_oid and decode_oid on lists of arcs: when the one undoes the other, and when it cannot.
use mathlib.Core.Path.{ap₂}
use srp.Prelude.{
  ltb, ◌==◌, ltb→lt, ltb-false, ==_iff, Bool-cases, length, Bytes, >>=-eq-ok, ok, ℕ, zero, suc, ◌+◌,
  ◌*◌, ◌/◌, ◌%◌, ◌≤◌, ◌<◌, ◌≡◌, refl, sym, ap, ◌∙◌, ◌↔◌, inl, inr, true, false, List, [], ◌∷◌, ◌++◌,
  arith,
}
use srp.Ber.{
  encode_oid, encode_tlv, max_oid_bytes, shift_out_arc, encode_arc, encode_arcs, oid_body,
  decode_arcs, decode_oid,
}

-- The loop of `encode_oid` writes continuation bytes, which the loop of `decode_oid` adds up.
decode_arcs-shift_out :
    (fuel arc : ℕ) (chunk after : Bytes)
    → arc ≤ fuel
    → decode_arcs 0 (shift_out_arc fuel arc chunk ++ after) ≡ decode_arcs arc (chunk ++ after)
unfolding shift_out_arc decode_arcs
decode_arcs-shift_out zero arc chunk after h =
    ap (λ k. decode_arcs k (chunk ++ after)) (omega arith)
decode_arcs-shift_out (suc fuel) arc chunk after h = elim (Bool-cases (arc == 0)) [
  | inl done ↦ rw done (ap (λ k. decode_arcs k (chunk ++ after)) (sym ((==_iff arc 0).0 done)))
  | inr more ↦
      let high : ((arc % 128 + 128) / 128 % 2 == 0) ≡ false = ground arith in
      rw more (
        decode_arcs-shift_out fuel (arc / 128) ((arc % 128 + 128) ∷ chunk) after (omega arith)
        ∙ rw high (ap (λ k. decode_arcs k (chunk ++ after)) (omega arith)))
]

decode_arcs_last :
    (value b : ℕ) (after : Bytes)
    → b < 128
    → decode_arcs value (b ∷ after) ≡ (value * 128 + b) ∷ decode_arcs 0 after
unfolding decode_arcs
decode_arcs_last value b after h =
    let low : (b / 128 % 2 == 0) ≡ true = ground arith in
    rw low (ap (λ k. (value * 128 + k) ∷ decode_arcs 0 after) (omega arith))

decode_arcs-encode_arc :
    (arc : ℕ) (after : Bytes) → decode_arcs 0 (encode_arc arc ++ after) ≡ arc ∷ decode_arcs 0 after
unfolding encode_arc
decode_arcs-encode_arc arc after = elim (Bool-cases (ltb arc 128)) [
  | inl small ↦ rw small (
      decode_arcs_last 0 arc after (ltb→lt _ _ small)
      ∙ ap (λ k. k ∷ decode_arcs 0 after) (omega arith))
  | inr large ↦ rw large (
      decode_arcs-shift_out arc (arc / 128) ((arc % 128) ∷ []) after (omega arith)
      ∙ decode_arcs_last (arc / 128) (arc % 128) after (omega arith)
      ∙ ap (λ k. k ∷ decode_arcs 0 after) (omega arith))
]

decode_arcs-encode_arcs : (arcs : List ℕ) → decode_arcs 0 (encode_arcs arcs) ≡ arcs
unfolding encode_arcs
decode_arcs-encode_arcs [] = unfold decode_arcs in refl
decode_arcs-encode_arcs (arc ∷ arcs) =
    decode_arcs-encode_arc arc (encode_arcs arcs) ∙ ap (λ l. arc ∷ l) (decode_arcs-encode_arcs arcs)

oid_body-eq-ok :
    (a0 a1 : ℕ) (arcs : List ℕ) {body : Bytes}
    → oid_body (a0 ∷ a1 ∷ arcs) ≡ ok body
    → body ≡ (40 * a0 + a1) ∷ encode_arcs arcs
unfolding oid_body
oid_body-eq-ok a0 a1 arcs h = ground arith

-- What decode_oid makes of a body that encode_oid wrote, whatever the arcs.
pub decode_oid-oid_body :
    (a0 a1 : ℕ) (arcs : List ℕ) {body : Bytes}
    → oid_body (a0 ∷ a1 ∷ arcs) ≡ ok body
    → length body ≤ max_oid_bytes
    → decode_oid body ≡ (40 * a0 + a1) / 40 ∷ (40 * a0 + a1) % 40 ∷ arcs
unfolding decode_oid
decode_oid-oid_body a0 a1 arcs {body} h short =
    let shape = oid_body-eq-ok a0 a1 arcs h in
    let within : ltb max_oid_bytes (length ((40 * a0 + a1) ∷ encode_arcs arcs)) ≡ false =
      ltb-false _ _ (omega (arith, short, ap length shape)) in
    rw (shape, within, decode_arcs-encode_arcs arcs)

-- decode_oid undoes encode_oid exactly on the OIDs whose second arc is below 40, given that the
-- encoding succeeds and that the body is within decode_oid's limit of 128 bytes.
pub decode_oid-oid_body_iff :
    (a0 a1 : ℕ) (arcs : List ℕ) {body : Bytes}
    → oid_body (a0 ∷ a1 ∷ arcs) ≡ ok body
    → length body ≤ max_oid_bytes
    → (decode_oid body ≡ a0 ∷ a1 ∷ arcs) ↔ (a1 < 40)
decode_oid-oid_body_iff a0 a1 arcs h short =
    let read = decode_oid-oid_body a0 a1 arcs h short in
    (
      λ e. let second : (40 * a0 + a1) % 40 ≡ a1 = cc (sym read ∙ e) in omega arith,
      λ small. read ∙ ap₂ (λ x y. x ∷ y ∷ arcs) (omega arith) (omega arith),
    )

pub encode_oid-eq-ok :
    (o : List ℕ) {e : Bytes}
    → encode_oid o ≡ ok e
    → (body : Bytes) × (oid_body o ≡ ok body) × (encode_tlv 0x06 body ≡ ok e)
unfolding encode_oid
encode_oid-eq-ok o h = >>=-eq-ok (oid_body o) _ h
