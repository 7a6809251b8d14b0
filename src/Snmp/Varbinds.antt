-- ===== src/Snmp/Varbinds.antt =====
-- The bindings of a request of snmp.py, written by build_request and read by _parse_message.
use srp.Prelude.{
  length, length-append, Bytes, ok-injective, >>=-eq-ok, ok, ℕ, ◌+◌, ◌^◌, ◌<◌, ◌≡◌, refl, sym, ap,
  ◌∙◌, List, [], ◌∷◌, ◌++◌, arith,
}
use srp.Ber.{
  encode_tlv, encode_oid, encode_null, oid_body, encode_arcs, decode_sequence, decode_oid,
}
use srp.Ber.Tlv.{length-encode_tlv}
use srp.Ber.Sequence.{
  encode_items, AreShort, encode_items-cons, encode_items-one, decode_sequence-encode_items,
}
use srp.Ber.Oid.{decode_oid-oid_body_iff, encode_oid-eq-ok}
use srp.Snmp.Dict.{Oid, put}
use srp.Snmp.Message.{
  build_varbind, build_varbinds, null, decode_value, sequence, Answer, add_varbind, read_varbinds,
}

-- An OID that survives the codec: its second arc is below 40, and its body within 128 bytes.
abbrev pub IsReadable : Oid → Type 0
IsReadable (a0 ∷ a1 ∷ arcs) = (a1 < 40) × (length (encode_arcs arcs) < 128)
IsReadable _ = ⊥

abbrev pub AreReadable : List Oid → Type 0
AreReadable [] = Unit
AreReadable (o ∷ oids) = IsReadable o × AreReadable oids

-- The bindings of a request: each OID that is asked for, with no value.
abbrev pub asked : List Oid → Answer → Answer
asked [] result = result
asked (o ∷ oids) result = asked oids (put o null result)

decode_oid-IsReadable :
    (o : Oid) {body : Bytes} → IsReadable o → oid_body o ≡ ok body → decode_oid body ≡ o
decode_oid-IsReadable [] r h = elim r [ ]
decode_oid-IsReadable (a ∷ []) r h = elim r [ ]
decode_oid-IsReadable (a0 ∷ a1 ∷ arcs) r h =
    (decode_oid-oid_body_iff a0 a1 arcs h (unfold oid_body in ground arith)).1 r.0

add_varbind-null :
    (o : Oid) (name : Bytes) (result : Answer)
    → IsReadable o
    → decode_oid name ≡ o
    → add_varbind ((0x06, name) ∷ (0x05, []) ∷ []) result ≡ put o null result
unfolding add_varbind decode_value
add_varbind-null [] name result r e = elim r [ ]
add_varbind-null (a ∷ arcs) name result r e = rw e

-- One binding of a request, written and read.
varbind_read :
    (o : Oid) {e : Bytes}
    → IsReadable o
    → build_varbind o ≡ ok e
    → length e < 256 ^ 127
    → (body : Bytes) × (fields : List (ℕ × Bytes)) × (encode_tlv sequence body ≡ ok e)
      × (decode_sequence body ≡ ok fields)
      × ((result : Answer) → add_varbind fields result ≡ put o null result)
unfolding build_varbind
varbind_read o {e} r h short =
    let (name, hn, h1) = >>=-eq-ok (encode_oid o) _ h in
    let (empty, he, h2) = >>=-eq-ok encode_null _ h1 in
    let (body, hb, hn') = encode_oid-eq-ok o hn in
    let he' : encode_tlv 0x05 [] ≡ ok empty = unfold encode_null in he in
    let sizes : length (name ++ empty) < length e = length-encode_tlv sequence (name ++ empty) h2 in
    let small : length body < 256 ^ 127 =
      omega (arith, length-encode_tlv 0x06 body hn', length-append name empty) in
    (
      name ++ empty,
      (0x06, body) ∷ (0x05, []) ∷ [],
      h2,
      decode_sequence-encode_items ((0x06, body) ∷ (0x05, []) ∷ []) (small, (omega arith, tt))
          (encode_items-cons 0x06 body ((0x05, []) ∷ []) hn' (encode_items-one 0x05 [] he')),
      λ result. add_varbind-null o body result r (decode_oid-IsReadable o r hb),
    )

read_varbinds-cons :
    (body : Bytes) (fields items : List (ℕ × Bytes)) (result : Answer)
    → decode_sequence body ≡ ok fields
    → read_varbinds ((sequence, body) ∷ items) result
      ≡ read_varbinds items (add_varbind fields result)
unfolding read_varbinds
read_varbinds-cons body fields items result h = rw h

-- The bindings of a request, written and read.
pub varbinds_read :
    (oids : List Oid) {e : Bytes}
    → AreReadable oids
    → build_varbinds oids ≡ ok e
    → length e < 256 ^ 127
    → (items : List (ℕ × Bytes)) × AreShort items
      × (encode_items items ≡ ok e)
      × ((result : Answer) → read_varbinds items result ≡ ok (asked oids result))
unfolding build_varbinds
varbinds_read [] r h short =
    ([], tt, unfold encode_items in h, λ result. unfold read_varbinds in refl)
varbinds_read (o ∷ oids) {e} r h short =
    let (first, hf, h1) = >>=-eq-ok (build_varbind o) _ h in
    let (rest, hr, h2) = >>=-eq-ok (build_varbinds oids) _ h1 in
    let size : length e ≡ length first + length rest =
      ap length (sym (ok-injective h2)) ∙ length-append first rest in
    let (body, fields, hb, hd, added) = varbind_read o r.0 hf (omega arith) in
    let (items, s, he, hi) = varbinds_read oids r.1 hr (omega arith) in
    (
      (sequence, body) ∷ items,
      (omega (arith, length-encode_tlv sequence body hb), s),
      encode_items-cons sequence body items hb he ∙ h2,
      λ result.
          read_varbinds-cons body fields items result hd
          ∙ ap (read_varbinds items) (added result)
          ∙ hi (put o null result),
    )
