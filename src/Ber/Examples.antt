-- ===== src/Ber/Examples.antt =====
-- Runs of the BER codec, and its theorems at inputs that meet their hypotheses.
use srp.Prelude.{
  length, Bytes, from_bytes_signed, pos, negsuc, value_error, ok, err, ◌+◌, ◌<◌, ◌≡◌, refl, ◌↔◌, [],
  ◌∷◌, ◌++◌, arith,
}
use srp.Ber.{
  encode_length, encode_tlv, decode_tlv, decode_sequence, encode_integer, oid_body, encode_oid,
  decode_oid,
}
use srp.Ber.Tlv.{decode_tlv-encode_tlv}
use srp.Ber.Sequence.{encode_items, decode_sequence-encode_items}
use srp.Ber.Integer.{decode_tlv-encode_integer}
use srp.Ber.Oid.{decode_oid-oid_body, decode_oid-oid_body_iff}

-- 300 needs the long form.
encode_length_300 : encode_length 300 ≡ ok (0x82 ∷ 0x01 ∷ 0x2C ∷ [])
unfolding encode_length
encode_length_300 = refl

encode_tlv_string : encode_tlv 0x04 (0x68 ∷ 0x69 ∷ []) ≡ ok (0x04 ∷ 2 ∷ 0x68 ∷ 0x69 ∷ [])
unfolding encode_tlv
encode_tlv_string = refl

decode_tlv-encode_tlv_example :
    decode_tlv (0x30 ∷ 0x04 ∷ 2 ∷ 0x68 ∷ 0x69 ∷ 5 ∷ []) 1 ≡ ok (0x04, 0x68 ∷ 0x69 ∷ [], 5)
decode_tlv-encode_tlv_example =
    decode_tlv-encode_tlv (0x30 ∷ []) (5 ∷ []) 0x04 (0x68 ∷ 0x69 ∷ []) (omega arith)
      encode_tlv_string

-- A length that promises more than there is.
decode_sequence_truncated : decode_sequence (0x04 ∷ 9 ∷ 1 ∷ []) ≡ err value_error
unfolding decode_sequence
decode_sequence_truncated = refl

decode_sequence-encode_items_example :
    decode_sequence (0x05 ∷ 0 ∷ 0x04 ∷ 1 ∷ 1 ∷ []) ≡ ok ((0x05, []) ∷ (0x04, 1 ∷ []) ∷ [])
unfolding encode_items encode_tlv
decode_sequence-encode_items_example =
    decode_sequence-encode_items ((0x05, []) ∷ (0x04, 1 ∷ []) ∷ []) (omega arith) refl

encode_integer_128 : encode_integer (pos 128) ≡ ok (0x02 ∷ 2 ∷ 0x00 ∷ 0x80 ∷ [])
unfolding encode_integer
encode_integer_128 = refl

encode_integer_minus_129 : encode_integer (negsuc 128) ≡ ok (0x02 ∷ 2 ∷ 0xFF ∷ 0x7F ∷ [])
unfolding encode_integer
encode_integer_minus_129 = refl

decode_tlv-encode_integer_example :
    (e body : Bytes) × (encode_integer (negsuc 128) ≡ ok e)
    × (decode_tlv (0x30 ∷ (e ++ 5 ∷ [])) 1 ≡ ok (0x02, body, 1 + length e))
    × (from_bytes_signed body ≡ negsuc 128)
decode_tlv-encode_integer_example =
    decode_tlv-encode_integer (0x30 ∷ []) (5 ∷ []) (negsuc 128) (omega arith)

-- 1.3.6.1.4.1.311
encode_oid_test :
    encode_oid (1 ∷ 3 ∷ 6 ∷ 1 ∷ 4 ∷ 1 ∷ 311 ∷ [])
    ≡ ok (0x06 ∷ 7 ∷ 0x2B ∷ 6 ∷ 1 ∷ 4 ∷ 1 ∷ 0x82 ∷ 0x37 ∷ [])
unfolding encode_oid
encode_oid_test = refl

decode_oid-oid_body_example : decode_oid (180 ∷ 7 ∷ []) ≡ 4 ∷ 20 ∷ 7 ∷ []
unfolding oid_body
decode_oid-oid_body_example = decode_oid-oid_body 2 100 (7 ∷ []) refl (omega arith)

decode_oid-oid_body_iff_example : (decode_oid (180 ∷ 7 ∷ []) ≡ 2 ∷ 100 ∷ 7 ∷ []) ↔ (100 < 40)
unfolding oid_body
decode_oid-oid_body_iff_example = decode_oid-oid_body_iff 2 100 (7 ∷ []) refl (omega arith)
