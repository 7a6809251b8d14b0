-- ===== src/Snmp/Message.antt =====
-- Requests and answers of snmp.py: build_request, _decode_value, _find_first and _parse_message.
use srp.Prelude.{
  ◌>>=◌, ◌==◌, if◌then◌else◌, Bytes, from_bytes_onto, ℤ, from_bytes_signed, pos, Result, ok, err, ℕ,
  Bool, ◌||◌, Option, none, some, List, [], ◌∷◌, ◌++◌,
}
use srp.Ber.{
  decode_tlv, decode_sequence, encode_tlv, encode_integer, encode_octet_string, encode_null,
  encode_oid, decode_oid,
}
use srp.Snmp.Dict.{Oid, put}

abbrev pub get : ℕ
get = 0xA0

abbrev pub getnext : ℕ
getnext = 0xA1

abbrev pub getresponse : ℕ
getresponse = 0xA2

abbrev pub getbulk : ℕ
getbulk = 0xA5

abbrev pub sequence : ℕ
sequence = 0x30

-- encode_tlv(_SEQUENCE, encode_oid(o) + encode_null())
unfoldable pub build_varbind : Oid → Result Bytes
build_varbind o = do name ← encode_oid o; empty ← encode_null; encode_tlv sequence (name ++ empty)

unfoldable pub build_varbinds : List Oid → Result Bytes
build_varbinds [] = ok []
build_varbinds (o ∷ oids) = do
  first ← build_varbind o
  rest ← build_varbinds oids
  ok (first ++ rest)

unfoldable pub build_request : ℕ → List Oid → Bytes → ℤ → ℤ → ℤ → ℤ → Result Bytes
build_request pdu_type oids community version request_id non_repeaters max_repetitions = do
  varbinds ← build_varbinds oids
  vb_seq ← encode_tlv sequence varbinds
  id ← encode_integer request_id
  second ← encode_integer (if pdu_type == getbulk then non_repeaters else pos 0)
  third ← encode_integer (if pdu_type == getbulk then max_repetitions else pos 0)
  pdu ← encode_tlv pdu_type (id ++ (second ++ (third ++ vb_seq)))
  v ← encode_integer version
  c ← encode_octet_string community
  encode_tlv sequence (v ++ (c ++ pdu))

-- What a binding can hold. `text` stands for the characters that utf-8, or else latin-1, makes of
-- the bytes, `address` for the dotted text of an IpAddress.
pub data Value : Type 0 where
  int : ℤ → Value
  text : Bytes → Value
  oid : Oid → Value
  address : Bytes → Value
  null : Value

abbrev is_counter : ℕ → Bool
is_counter tag = tag == 0x41 || (tag == 0x42 || (tag == 0x43 || tag == 0x46))

unfoldable pub decode_value : ℕ → Bytes → Value
decode_value tag body =
    if tag == 0x02
    then int (from_bytes_signed body)
    else if is_counter tag
    then int (pos (from_bytes_onto 0 body))
    else if tag == 0x04
    then text body
    else if tag == 0x06
    then oid (decode_oid body)
    else if tag == 0x40
    then address body
    else null

unfoldable pub find_first : List (ℕ × Bytes) → (ℕ → Bool) → Bytes
find_first [] wanted = []
find_first ((tag, value) ∷ items) wanted = if wanted tag then value else find_first items wanted

abbrev pub is_pdu : ℕ → Bool
is_pdu tag = tag == get || (tag == getnext || (tag == getresponse || tag == getbulk))

abbrev pub is_sequence : ℕ → Bool
is_sequence tag = tag == sequence

abbrev pub Answer : Type 0
Answer = List (Oid × Value)

-- the body of the loop over the bindings, once its fields are read
unfoldable pub add_varbind : List (ℕ × Bytes) → Answer → Answer
add_varbind ((tag, name) ∷ (vtag, value) ∷ _) result =
    if tag == 0x06
    then elim (decode_oid name) [
      | [] ↦ result
      | a ∷ arcs ↦ put (a ∷ arcs) (decode_value vtag value) result
    ]
    else result
add_varbind _ result = result

-- `for vbtag, vbval in ber.decode_sequence(varbinds_seq)`
unfoldable pub read_varbinds : List (ℕ × Bytes) → Answer → Result Answer
read_varbinds [] result = ok result
read_varbinds ((vbtag, vbval) ∷ items) result =
    let skip = read_varbinds items result in
    let taken : Result Answer = do
      fields ← decode_sequence vbval
      read_varbinds items (add_varbind fields result)
    in if vbtag == sequence then taken else skip

unfoldable pub request_id_of : List (ℕ × Bytes) → Option ℤ
request_id_of [] = none
request_id_of ((tag, value) ∷ items) = if tag == 0x02 then some (from_bytes_signed value) else none

-- The varbinds of a PDU, once its items are read.
unfoldable pub parse_pdu : List (ℕ × Bytes) → Result (Option ℤ × Answer)
parse_pdu pdu_items = elim (find_first pdu_items is_sequence) [
  | [] ↦ ok (request_id_of pdu_items, [])
  | b ∷ bs ↦ do
    varbinds ← decode_sequence (b ∷ bs)
    result ← read_varbinds varbinds []
    ok (request_id_of pdu_items, result)
]

-- The PDU within a message, once the message's items are read.
unfoldable pub parse_items : List (ℕ × Bytes) → Result (Option ℤ × Answer)
parse_items items = elim (find_first items is_pdu) [
  | [] ↦ ok (none, [])
  | b ∷ bs ↦ do pdu_items ← decode_sequence (b ∷ bs); parse_pdu pdu_items
]

-- the body of the `try`
unfoldable pub try_message : Bytes → Result (Option ℤ × Answer)
try_message input = do
  (tag, msg_body, _) ← decode_tlv input 0
  if tag == sequence
      then (do items ← decode_sequence msg_body; parse_items items)
      else ok (none, [])

-- `except Exception: return None, {}`
abbrev pub or_nothing : Result (Option ℤ × Answer) → Option ℤ × Answer
or_nothing (ok r) = r
or_nothing (err e) = (none, [])

unfoldable pub parse_message : Bytes → Option ℤ × Answer
parse_message input = or_nothing (try_message input)

unfoldable pub parse_response : Bytes → Answer
parse_response input = (parse_message input).1
