-- ===== src/Ber.antt =====
-- server/printers/ber.py: the BER codec below SNMP. A byte string is a list of numbers, an exception
-- a `Result`; an OID is the list of its arcs.
pub mod Length
pub mod Tlv
pub mod Sequence
pub mod Integer
pub mod Oid
mod Examples
use Prim.Native.Nat.{bit_or}
use srp.Prelude.{
  ◌>>=◌, ℕ, zero, suc, ◌+◌, ◌-◌, ◌*◌, ◌/◌, ◌%◌, Bool, List, [], ◌∷◌, ◌++◌, ltb, ◌==◌, if◌then◌else◌,
  length, get_elem?, take, drop, Bytes, from_bytes_onto, ℤ, pos, negsuc, Result, ok, err,
  index_error, value_error, out_of_fuel, or_index_error,
}

abbrev pub max_oid_bytes : ℕ
max_oid_bytes = 128

-- bytes([b]) raises outside the range of a byte
unfoldable pub to_byte : ℕ → Result ℕ
to_byte b = if ltb b 256 then ok b else err value_error

-- `while n > 0: body.insert(0, n & 0xFF); n >>= 8`
unfoldable pub shift_out : ℕ → ℕ → Bytes → Bytes
shift_out zero n body = body
shift_out (suc fuel) n body =
    let rest = shift_out fuel (n / 256) ((n % 256) ∷ body) in if n == 0 then body else rest

unfoldable pub encode_length : ℕ → Result Bytes
unfolding shift_out to_byte
encode_length n = if ltb n 0x80 then ok (n ∷ []) else do
  let body = shift_out n n []
  first ← to_byte (bit_or 0x80 (length body))
  ok (first ∷ body)

-- the length, and the number of bytes that it was read from
unfoldable pub decode_length : Bytes → ℕ → Result (ℕ × ℕ)
decode_length input at = do
  first ← or_index_error (get_elem? input at)
  let num = first % 128
  if ltb first 0x80
      then ok (first, 1)
      else if ltb (length input) (at + 1 + num)
      then err value_error
      else ok (from_bytes_onto 0 (take num (drop (at + 1) input)), 1 + num)

unfoldable pub encode_tlv : ℕ → Bytes → Result Bytes
unfolding to_byte encode_length
encode_tlv tag body = do t ← to_byte tag; l ← encode_length (length body); ok (t ∷ (l ++ body))

-- the tag, the value and the position after it
unfoldable pub decode_tlv : Bytes → ℕ → Result (ℕ × Bytes × ℕ)
unfolding decode_length
decode_tlv input at = do
  tag ← or_index_error (get_elem? input at)
  (len, lsize) ← decode_length input (at + 1)
  let start = at + 1 + lsize
  if ltb (length input) (start + len)
      then err value_error
      else ok (tag, take len (drop start input), start + len)

-- `while at < len(body)`, on fuel
unfoldable pub decode_from : ℕ → Bytes → ℕ → Result (List (ℕ × Bytes))
unfolding decode_tlv
decode_from zero body at = if ltb at (length body) then err out_of_fuel else ok []
decode_from (suc fuel) body at =
    let rest : Result (List (ℕ × Bytes)) = do
      (tag, value, next) ← decode_tlv body at
      items ← decode_from fuel body next
      ok ((tag, value) ∷ items)
    in if ltb at (length body) then rest else ok []

unfoldable pub decode_sequence : Bytes → Result (List (ℕ × Bytes))
unfolding decode_from
decode_sequence body = decode_from (length body) body 0

-- v & 0xFF
abbrev pub low_byte : ℤ → ℕ
low_byte (pos n) = n % 256
low_byte (negsuc n) = 255 - n % 256

-- v >> 8
abbrev pub shift_byte : ℤ → ℤ
shift_byte (pos n) = pos (n / 256)
shift_byte (negsuc n) = negsuc (n / 256)

-- v in (0, -1)
abbrev pub is_sign : ℤ → Bool
is_sign (pos n) = n == 0
is_sign (negsuc n) = n == 0

-- `while v not in (0, -1): body.insert(0, v & 0xFF); v >>= 8`
unfoldable pub shift_out_signed : ℕ → ℤ → Bytes → Bytes
shift_out_signed zero v body = body
shift_out_signed (suc fuel) v body =
    let rest = shift_out_signed fuel (shift_byte v) (low_byte v ∷ body) in
    if is_sign v then body else rest

-- one more byte where the first bit would show the other sign
unfoldable pub pad_sign : ℤ → Bytes → Bytes
pad_sign (pos _) [] = []
pad_sign (pos _) (b ∷ bs) = if ltb b 0x80 then b ∷ bs else 0x00 ∷ b ∷ bs
pad_sign (negsuc _) [] = 0xFF ∷ []
pad_sign (negsuc _) (b ∷ bs) = if ltb b 0x80 then 0xFF ∷ b ∷ bs else b ∷ bs

abbrev pub magnitude : ℤ → ℕ
magnitude (pos n) = n
magnitude (negsuc n) = n

-- the body that `encode_integer` puts into its TLV
unfoldable pub integer_body : ℤ → Bytes
unfolding shift_out_signed pad_sign
integer_body (pos zero) = 0x00 ∷ []
integer_body value = pad_sign value (shift_out_signed (magnitude value) value [])

unfoldable pub encode_integer : ℤ → Result Bytes
unfolding integer_body encode_tlv
encode_integer value = encode_tlv 0x02 (integer_body value)

unfoldable pub encode_octet_string : Bytes → Result Bytes
unfolding encode_tlv
encode_octet_string value = encode_tlv 0x04 value

unfoldable pub encode_null : Result Bytes
unfolding encode_tlv
encode_null = encode_tlv 0x05 []

-- `while arc > 0: chunk.insert(0, (arc & 0x7F) | 0x80); arc >>= 7`; a number below 128 has no
-- high bit, so that `| 0x80` adds 128
unfoldable pub shift_out_arc : ℕ → ℕ → Bytes → Bytes
shift_out_arc zero arc chunk = chunk
shift_out_arc (suc fuel) arc chunk =
    let rest = shift_out_arc fuel (arc / 128) ((arc % 128 + 0x80) ∷ chunk) in
    if arc == 0 then chunk else rest

unfoldable pub encode_arc : ℕ → Bytes
unfolding shift_out_arc
encode_arc arc = if ltb arc 0x80 then arc ∷ [] else shift_out_arc arc (arc / 128) ((arc % 128) ∷ [])

-- `for arc in arcs[2:]`
unfoldable pub encode_arcs : List ℕ → Bytes
unfolding encode_arc
encode_arcs [] = []
encode_arcs (arc ∷ arcs) = encode_arc arc ++ encode_arcs arcs

unfoldable pub oid_body : List ℕ → Result Bytes
unfolding to_byte encode_arcs
oid_body (a0 ∷ a1 ∷ arcs) = do first ← to_byte (40 * a0 + a1); ok (first ∷ encode_arcs arcs)
oid_body _ = err index_error

-- encode_oid after `arcs = [int(a) for a in oid.split(".")]`
unfoldable pub encode_oid : List ℕ → Result Bytes
unfolding oid_body encode_tlv
encode_oid arcs = do body ← oid_body arcs; encode_tlv 0x06 body

-- `for b in body[1:]`; the bits that `value << 7` leaves free take `b & 0x7F`
unfoldable pub decode_arcs : ℕ → Bytes → List ℕ
decode_arcs value [] = []
decode_arcs value (b ∷ bs) =
    let value' = value * 128 + b % 128 in
    let complete = value' ∷ decode_arcs 0 bs in
    let more = decode_arcs value' bs in if b / 128 % 2 == 0 then complete else more

-- decode_oid before `".".join(...)`: no arcs stand for the empty text
unfoldable pub decode_oid : Bytes → List ℕ
unfolding decode_arcs
decode_oid [] = []
decode_oid (first ∷ rest) =
    if ltb max_oid_bytes (length (first ∷ rest))
    then []
    else first / 40 ∷ first % 40 ∷ decode_arcs 0 rest
