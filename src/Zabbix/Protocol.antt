-- ===== src/Zabbix/Protocol.antt =====
-- server/zabbix/protocol.py: the frames of the trapper protocol. What json makes of the items, and
-- what parse_body makes of a body, are given; zlib is a function of the input and the limit on the
-- output, to the output, what is left of the input, and whether the stream has ended.
use Prim.Native.String.{String}
use srp.Prelude.{
  ltb, ◌==◌, if◌then◌else◌, tenths, length, take, drop, Bytes, Result, ◌>>=◌, struct_error,
  protocol_error, ok, err, ℕ, zero, suc, ◌+◌, ◌*◌, ◌/◌, ◌%◌, Bool, true, false, not, ◌&&◌, ◌||◌,
  Option, none, some, List, [], ◌∷◌, ◌++◌,
}

abbrev pub header : Bytes
header = 0x5A ∷ 0x42 ∷ 0x58 ∷ 0x44 ∷ []

abbrev pub header_len : ℕ
header_len = 13

abbrev pub flag_zabbix : ℕ
flag_zabbix = 0x01

abbrev pub batch_size : ℕ
batch_size = 250

abbrev pub max_response_bytes : ℕ
max_response_bytes = 1024 * 1024

pub record Item : Type 0 where
  pub host : String
  pub key : String
  pub value : String

-- `for start in range(0, len(items), step)`, on fuel
unfoldable pub chunks_from : {A : Type 0} → ℕ → ℕ → ℕ → List A → List (List A)
chunks_from zero step start items = []
chunks_from (suc fuel) step start items =
    let later = chunks_from fuel step (start + step) items in
    if ltb start (length items) then take step (drop start items) ∷ later else []

abbrev pub step_of : ℕ → ℕ
step_of size = if ltb 1 size then size else 1

-- as many rounds as there are items: each takes one at least
unfoldable pub chunks : {A : Type 0} → List A → ℕ → List (List A)
chunks items size = chunks_from (length items) (step_of size) 0 items

-- struct.pack("<I", n) raises past 32 bits
unfoldable pub pack_le32 : ℕ → Result Bytes
pack_le32 n =
    if ltb n 4294967296
    then ok (n % 256 ∷ n / 256 % 256 ∷ n / 65536 % 256 ∷ n / 16777216 % 256 ∷ [])
    else err struct_error

-- struct.unpack("<I", raw[at : at + 4])
abbrev pub unpack_le32 : Bytes → ℕ
unpack_le32 (a ∷ b ∷ c ∷ d ∷ _) = a + 256 * b + 65536 * c + 16777216 * d
unpack_le32 _ = 0

-- the frame around a body
unfoldable pub frame : Bytes → Result Bytes
frame body = do
  declared ← pack_le32 (length body)
  reserved ← pack_le32 0
  ok (header ++ (flag_zabbix ∷ (declared ++ (reserved ++ body))))

-- none if there is nothing to send
unfoldable pub build_packet : (List Item → Bytes) → List Item → Option (Result Bytes)
build_packet dumps [] = none
build_packet dumps (i ∷ items) = some (frame (dumps (i ∷ items)))

unfoldable pub check_declared_length : ℕ → Result (Unit {0})
check_declared_length len = if ltb max_response_bytes len then err protocol_error else ok tt

abbrev pub same_bytes : Bytes → Bytes → Bool
same_bytes [] [] = true
same_bytes (a ∷ xs) (b ∷ ys) = a == b && same_bytes xs ys
same_bytes _ _ = false

abbrev pub first_of : Bytes → ℕ
first_of [] = 0
first_of (b ∷ _) = b

-- the flags, the declared length and the reserved word
unfoldable pub decode_header : Bytes → Result (ℕ × ℕ × ℕ)
decode_header raw =
    if ltb (length raw) header_len || not (same_bytes (take 4 raw) header)
    then err protocol_error
    else do
      let len = unpack_le32 (drop 5 raw)
      _ ← check_declared_length len
      ok (first_of (drop 4 raw), len, unpack_le32 (drop 9 raw))

abbrev pub Zlib : Type 0
Zlib = Bytes → ℕ → Option (Bytes × Bytes × Bool)

abbrev pub accept_unpacked : Option (Bytes × Bytes × Bool) → Result Bytes
accept_unpacked none = err protocol_error
accept_unpacked (some (out, [], true)) = ok out
accept_unpacked (some (out, [], false)) = err protocol_error
accept_unpacked (some (out, _ ∷ _, _)) = err protocol_error

-- _decompress
unfoldable pub decompress : Zlib → Bytes → Result Bytes
decompress zlib body = accept_unpacked (zlib body max_response_bytes)

-- flags & FLAG_COMPRESSED
abbrev pub is_compressed : ℕ → Bool
is_compressed flags = flags / 2 % 2 == 1

-- what parse_response hands to parse_body
unfoldable pub body_of : Zlib → Bytes → Result Bytes
body_of zlib raw = do
  (flags, len, reserved) ← decode_header raw
  let body = take len (drop header_len raw)
  if ltb (length body) len
      then err protocol_error
      else if is_compressed flags
      then decompress zlib body
      else ok body

unfoldable pub parse_response : {R : Type 0} → Zlib → (Bytes → Result R) → Bytes → Result R
parse_response zlib parse_body raw = do body ← body_of zlib raw; parse_body body
