-- ===== src/Zabbix/Frames.antt =====
-- A frame is read back as it was made, and what a stranger declares or compresses is bounded.
use srp.Prelude.{
  ltb, Bool-cases, tenths, length, take, drop, length-take, take_all, Bytes, Result, ok-injective,
  >>=-eq-ok, ok, ℕ, ◌+◌, ◌*◌, ◌/◌, ◌%◌, ◌≤◌, ◌<◌, ◌≡◌, refl, sym, ap, ◌∙◌, inl, inr, Bool, true,
  false, Option, none, some, [], ◌∷◌, arith,
}
use srp.Zabbix.Protocol.{
  max_response_bytes, pack_le32, frame, check_declared_length, decode_header, Zlib, accept_unpacked,
  decompress, is_compressed, header_len, body_of, parse_response,
}

le32-packed :
    (n : ℕ)
    → n < 4294967296
    → n % 256 + 256 * (n / 256 % 256) + 65536 * (n / 65536 % 256) + 16777216 * (n / 16777216 % 256)
      ≡ n
le32-packed n h = omega (arith, h)

-- the bytes of a frame
abbrev framed_bytes : ℕ → Bytes → Bytes
framed_bytes n body =
    0x5A
    ∷ 0x42
    ∷ 0x58
    ∷ 0x44
    ∷ 1
    ∷ n % 256
    ∷ n / 256 % 256
    ∷ n / 65536 % 256
    ∷ n / 16777216 % 256
    ∷ 0
    ∷ 0
    ∷ 0
    ∷ 0
    ∷ body

frame_lem :
    (body : Bytes)
    → length body ≤ max_response_bytes
    → frame body ≡ ok (framed_bytes (length body) body)
unfolding frame pack_le32
frame_lem body small = let fits : ltb (length body) 4294967296 ≡ true = ground arith in rw fits refl

decode_header-framed_bytes :
    (body : Bytes)
    → length body ≤ max_response_bytes
    → decode_header (framed_bytes (length body) body) ≡ ok (1, length body, 0)
unfolding decode_header check_declared_length
decode_header-framed_bytes body small =
    let long : ltb (length (framed_bytes (length body) body)) 13 ≡ false = ground arith in
    let fits : ltb 1048576 (length body) ≡ false = ground arith in
    rw (long, le32-packed (length body) (omega (arith, small)), fits) refl

-- A frame of a body of at most a mebibyte is taken for what it is, and its body goes to parse_body.
pub parse_response-frame :
    {R : Type 0} (zlib : Zlib) (parse_body : Bytes → Result R) (body : Bytes) {packet : Bytes}
    → length body ≤ max_response_bytes
    → frame body ≡ ok packet
    → parse_response zlib parse_body packet ≡ parse_body body
unfolding parse_response body_of
parse_response-frame zlib parse_body body {packet} small framed =
    let same : packet ≡ framed_bytes (length body) body =
      ok-injective (sym framed ∙ frame_lem body small) in
    let whole : ltb (length body) (length body) ≡ false = ground arith in
    rw
      (
        same,
        decode_header-framed_bytes body small,
        take_all (length body) body (omega arith),
        whole,
      )
      refl

decode_header-declared :
    (raw : Bytes) {flags len reserved : ℕ}
    → decode_header raw ≡ ok (flags, len, reserved)
    → len ≤ max_response_bytes
unfolding decode_header check_declared_length
decode_header-declared raw {flags} {len} {reserved} read = ground (arith, read)

unpacked-small :
    (o : Option (Bytes × Bytes × Bool)) (body : Bytes)
    → ((out rest : Bytes) (eof : Bool)
        → o ≡ some (out, rest, eof)
        → length out ≤ max_response_bytes)
    → accept_unpacked o ≡ ok body
    → length body ≤ max_response_bytes
unpacked-small none body limited h = absurd (cc h)
unpacked-small (some (out, [], true)) body limited h =
    omega (arith, ap length (ok-injective h), limited out [] true refl)
unpacked-small (some (out, [], false)) body limited h = absurd (cc h)
unpacked-small (some (out, b ∷ rest, eof)) body limited h = absurd (cc h)

-- Whatever comes from the network, with whatever length it declares and however it unpacks: parse_body
-- gets at most a mebibyte. zlib gives no more output than the limit that it is called with.
pub body_of-small :
    (zlib : Zlib) (raw : Bytes) {body : Bytes}
    → ((input : Bytes) (limit : ℕ) (out rest : Bytes) (eof : Bool)
        → zlib input limit ≡ some (out, rest, eof)
        → length out ≤ limit)
    → body_of zlib raw ≡ ok body
    → length body ≤ max_response_bytes
unfolding body_of
body_of-small zlib raw {body} limited taken =
    let ((flags, len, reserved), read, rest) = >>=-eq-ok (decode_header raw) _ taken in
    let declared : len ≤ max_response_bytes = decode_header-declared raw read in
    let picked = take len (drop header_len raw) in
    let short : length picked ≤ len = omega (arith, length-take len (drop header_len raw)) in
    elim (Bool-cases (ltb (length picked) len)) [
      | inl torn ↦ absurd (cc (rw torn at rest))
      | inr whole ↦ elim (Bool-cases (is_compressed flags)) [
        | inl packed ↦
            unpacked-small (zlib picked max_response_bytes) body (limited picked max_response_bytes)
              (unfold decompress in rw (whole, packed) at rest)
        | inr plain ↦
            let same : picked ≡ body = ok-injective (rw (whole, plain) at rest) in
            omega (arith, ap length same, short, declared)
      ]
    ]
