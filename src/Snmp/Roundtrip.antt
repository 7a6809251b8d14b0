-- ===== src/Snmp/Roundtrip.antt =====
-- What parse_message makes of the packets that build_request writes.
use srp.Prelude.{
  ◌==◌, if◌then◌else◌, length, length-append, Bytes, ℤ, pos, ok-injective, >>=-eq-ok, ok, ℕ, ◌+◌,
  ◌^◌, ◌<◌, ◌≡◌, refl, sym, ap, ◌∙◌, true, Option, some, List, [], ◌∷◌, ◌++◌, append-nil, arith,
}
use srp.Ber.{
  encode_tlv, decode_tlv, decode_sequence, encode_integer, encode_octet_string, integer_body,
}
use srp.Ber.Tlv.{decode_tlv-encode_tlv, length-encode_tlv}
use srp.Ber.Sequence.{encode_items-cons, encode_items-one, decode_sequence-encode_items}
use srp.Ber.Integer.{length-encode_integer, from_bytes_signed-integer_body}
use srp.Snmp.Varbinds.{AreReadable, asked, varbinds_read}
use srp.Snmp.Dict.{Oid}
use srp.Snmp.Message.{
  build_varbinds, build_request, find_first, is_pdu, is_sequence, sequence, Answer, read_varbinds,
  request_id_of, parse_pdu, parse_items, try_message, parse_message, getbulk,
}

parse_pdu-read :
    (pdu_items : List (ℕ × Bytes)) (vb : Bytes) (items : List (ℕ × Bytes)) {answer : Answer}
    → find_first pdu_items is_sequence ≡ vb
    → decode_sequence vb ≡ ok items
    → read_varbinds items [] ≡ ok answer
    → parse_pdu pdu_items ≡ ok (request_id_of pdu_items, answer)
unfolding parse_pdu
parse_pdu-read pdu_items [] items {answer} hf hd hr =
    let none_read : items ≡ [] = sym (ok-injective (unfold decode_sequence in hd)) in
    let empty : [] ≡ answer = ok-injective (unfold read_varbinds in (rw none_read at hr)) in
    rw (hf, parse_pdu) (ap (λ a. ok (request_id_of pdu_items, a)) empty)
parse_pdu-read pdu_items (b ∷ bs) items hf hd hr = rw (hf, parse_pdu, hd, hr)

parse_items-read :
    (items : List (ℕ × Bytes)) (pdu : Bytes) (pdu_items : List (ℕ × Bytes))
    → find_first items is_pdu ≡ pdu
    → 0 < length pdu
    → decode_sequence pdu ≡ ok pdu_items
    → parse_items items ≡ parse_pdu pdu_items
unfolding parse_items
parse_items-read items [] pdu_items hf h hd = absurd (omega arith)
parse_items-read items (b ∷ bs) pdu_items hf h hd = rw (hf, parse_items, hd)

parse_message-read :
    (body : Bytes) (items : List (ℕ × Bytes)) {packet : Bytes} {rid : Option ℤ} {answer : Answer}
    → length packet < 256 ^ 127
    → encode_tlv sequence body ≡ ok packet
    → decode_sequence body ≡ ok items
    → parse_items items ≡ ok (rid, answer)
    → parse_message packet ≡ (rid, answer)
unfolding parse_message try_message
parse_message-read body items {packet} short he hd hp =
    let whole : decode_tlv packet 0 ≡ ok (sequence, body, 0 + length packet) = rw append-nil at (
      decode_tlv-encode_tlv [] [] sequence body (omega (arith, length-encode_tlv sequence body he))
        he) in
    rw (whole, hd, hp)

request_id-first :
    (id : ℤ) (items : List (ℕ × Bytes)) → request_id_of ((0x02, integer_body id) ∷ items) ≡ some id
unfolding request_id_of
request_id-first id items = ap some (from_bytes_signed-integer_body id)

abbrev pdu_items : ℤ → ℤ → ℤ → Bytes → List (ℕ × Bytes)
pdu_items id second third vbs =
    (0x02, integer_body id)
    ∷ (0x02, integer_body second)
    ∷ (0x02, integer_body third)
    ∷ (sequence, vbs)
    ∷ []

abbrev message_items : ℤ → Bytes → ℕ → Bytes → List (ℕ × Bytes)
message_items version community pdu_type body =
    (0x02, integer_body version) ∷ (0x04, community) ∷ (pdu_type, body) ∷ []

-- The PDU of a request: its three numbers and its bindings.
module _ (id second third : ℤ) {i s th vbs vbseq : Bytes} (hi : encode_integer id ≡ ok i)
    (hs : encode_integer second ≡ ok s) (hth : encode_integer third ≡ ok th)
    (hvb : encode_tlv sequence vbs ≡ ok vbseq)
    (short : length (i ++ (s ++ (th ++ vbseq))) < 256 ^ 127) where
  pdu_items_read : decode_sequence (i ++ (s ++ (th ++ vbseq))) ≡ ok (pdu_items id second third vbs)
  unfolding encode_integer
  pdu_items_read =
      let sizes : length (i ++ (s ++ (th ++ vbseq)))
          ≡ length i + (length s + (length th + length vbseq)) =
        omega (
          arith,
          length-append i (s ++ (th ++ vbseq)),
          length-append s (th ++ vbseq),
          length-append th vbseq,
        ) in
      decode_sequence-encode_items (pdu_items id second third vbs)
        (
          omega (arith, length-encode_integer id hi),
          (
            omega (arith, length-encode_integer second hs),
            (
              omega (arith, length-encode_integer third hth),
              (omega (arith, length-encode_tlv sequence vbs hvb), tt),
            ),
          ),
        )
        (encode_items-cons 0x02 (integer_body id) _ hi (
          encode_items-cons 0x02 (integer_body second) _ hs (
            encode_items-cons 0x02 (integer_body third) _ hth (encode_items-one sequence vbs hvb))))

  find-varbinds : find_first (pdu_items id second third vbs) is_sequence ≡ vbs
  unfolding find_first
  find-varbinds = refl

  pdu_read :
      (oids : List Oid)
      → AreReadable oids
      → build_varbinds oids ≡ ok vbs
      → parse_pdu (pdu_items id second third vbs) ≡ ok (some id, asked oids [])
  pdu_read oids r h =
      let sizes : length vbs < 256 ^ 127 = omega (
        arith,
        length-encode_tlv sequence vbs hvb,
        length-append i (s ++ (th ++ vbseq)),
        length-append s (th ++ vbseq),
        length-append th vbseq,
      ) in
      let (items, shorts, he, hr) = varbinds_read oids r h sizes in
      parse_pdu-read (pdu_items id second third vbs) vbs items find-varbinds
        (decode_sequence-encode_items items shorts he) (hr [])
      ∙ ap (λ k. ok (k, asked oids [])) (request_id-first id _)

-- The message around a PDU: the version, the community and the PDU.
module _ (version : ℤ) (community : Bytes) (pdu_type : ℕ) (body : Bytes) {v c pdu packet : Bytes}
    (wanted : is_pdu pdu_type ≡ true) (hv : encode_integer version ≡ ok v)
    (hc : encode_octet_string community ≡ ok c) (hp : encode_tlv pdu_type body ≡ ok pdu)
    (hm : encode_tlv sequence (v ++ (c ++ pdu)) ≡ ok packet)
    (short : length packet < 256 ^ 127) where
  message_sizes :
      (length body < length packet)
      × (length (v ++ (c ++ pdu)) < length packet)
      × (length v + (length c + length pdu) < length packet)
  message_sizes = omega (
    arith,
    length-encode_tlv sequence (v ++ (c ++ pdu)) hm,
    length-encode_tlv pdu_type body hp,
    length-append v (c ++ pdu),
    length-append c pdu,
  )

  message_items_read :
      decode_sequence (v ++ (c ++ pdu)) ≡ ok (message_items version community pdu_type body)
  unfolding encode_integer encode_octet_string
  message_items_read =
      decode_sequence-encode_items (message_items version community pdu_type body)
        (
          omega (arith, message_sizes, length-encode_integer version hv),
          (
            omega (arith, message_sizes, length-encode_tlv 0x04 community hc),
            (omega (arith, message_sizes), tt),
          ),
        )
        (encode_items-cons 0x02 (integer_body version) _ hv
          (encode_items-cons 0x04 community _ hc (encode_items-one pdu_type body hp)))

  find-pdu : find_first (message_items version community pdu_type body) is_pdu ≡ body
  unfolding find_first
  find-pdu = rw wanted

  message_read :
      (pdu_items : List (ℕ × Bytes)) {r : Option ℤ × Answer}
      → 0 < length body
      → decode_sequence body ≡ ok pdu_items
      → parse_pdu pdu_items ≡ ok r
      → parse_message packet ≡ r
  message_read pdu_items h hd hr =
      parse_message-read (v ++ (c ++ pdu)) (message_items version community pdu_type body) short hm
        message_items_read
        (parse_items-read (message_items version community pdu_type body) body pdu_items find-pdu h
            hd
          ∙ hr)

-- A packet that build_request wrote is read back by parse_message as a message with the same
-- request id that lists exactly the OIDs asked for, each with no value. It holds of every kind of
-- PDU that the module sends, of OIDs that the codec can carry, and of packets below 256 ^ 127 bytes.
pub parse_message-build_request :
    (pdu_type : ℕ) (oids : List Oid) (community : Bytes)
    (version request_id non_repeaters max_repetitions : ℤ) {packet : Bytes}
    → is_pdu pdu_type ≡ true
    → AreReadable oids
    → length packet < 256 ^ 127
    → build_request pdu_type oids community version request_id non_repeaters max_repetitions
      ≡ ok packet
    → parse_message packet ≡ (some request_id, asked oids [])
unfolding build_request
parse_message-build_request pdu_type oids community version request_id nr mr {packet} wanted r short
      h =
    let second : ℤ = if pdu_type == getbulk then nr else pos 0 in
    let third : ℤ = if pdu_type == getbulk then mr else pos 0 in
    let (vbs, h1, t1) = >>=-eq-ok (build_varbinds oids) _ h in
    let (vbseq, h2, t2) = >>=-eq-ok (encode_tlv sequence vbs) _ t1 in
    let (i, h3, t3) = >>=-eq-ok (encode_integer request_id) _ t2 in
    let (s, h4, t4) = >>=-eq-ok (encode_integer second) _ t3 in
    let (th, h5, t5) = >>=-eq-ok (encode_integer third) _ t4 in
    let (pdu, h6, t6) = >>=-eq-ok (encode_tlv pdu_type (i ++ (s ++ (th ++ vbseq)))) _ t5 in
    let (v, h7, t7) = >>=-eq-ok (encode_integer version) _ t6 in
    let (c, h8, t8) = >>=-eq-ok (encode_octet_string community) _ t7 in
    let body : Bytes = i ++ (s ++ (th ++ vbseq)) in
    let sizes = message_sizes version community pdu_type body wanted h7 h8 h6 t8 short in
    let inside : length body < 256 ^ 127 = omega (arith, sizes.0) in
    message_read version community pdu_type body wanted h7 h8 h6 t8 short
      (pdu_items request_id second third vbs)
      (omega (arith, length-append i (s ++ (th ++ vbseq)), length-encode_integer request_id h3))
      (pdu_items_read request_id second third h3 h4 h5 h2 inside)
      (pdu_read request_id second third h3 h4 h5 h2 inside oids r h1)
