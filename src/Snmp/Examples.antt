-- ===== src/Snmp/Examples.antt =====
-- Runs of the SNMP model, and its theorems at inputs that meet their hypotheses.
use srp.Prelude.{
  ◌∙◌, ◌≤◌, sym, false, Bytes, pos, ok, ℕ, zero, suc, ◌≡◌, refl, Bool, none, some, [], ◌∷◌, arith,
}
use srp.Ber.{
  encode_arcs, decode_tlv, decode_sequence, encode_integer, encode_octet_string, encode_oid,
  encode_null, decode_oid,
}
use srp.Snmp.Dict.{Oid, put, has}
use srp.Snmp.Message.{
  build_varbind, build_varbinds, build_request, get, int, null, Answer, decode_value, find_first,
  add_varbind, read_varbinds, request_id_of, parse_pdu, parse_items, try_message, parse_message,
}
use srp.Snmp.Roundtrip.{parse_message-build_request}
use srp.Snmp.Exchange.{Outcome, received, transact, attempts, IsAccepted, transact-IsAccepted}
use srp.Snmp.Client.{walk_pdu}
use srp.Snmp.Walk.{snmp_walk, round, settle, scan, scan_row, in_subtree, gt_oid}
use srp.Snmp.Walk.Bounds.{IsTable, snmp_walk-IsTable}

abbrev sys_name : Oid
sys_name = 1 ∷ 3 ∷ 6 ∷ 1 ∷ 2 ∷ 1 ∷ 1 ∷ 5 ∷ 0 ∷ []

-- A GET of one OID with the community "ab" and the request id 200.
abbrev packet : Bytes
packet =
    0x30 ∷ 35 ∷ 2 ∷ 1 ∷ 1 ∷ 4 ∷ 2 ∷ 0x61 ∷ 0x62 ∷ 0xA0 ∷ 26 ∷ 2 ∷ 2 ∷ 0 ∷ 200 ∷ 2 ∷ 1 ∷ 0 ∷ 2 ∷ 1
    ∷ 0 ∷ 0x30 ∷ 14 ∷ 0x30 ∷ 12 ∷ 6 ∷ 8 ∷ 43 ∷ 6 ∷ 1 ∷ 2 ∷ 1 ∷ 1 ∷ 5 ∷ 0 ∷ 5 ∷ 0 ∷ []

built :
    build_request get (sys_name ∷ []) (0x61 ∷ 0x62 ∷ []) (pos 1) (pos 200) (pos 0) (pos 0)
    ≡ ok packet
unfolding build_request build_varbinds build_varbind encode_integer encode_octet_string encode_oid
    encode_null
built = refl

parse_message-build_request_example : parse_message packet ≡ (some (pos 200), (sys_name, null) ∷ [])
unfolding put encode_arcs
parse_message-build_request_example =
    parse_message-build_request get (sys_name ∷ []) (0x61 ∷ 0x62 ∷ []) (pos 1) (pos 200) (pos 0)
      (pos 0) refl ((omega arith, omega arith), tt) (omega arith) built

-- A datagram with a value and with no request id in its PDU.
abbrev unidentified : Bytes
unidentified =
    0x30 ∷ 26 ∷ 2 ∷ 1 ∷ 1 ∷ 4 ∷ 2 ∷ 0x61 ∷ 0x62 ∷ 0xA2 ∷ 17 ∷ 0x30 ∷ 15 ∷ 0x30 ∷ 13 ∷ 6 ∷ 8 ∷ 43 ∷ 6
    ∷ 1 ∷ 2 ∷ 1 ∷ 1 ∷ 5 ∷ 0 ∷ 2 ∷ 1 ∷ 7 ∷ []

abbrev spoofed : Answer
spoofed = (sys_name, int (pos 7)) ∷ []

abbrev one_reply : ℕ → Outcome
one_reply k = received 10 unidentified

unidentified_parsed : parse_message unidentified ≡ (none, spoofed)
unfolding parse_message try_message parse_items parse_pdu request_id_of read_varbinds add_varbind
    find_first decode_value decode_tlv decode_sequence decode_oid put
unidentified_parsed = refl

taken : transact (some 10) 1 one_reply (pos 4711) ≡ spoofed
unfolding transact attempts
taken = rw unidentified_parsed refl

transact-IsAccepted_example :
    (j : ℕ) × (j ≤ 1)
    × IsAccepted 10 (pos 4711) (transact (some 10) 1 one_reply (pos 4711)) (one_reply j)
transact-IsAccepted_example =
    transact-IsAccepted 10 1 one_reply (pos 4711) (λ e. cc (sym taken ∙ e))

-- An agent with a table of two rows below 1.3: it answers the request for what follows the cursor.
abbrev two_rows : ℕ → Oid → Bool → ℕ → Answer
two_rows zero current bulk remaining = (1 ∷ 3 ∷ 1 ∷ [], null) ∷ []
two_rows (suc zero) current bulk remaining = (1 ∷ 3 ∷ 2 ∷ [], null) ∷ (1 ∷ 4 ∷ [], null) ∷ []
two_rows _ current bulk remaining = []

walked :
    snmp_walk two_rows (1 ∷ 3 ∷ []) 1 10
    ≡ some ((1 ∷ 3 ∷ 1 ∷ [], null) ∷ (1 ∷ 3 ∷ 2 ∷ [], null) ∷ [])
unfolding snmp_walk round settle scan scan_row in_subtree gt_oid has put
walked = refl

snmp_walk-IsTable_example :
    (r : Answer) × (snmp_walk two_rows (1 ∷ 3 ∷ []) 1 10 ≡ some r) × IsTable (1 ∷ 3 ∷ []) 10 r
snmp_walk-IsTable_example = snmp_walk-IsTable two_rows (1 ∷ 3 ∷ []) 10 1

-- The same with GETNEXT.
abbrev next_packet : Bytes
next_packet =
    0x30 ∷ 35 ∷ 2 ∷ 1 ∷ 1 ∷ 4 ∷ 2 ∷ 0x61 ∷ 0x62 ∷ 0xA1 ∷ 26 ∷ 2 ∷ 2 ∷ 0 ∷ 200 ∷ 2 ∷ 1 ∷ 0 ∷ 2 ∷ 1
    ∷ 0 ∷ 0x30 ∷ 14 ∷ 0x30 ∷ 12 ∷ 6 ∷ 8 ∷ 43 ∷ 6 ∷ 1 ∷ 2 ∷ 1 ∷ 1 ∷ 5 ∷ 0 ∷ 5 ∷ 0 ∷ []

step_packet : walk_pdu sys_name (0x61 ∷ 0x62 ∷ []) (pos 1) (pos 200) false 4 ≡ ok next_packet
unfolding walk_pdu build_request build_varbinds build_varbind encode_integer encode_octet_string
    encode_oid encode_null
step_packet = refl
