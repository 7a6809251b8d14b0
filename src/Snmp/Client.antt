-- ===== src/Snmp/Client.antt =====
-- The requests that snmp.py sends: snmp_get and the steps of a walk.
use srp.Prelude.{
  ltb, if◌then◌else◌, tenths, length, Bytes, ℤ, pos, Result, ◌>>=◌, ok, ℕ, ◌^◌, ◌<◌, ◌≡◌, refl,
  Bool, true, false, Option, some, List, [], ◌∷◌,
}
use srp.Snmp.Dict.{Oid, put}
use srp.Snmp.Message.{get, getnext, getbulk, build_request, parse_message, null, Answer}
use srp.Snmp.Varbinds.{IsReadable}
use srp.Snmp.Roundtrip.{parse_message-build_request}
use srp.Snmp.Exchange.{Outcome, transact}

abbrev pub getbulk_max_repetitions : ℕ
getbulk_max_repetitions = 25

abbrev pub least : ℕ → ℕ → ℕ
least a b = if ltb b a then b else a

unfoldable pub walk_pdu : Oid → Bytes → ℤ → ℤ → Bool → ℕ → Result Bytes
walk_pdu current community version request_id use_getbulk remaining =
    if use_getbulk
    then build_request getbulk (current ∷ []) community version request_id (pos 0)
        (pos (least getbulk_max_repetitions remaining))
    else build_request getnext (current ∷ []) community version request_id (pos 0) (pos 0)

-- `request_id` is what _new_request_id gives
unfoldable pub snmp_get : Option ℕ → ℕ → (ℕ → Outcome) → List Oid → Bytes → ℤ → ℤ → Result Answer
snmp_get resolved retries net oids community version request_id = do
  pkt ← build_request get oids community version request_id (pos 0) (pos 0)
  ok (transact resolved retries net request_id)

-- The packet of a step of a walk, GETBULK or GETNEXT, is read back as a request with that id for what
-- follows the cursor. It holds of cursors that the codec can carry and of packets below 256 ^ 127 bytes.
pub parse_message-walk_pdu :
    (current : Oid) (community : Bytes) (version request_id : ℤ) (use_getbulk : Bool)
    (remaining : ℕ) {packet : Bytes}
    → IsReadable current
    → length packet < 256 ^ 127
    → walk_pdu current community version request_id use_getbulk remaining ≡ ok packet
    → parse_message packet ≡ (some request_id, (current, null) ∷ [])
unfolding walk_pdu
parse_message-walk_pdu current community version request_id true remaining r short h =
    unfold put in
    parse_message-build_request getbulk (current ∷ []) community version request_id (pos 0)
      (pos (least getbulk_max_repetitions remaining)) refl (r, tt) short h
parse_message-walk_pdu current community version request_id false remaining r short h =
    unfold put in
    parse_message-build_request getnext (current ∷ []) community version request_id (pos 0) (pos 0)
      refl (r, tt) short h
