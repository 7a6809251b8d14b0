-- ===== src/Zabbix/Examples.antt =====
-- An outage and a rejected host, and the theorems about them.
use Prim.Native.String.{String}
use srp.Prelude.{
  tenths, length, take, drop, length-take, Bytes, ok, ℕ, ◌≤◌, ◌≡◌, refl, ap, Bool, true, some, List,
  [], ◌∷◌, arith,
}
use srp.Zabbix.Status.{StatusStore, BackoffStore, new_store, should_log_error}
use srp.Zabbix.Protocol.{
  Zlib, pack_le32, frame, check_declared_length, decode_header, body_of, parse_response, chunks,
  chunks_from,
}
use srp.Zabbix.Frames.{parse_response-frame}
use srp.Zabbix.Noise.{run, Failures}

abbrev failing : StatusStore
failing = (should_log_error "refused" 5 "2026-01-01" (new_store "2026-01-01")).1

abbrev failures : Failures
failures = ("refused", 300000000005) ∷ ("refused", 3600000000005) ∷ []

-- One of the two repeats is logged, after an hour.
logged_once : (run "2026-01-01" failures failing).0 ≡ 1
unfolding run should_log_error
logged_once = refl

abbrev backoff : BackoffStore
backoff = record { ttl = 600; until = [] }

abbrev host : String
host = "pc1"

abbrev five : List ℕ
five = 1 ∷ 2 ∷ 3 ∷ 4 ∷ 5 ∷ []

three_chunks : chunks five 2 ≡ (1 ∷ 2 ∷ []) ∷ (3 ∷ 4 ∷ []) ∷ (5 ∷ []) ∷ []
unfolding chunks chunks_from
three_chunks = refl

-- A stream of stored bytes.
abbrev stored : Zlib
stored input limit = some (take limit input, drop limit input, true)

abbrev packet : Bytes
packet = 0x5A ∷ 0x42 ∷ 0x58 ∷ 0x44 ∷ 1 ∷ 2 ∷ 0 ∷ 0 ∷ 0 ∷ 0 ∷ 0 ∷ 0 ∷ 0 ∷ 0x7B ∷ 0x7D ∷ []

framed : frame (0x7B ∷ 0x7D ∷ []) ≡ ok packet
unfolding frame pack_le32
framed = refl

parse_response-frame_example : parse_response stored (λ body. ok (length body)) packet ≡ ok 2
parse_response-frame_example =
    parse_response-frame stored (λ body. ok (length body)) (0x7B ∷ 0x7D ∷ []) (omega arith) framed

stored-limited :
    (input : Bytes) (limit : ℕ) (out rest : Bytes) (eof : Bool)
    → stored input limit ≡ some (out, rest, eof)
    → length out ≤ limit
stored-limited input limit out rest eof h =
    let same : take limit input ≡ out = cc h in
    omega (arith, ap length same, length-take limit input)

abbrev braces : Bytes
braces = 0x7B ∷ 0x7D ∷ []

read_body : body_of stored packet ≡ ok (0x7B ∷ 0x7D ∷ [])
unfolding body_of decode_header check_declared_length
read_body = refl
