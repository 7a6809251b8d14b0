-- ===== src/Transport/Examples.antt =====
-- A sender of texts, and the theorems at inputs that meet their hypotheses.
use Prim.Native.String.{String}
use text.Mathlib.Text.{◌==◌ as str_eq}
use srp.Prelude.{
  if◌then◌else◌, length, ℕ, zero, suc, ◌≡◌, refl, true, false, Option, none, some, List, [], ◌∷◌,
  ◌++◌, arith,
}
use srp.Transport.{
  World, Transport, Disk, Reply, success, http, duration, no_problem, settle, attempt, attempts,
  deliver, retry_after,
}
use srp.Transport.Buffer.{
  read_buffer, write_buffer, file_of, split_all, not_blank, replay, replay_line, replay_loaded,
  flush_buffer, send,
}
use srp.Transport.Delivery.{finals}
use srp.Transport.Flush.{loaded, flush_buffer-in_order}
use srp.Transport.Send.{Kept, send-Kept}
use srp.Transport.Loss.{flush_buffer_loses}

-- The first post is taken, later ones meet a busy server.
abbrev replies : ℕ → Reply
replies zero = success
replies (suc n) = http 429 (duration 7)

abbrev parse : String → Option String
parse s = if str_eq s "half" then none else some s

abbrev lines_of : String → List String
lines_of s = if str_eq s "half half" then "half" ∷ "half" ∷ [] else s ∷ []

abbrev world : World String
world = record {
  offline_mode = false;
  reply = replies;
  clock = λ n. n;
  dumps = λ s. s;
  loads = parse;
  bytes = λ s. 10;
  splitlines = lines_of;
  is_blank = λ s. str_eq s "";
  newline_bytes = 1;
}

abbrev sender : Option (List String) → Transport String
sender file = record {
  last_ok_ts = none;
  last_error = no_problem;
  throttled_until = some 0;
  buffer = file;
  posts = 0;
  ticks = 0;
  posted = [];
}

abbrev disk : Disk
disk = record { can_read = true; can_write = true; can_append = true; can_stat = true }

abbrev envelope : String
envelope = "a"

-- The first line is taken, the second waits.
flushed_one : (flush_buffer world disk (sender (some ("a" ∷ "b" ∷ [])))).0 ≡ 1
unfolding flush_buffer read_buffer split_all not_blank replay replay_line replay_loaded deliver
    attempts attempt settle retry_after
flushed_one = refl

left_second : (flush_buffer world disk (sender (some ("a" ∷ "b" ∷ [])))).1.buffer ≡ some ("b" ∷ [])
unfolding flush_buffer read_buffer write_buffer split_all not_blank replay replay_line replay_loaded
    deliver attempts attempt settle retry_after
left_second = refl

flush_buffer-in_order_example :
    (done : List String) × (left : List String) × ("a" ∷ "b" ∷ [] ≡ done ++ left)
    × ((flush_buffer world disk (sender (some ("a" ∷ "b" ∷ [])))).0 ≡ length done)
    × ((flush_buffer world disk (sender (some ("a" ∷ "b" ∷ [])))).1.buffer ≡ file_of world left)
    × (finals (flush_buffer world disk (sender (some ("a" ∷ "b" ∷ [])))).1.posted
        ≡ finals [] ++ loaded world done)
unfolding read_buffer split_all not_blank
flush_buffer-in_order_example =
    flush_buffer-in_order world disk "a" ("b" ∷ []) (sender (some ("a" ∷ "b" ∷ []))) refl refl

send-Kept_example :
    Kept world envelope
      (sender (some ("b" ∷ [])))
      (send world disk false envelope (sender (some ("b" ∷ []))))
send-Kept_example =
    send-Kept world disk envelope (sender (some ("b" ∷ []))) refl refl (refl, refl) (omega arith)
      (omega arith)

flush_buffer_loses_example :
    ((flush_buffer world disk (sender (some ("half half" ∷ [])))).0 ≡ 2)
    × ((flush_buffer world disk (sender (some ("half half" ∷ [])))).1.buffer ≡ none)
    × ((flush_buffer world disk (sender (some ("half half" ∷ [])))).1.posted ≡ [])
flush_buffer_loses_example =
    flush_buffer_loses world disk (sender (some ("half half" ∷ []))) "half half" "half" "half" refl
      refl refl refl (refl, refl) (refl, refl)
