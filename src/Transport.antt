-- ===== src/Transport.antt =====
-- client/transport.py: delivery of envelopes, the throttle that the server asks for, and the buffer
-- file of what could not be sent. Times are whole nanoseconds. The file is its lines, or none where
-- there is no file; what a read makes of a line is `splitlines`.
pub mod Buffer
pub mod Delivery
pub mod Flush
pub mod Trim
pub mod Send
pub mod Throttle
pub mod Loss
mod Examples
use Prim.Native.String.{String}
use srp.Prelude.{
  ltb, leb, ◌==◌, if◌then◌else◌, ℕ, zero, suc, ◌+◌, ◌*◌, Bool, true, false, ◌&&◌, ◌||◌, Option,
  none, some, List, [], ◌∷◌, ◌++◌,
}

abbrev pub max_buffer_lines : ℕ
max_buffer_lines = 5000

abbrev pub max_buffer_bytes : ℕ
max_buffer_bytes = 50 * 1024 * 1024

abbrev pub send_attempts : ℕ
send_attempts = 2

abbrev pub max_payload_bytes : ℕ
max_payload_bytes = 500000

abbrev pub max_throttle : ℕ
max_throttle = 300 * 1000000000

abbrev pub default_throttle : ℕ
default_throttle = 60 * 1000000000

-- what `float(raw.strip())` makes of the Retry-After header
pub data RetryAfter : Type 0 where
  unreadable not_positive infinite not_a_number : RetryAfter
  duration : ℕ → RetryAfter

-- what `urlopen` does: it returns, raises an HTTPError, or another error with a text
pub data Reply : Type 0 where
  success : Reply
  http : ℕ → RetryAfter → Reply
  unreachable : String → Reply

pub data Outcome : Type 0 where
  delivered dropped throttled retry : Outcome

-- last_error
pub data Problem : Type 0 where
  no_problem : Problem
  http_problem : ℕ → Problem
  network_problem : String → Problem
  oversized : ℕ → Problem

-- The n-th post's reply, the n-th reading of the clock, and what json, str and os do here.
pub record World (E : Type 0) : Type 0 where
  pub offline_mode : Bool
  pub reply : ℕ → Reply
  pub clock : ℕ → ℕ
  pub dumps : E → String
  pub loads : String → Option E
  pub bytes : String → ℕ
  pub splitlines : String → List String
  pub is_blank : String → Bool
  pub newline_bytes : ℕ

-- The sender, its buffer file, the counts of posts and clock readings, and what was posted so far.
pub record Transport (E : Type 0) : Type 0 where
  pub last_ok_ts : Option ℕ
  pub last_error : Problem
  pub throttled_until : Option ℕ
  pub buffer : Option (List String)
  pub posts : ℕ
  pub ticks : ℕ
  pub posted : List (E × Outcome)

-- Which file operations of a call raise no OSError.
pub record Disk : Type 0 where
  pub can_read : Bool
  pub can_write : Bool
  pub can_append : Bool
  pub can_stat : Bool

-- The moment of the next attempt; none is the NaN of a header that says so.
unfoldable pub retry_after : RetryAfter → Option ℕ
retry_after unreadable = some default_throttle
retry_after not_positive = some default_throttle
retry_after infinite = some max_throttle
retry_after not_a_number = none
retry_after (duration wait) = if ltb max_throttle wait then some max_throttle else some wait

abbrev pub until : ℕ → Option ℕ → Option ℕ
until now none = none
until now (some wait) = some (now + wait)

-- time.time() < self._throttled_until
abbrev pub is_throttled : ℕ → Option ℕ → Bool
is_throttled now none = false
is_throttled now (some t) = ltb now t

abbrev pub is_throttle_code : ℕ → Bool
is_throttle_code code = code == 408 || code == 425 || code == 429

module _ {E : Type 0} (w : World E) where
  unfoldable pub settle : E → Reply → Transport E → Outcome × Transport E
  settle e success t = (
    delivered,
    record t {
      last_ok_ts = some (w.clock t.ticks);
      last_error = no_problem;
      ticks = t.ticks + 1;
      posted = t.posted ++ (e, delivered) ∷ [];
    },
  )
  settle e (http code header) t =
      if is_throttle_code code
      then (
        throttled,
        record t {
          last_error = http_problem code;
          throttled_until = until (w.clock t.ticks) (retry_after header);
          ticks = t.ticks + 1;
          posted = t.posted ++ (e, throttled) ∷ [];
        },
      )
      else if leb 400 code && ltb code 500
      then (
        dropped,
        record t { last_error = http_problem code; posted = t.posted ++ (e, dropped) ∷ [] },
      )
      else (
        retry,
        record t { last_error = http_problem code; posted = t.posted ++ (e, retry) ∷ [] },
      )
  settle e (unreachable text) t =
      (retry, record t { last_error = network_problem text; posted = t.posted ++ (e, retry) ∷ [] })

  -- _attempt
  unfoldable pub attempt : E → Transport E → Outcome × Transport E
  attempt e t = settle e (w.reply t.posts) (record t { posts = t.posts + 1 })

  abbrev pub go_on : Outcome → Transport E → Bool × Transport E → Bool × Transport E
  go_on delivered t rest = (true, t)
  go_on dropped t rest = (true, t)
  go_on throttled t rest = (false, t)
  go_on retry t rest = rest

  unfoldable pub attempts : ℕ → E → Transport E → Bool × Transport E
  attempts zero e t = (false, t)
  attempts (suc n) e t =
      let (outcome, t') = attempt e t in let rest = attempts n e t' in go_on outcome t' rest

  -- _deliver
  unfoldable pub deliver : E → Transport E → Bool × Transport E
  deliver e t =
      if w.offline_mode
      then (false, t)
      else if is_throttled (w.clock t.ticks) t.throttled_until
      then (false, record t { ticks = t.ticks + 1 })
      else attempts send_attempts e (record t { ticks = t.ticks + 1 })
