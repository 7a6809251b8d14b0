-- ===== src/Transport/Throttle.antt =====
-- How long a server can silence the sender by Retry-After.
use srp.Prelude.{
  ltb, leb, if◌then◌else◌, ltb-false→le, Bool-cases, ℕ, zero, suc, ◌+◌, ◌≤◌, ◌≡◌, refl, inl, inr,
  Bool, true, false, ◌&&◌, Option, none, some, List, [], ◌∷◌, arith,
}
use srp.Transport.{
  World, Transport, Reply, RetryAfter, Outcome, delivered, dropped, throttled, retry, success, http,
  unreachable, unreadable, not_positive, infinite, not_a_number, duration, settle, attempt,
  attempts, go_on, deliver, until, is_throttled, is_throttle_code, retry_after, max_throttle,
  send_attempts,
}

-- The sender may post again five minutes after `now` at the latest.
abbrev pub IsShort : ℕ → Option ℕ → Type 0
IsShort now none = Unit
IsShort now (some t) = t ≤ now + max_throttle

IsShort-later : (now later : ℕ) (u : Option ℕ) → now ≤ later → IsShort now u → IsShort later u
IsShort-later now later none le h = tt
IsShort-later now later (some t) le h = omega (arith, le, h)

retry_after-IsShort : (now : ℕ) (header : RetryAfter) → IsShort now (until now (retry_after header))
unfolding retry_after
retry_after-IsShort now unreadable = omega arith
retry_after-IsShort now not_positive = omega arith
retry_after-IsShort now infinite = omega arith
retry_after-IsShort now not_a_number = tt
retry_after-IsShort now (duration wait) = elim (Bool-cases (ltb max_throttle wait)) [
  | inl long ↦ rw long (omega arith)
  | inr short ↦ rw short (omega (arith, ltb-false→le max_throttle wait short))
]

pub is_throttled-IsShort :
    (now later : ℕ) (u : Option ℕ)
    → IsShort now u
    → now + max_throttle ≤ later
    → is_throttled later u ≡ false
is_throttled-IsShort now later none h le = refl
is_throttled-IsShort now later (some t) h le = ground arith

module _ {E : Type 0} (w : World E) (monotone : (m n : ℕ) → m ≤ n → w.clock m ≤ w.clock n) where
  -- at the next reading of the clock
  abbrev pub WaitsShort : Transport E → Type 0
  WaitsShort t = IsShort (w.clock t.ticks) t.throttled_until

  if-WaitsShort :
      {A : Type 0} (b : Bool) (x y : A × Transport E)
      → WaitsShort x.1
      → WaitsShort y.1
      → WaitsShort (if b then x else y).1
  if-WaitsShort true x y f g = f
  if-WaitsShort false x y f g = g

  tick : (n : ℕ) (u : Option ℕ) → IsShort (w.clock n) u → IsShort (w.clock (n + 1)) u
  tick n u h = IsShort-later (w.clock n) (w.clock (n + 1)) u (monotone n (n + 1) (omega arith)) h

  settle-WaitsShort :
      (e : E) (reply : Reply) (t : Transport E) → WaitsShort t → WaitsShort (settle w e reply t).1
  unfolding settle
  settle-WaitsShort e success t h = tick t.ticks t.throttled_until h
  settle-WaitsShort e (http code header) t h =
      if-WaitsShort (is_throttle_code code) _ _
        (tick t.ticks (until (w.clock t.ticks) (retry_after header))
          (retry_after-IsShort (w.clock t.ticks) header))
        (if-WaitsShort (leb 400 code && ltb code 500) _ _ h h)
  settle-WaitsShort e (unreachable text) t h = h

  go_on-WaitsShort :
      (o : Outcome) (t : Transport E) (rest : Bool × Transport E)
      → WaitsShort t
      → WaitsShort rest.1
      → WaitsShort (go_on w o t rest).1
  go_on-WaitsShort delivered t rest h r = h
  go_on-WaitsShort dropped t rest h r = h
  go_on-WaitsShort throttled t rest h r = h
  go_on-WaitsShort retry t rest h r = r

  attempts-WaitsShort :
      (n : ℕ) (e : E) (t : Transport E) → WaitsShort t → WaitsShort (attempts w n e t).1
  unfolding attempts attempt
  attempts-WaitsShort zero e t h = h
  attempts-WaitsShort (suc n) e t h =
      let next = settle w e (w.reply t.posts) (record t { posts = t.posts + 1 }) in
      let short = settle-WaitsShort e (w.reply t.posts) (record t { posts = t.posts + 1 }) h in
      go_on-WaitsShort next.0 next.1 (attempts w n e next.1) short
        (attempts-WaitsShort n e next.1 short)

  deliver-WaitsShort : (e : E) (t : Transport E) → WaitsShort t → WaitsShort (deliver w e t).1
  unfolding deliver
  deliver-WaitsShort e t h = if-WaitsShort w.offline_mode _ _ h (
      if-WaitsShort (is_throttled (w.clock t.ticks) t.throttled_until) _ _
        (tick t.ticks t.throttled_until h)
        (attempts-WaitsShort send_attempts e (record t { ticks = t.ticks + 1 })
          (tick t.ticks t.throttled_until h)))

  -- deliveries of some envelopes, one after another
  unfoldable pub deliver_all : List E → Transport E → Transport E
  deliver_all [] t = t
  deliver_all (e ∷ envelopes) t = deliver_all envelopes (deliver w e t).1

  -- Whatever the server answers, with whatever Retry-After, to however many deliveries: five minutes
  -- later the sender is not throttled. The clock does not go back, and the sender starts unthrottled
  -- or with a wait of five minutes at most.
  pub deliver_all-unthrottled :
      (envelopes : List E) (t : Transport E) (k : ℕ)
      → WaitsShort t
      → w.clock (deliver_all envelopes t).ticks + max_throttle ≤ w.clock k
      → is_throttled (w.clock k) (deliver_all envelopes t).throttled_until ≡ false
  unfolding deliver_all
  deliver_all-unthrottled [] t k h le =
      is_throttled-IsShort (w.clock t.ticks) (w.clock k) t.throttled_until h le
  deliver_all-unthrottled (e ∷ envelopes) t k h le =
      deliver_all-unthrottled envelopes (deliver w e t).1 k (deliver-WaitsShort e t h) le
