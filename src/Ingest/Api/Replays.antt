-- ===== src/Ingest/Api/Replays.antt =====
-- server/api.py: an envelope that is sent again is stored once.
use Prim.Native.String.{String}
use text.Mathlib.Text.{◌==◌ as str_eq}
use mathlib.Core.Path.{subst}
use srp.Texts.{Dict, lookup, put, AreUnique, lookup-put, AreUnique-put}
use srp.Guards.{
  Guards, dedup_ttl, check_rate_limit, has_seen, mark_seen, count_reject, trim_keys, trim_windows,
  recent, times_of, rate_max_per_window,
}
use srp.Guards.Keys.{
  lookup-trim_keys_fresh, AreUnique-trim_keys, lookup-mark_seen, AreUnique-mark_seen,
}
use srp.Ingest.Versions.{is_contract_compatible}
use srp.Ingest.Pipeline.{
  Envelope, Pipeline, Rescored, Faults, Ended, finished, raised, value_failure, other_failure,
  ingest_envelope,
}
use srp.Ingest.Api.{
  Settings, Server, Moment, Reply, accepted, has_token, rate_key, is_over_limit, concluded,
  with_token, ingest_checked, ingest,
}
use srp.Ingest.Api.Verdicts.{is_let_in, guards_checked, ingest-IsOutcome, accepted-mark_seen}
use srp.Prelude.{
  leb, if◌then◌else◌, Bool-cases, Floats, tenths, length, ℕ, ◌+◌, ◌≤◌, ◌≡◌, refl, sym, ◌∙◌, ◌≢◌,
  inl, inr, Bool, true, false, not, Option, none, some, List, [], ◌∷◌, arith,
}

-- The key was marked at the moment `t` or after it, and no key stands twice.
pub record IsMarked (key : String) (t : ℕ) (seen : Dict ℕ) : Type 0 where
  pub unique : AreUnique seen
  pub moment : ℕ
  pub found : lookup key seen ≡ some moment
  pub since : t ≤ moment

seen_keys-check_rate_limit :
    (device : String) (now : ℕ) (g : Guards)
    → (check_rate_limit device now g).1.seen_keys ≡ g.seen_keys
unfolding check_rate_limit
seen_keys-check_rate_limit device now g =
    elim (Bool-cases (
      leb rate_max_per_window
        (length (recent now (times_of device (trim_windows now g.device_windows)))))) [
          | inl full ↦ rw (check_rate_limit, full) refl
          | inr room ↦ rw (check_rate_limit, room) refl
        ]

put-IsMarked :
    (key : String) (t : ℕ) (other : String) (now : ℕ) (seen : Dict ℕ)
    → t ≤ now
    → now ≤ t + dedup_ttl
    → IsMarked key t seen
    → IsMarked key t (put other now (trim_keys now seen))
put-IsMarked key t other now seen early late h =
    let unique' =
      AreUnique-put other now (trim_keys now seen) (AreUnique-trim_keys now seen h.unique) in
    let entry = lookup-put other key now (trim_keys now seen) in
    elim (Bool-cases (str_eq other key)) [
      | inl same ↦ record {
        unique = unique';
        moment = now;
        found = rw same at entry;
        since = early;
      }
      | inr apart ↦ record {
        unique = unique';
        moment = h.moment;
        found =
            (rw apart at entry)
            ∙ lookup-trim_keys_fresh now key seen h.moment h.unique h.found
                (omega (arith, late, h.since));
        since = h.since;
      }
    ]

IsMarked-mark_seen :
    (key : String) (t : ℕ) (other : Option String) (now : ℕ) (g : Guards)
    → t ≤ now
    → now ≤ t + dedup_ttl
    → IsMarked key t g.seen_keys
    → IsMarked key t (mark_seen other now g).seen_keys
unfolding mark_seen
IsMarked-mark_seen key t none now g early late h = h
IsMarked-mark_seen key t (some other) now g early late h = elim (Bool-cases (str_eq other "")) [
  | inl nameless ↦ rw (mark_seen, nameless) h
  | inr named ↦ rw (mark_seen, named) (put-IsMarked key t other now g.seen_keys early late h)
]

mark_seen-IsMarked :
    (key : String) (o : Option String) (now : ℕ) (g : Guards)
    → str_eq key "" ≡ false
    → o ≡ some key
    → AreUnique g.seen_keys
    → IsMarked key now (mark_seen o now g).seen_keys
mark_seen-IsMarked key o now g proper same unique = record {
  unique = AreUnique-mark_seen o now g unique;
  moment = now;
  found = rw same (lookup-mark_seen key now g proper);
  since = omega arith;
}

not_both : ¬ (false ≡ true)
not_both h = cc h

module _ {F : Type 0} where
  either :
      (key : String) (t : ℕ) (b : Bool) (x y : Reply × Server F)
      → IsMarked key t x.1.guards.seen_keys
      → IsMarked key t y.1.guards.seen_keys
      → IsMarked key t (if b then x else y).1.guards.seen_keys
  either key t true x y h k = h
  either key t false x y h k = k

module _ {F : Type 0} ⦃fl : Floats F⦄ (from_iso : String → Option ℕ) (parses : Envelope F → Bool)
    (faults : Faults F) (settings : Settings) where
  IsMarked-concluded :
      (key : String) (t : ℕ) (other : Option String) (now : ℕ) (g : Guards) (o : Ended × Pipeline F)
      → t ≤ now
      → now ≤ t + dedup_ttl
      → IsMarked key t g.seen_keys
      → IsMarked key t (concluded other now g o).1.guards.seen_keys
  IsMarked-concluded key t other now g (raised value_failure, after) early late h =
      unfold count_reject in h
  IsMarked-concluded key t other now g (raised other_failure, after) early late h = h
  IsMarked-concluded key t other now g (finished r, after) early late h =
      IsMarked-mark_seen key t other now g early late h

  IsMarked-with_token :
      (key : String) (t : ℕ) (fits : Option Bool) (s : Server F) (given : Reply × Server F)
      → IsMarked key t s.guards.seen_keys
      → IsMarked key t given.1.guards.seen_keys
      → IsMarked key t (with_token fits s given).1.guards.seen_keys
  IsMarked-with_token key t none s given h k = h
  IsMarked-with_token key t (some false) s given h k = unfold count_reject in h
  IsMarked-with_token key t (some true) s given h k = k

  IsMarked-ingest :
      (key : String) (t : ℕ) (m : Moment) (token : Option String) (env : Envelope F) (s : Server F)
      → t ≤ m.monotonic
      → m.monotonic ≤ t + dedup_ttl
      → IsMarked key t s.guards.seen_keys
      → IsMarked key t (ingest from_iso parses faults settings m token env s).1.guards.seen_keys
  unfolding ingest ingest_checked count_reject
  IsMarked-ingest key t m token env s early late h =
      let g = guards_checked from_iso parses faults settings m token env s in
      let kept : IsMarked key t g.seen_keys =
        subst (IsMarked key t)
          (sym (seen_keys-check_rate_limit (rate_key env.device_id) m.monotonic s.guards)) h in
      either key t settings.demo_mode _ _ h (
        IsMarked-with_token key t (has_token settings token) s _ h (
          either key t (not (check_rate_limit (rate_key env.device_id) m.monotonic s.guards).0) _ _
            kept
            (either key t (has_seen env.idempotency_key g) _ _ kept (
              either key t (not (is_contract_compatible (some env.agent_version))) _ _ kept (
                either key t
                  (is_over_limit settings.max_devices env.device_id s.pipeline.db.devices) _ _ kept
                  (IsMarked-concluded key t env.idempotency_key m.monotonic g
                    (ingest_envelope from_iso parses faults m.wall env s.pipeline) early late
                    kept))))))

  seen_again :
      (key : String) (t : ℕ) (o : Option String) (g : Guards)
      → str_eq key "" ≡ false
      → o ≡ some key
      → IsMarked key t g.seen_keys
      → has_seen o g ≡ true
  unfolding has_seen
  seen_again key t o g proper same h = rw (same, has_seen, proper, h.found) refl

  abbrev pub Requests : Type 0
  Requests = List (Moment × Option String × Envelope F)

  -- The server after a run of requests.
  unfoldable pub serve : Requests → Server F → Server F
  serve [] s = s
  serve ((m, token, env) ∷ requests) s =
      serve requests (ingest from_iso parses faults settings m token env s).1

  -- Every request comes at `t` or later, and within the time that keys are kept.
  abbrev pub AreWithin : ℕ → Requests → Type 0
  AreWithin t [] = Unit
  AreWithin t ((m, token, env) ∷ requests) =
      (t ≤ m.monotonic) × (m.monotonic ≤ t + dedup_ttl) × AreWithin t requests

  IsMarked-serve :
      (key : String) (t : ℕ) (requests : Requests) (s : Server F)
      → AreWithin t requests
      → IsMarked key t s.guards.seen_keys
      → IsMarked key t (serve requests s).guards.seen_keys
  unfolding serve
  IsMarked-serve key t [] s within h = h
  IsMarked-serve key t ((m, token, env) ∷ requests) s within h =
      IsMarked-serve key t requests (ingest from_iso parses faults settings m token env s).1
        within.2 (IsMarked-ingest key t m token env s within.0 within.1 h)

  marked_refuses :
      (key : String) (t : ℕ) (m : Moment) (token : Option String) (env : Envelope F) (s : Server F)
      → str_eq key "" ≡ false
      → env.idempotency_key ≡ some key
      → IsMarked key t s.guards.seen_keys
      → is_let_in from_iso parses faults settings m token env s ≡ false
  marked_refuses key t m token env s proper same h =
      let g = guards_checked from_iso parses faults settings m token env s in
      let kept : IsMarked key t g.seen_keys =
        subst (IsMarked key t)
          (sym (seen_keys-check_rate_limit (rate_key env.device_id) m.monotonic s.guards)) h in
      ground (arith, seen_again key t env.idempotency_key g proper same kept)

  accepted_marks :
      (key : String) (m : Moment) (token : Option String) (env : Envelope F) (s : Server F)
      (rescored : Rescored)
      → str_eq key "" ≡ false
      → env.idempotency_key ≡ some key
      → AreUnique s.guards.seen_keys
      → (ingest from_iso parses faults settings m token env s).0 ≡ accepted rescored
      → IsMarked key m.monotonic
          (ingest from_iso parses faults settings m token env s).1.guards.seen_keys
  accepted_marks key m token env s rescored proper same unique taken =
      let g = guards_checked from_iso parses faults settings m token env s in
      let alone =
        subst AreUnique
          (sym (seen_keys-check_rate_limit (rate_key env.device_id) m.monotonic s.guards)) unique in
      elim (ingest-IsOutcome from_iso parses faults settings m token env s) [
        | inl let_in ↦
            subst (λ (x : Guards). IsMarked key m.monotonic x.seen_keys)
              (sym (
                accepted-mark_seen from_iso parses faults settings m token env s _ rescored let_in.1
                  taken))
              (mark_seen-IsMarked key env.idempotency_key m.monotonic g proper same alone)
        | inr away ↦ absurd (away.1 rescored taken)
      ]

  -- An envelope with a key was stored; then come any requests within the five minutes that a key is
  -- kept for; then the envelope comes again, or any other with its key. It is not stored: the answer
  -- is not that of an accepted envelope, and the database, the queue and the scores stay the same.
  pub ingest-serve :
      (key : String) (m m' : Moment) (token token' : Option String) (env env' : Envelope F)
      (requests : Requests) (s : Server F) (rescored : Rescored)
      → str_eq key "" ≡ false
      → env.idempotency_key ≡ some key
      → env'.idempotency_key ≡ some key
      → AreUnique s.guards.seen_keys
      → (ingest from_iso parses faults settings m token env s).0 ≡ accepted rescored
      → AreWithin m.monotonic requests
      → (((again : Rescored)
            → (ingest from_iso parses faults settings m' token' env'
                (serve requests (ingest from_iso parses faults settings m token env s).1)).0
              ≢ accepted again)
          × ((ingest from_iso parses faults settings m' token' env' (
                serve requests (ingest from_iso parses faults settings m token env s).1)).1.pipeline
              ≡ (serve requests (ingest from_iso parses faults settings m token env s).1).pipeline))
  ingest-serve key m m' token token' env env' requests s rescored proper same same' unique taken
        within =
      let s' = (ingest from_iso parses faults settings m token env s).1 in
      let marked =
        IsMarked-serve key m.monotonic requests s' within
          (accepted_marks key m token env s rescored proper same unique taken) in
      let refused =
        marked_refuses key m.monotonic m' token' env' (serve requests s') proper same' marked in
      elim (ingest-IsOutcome from_iso parses faults settings m' token' env' (serve requests s')) [
        | inl let_in ↦ absurd (not_both (sym refused ∙ let_in.0))
        | inr away ↦ (away.1, away.2)
      ]
