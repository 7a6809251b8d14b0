-- ===== src/Guards/Window.antt =====
-- One call of the rate limit keeps the windows what is recent of the history of the device.
use Prim.Native.String.{String}
use text.Mathlib.Text.{◌==◌ as str_eq}
use text.Mathlib.TextEquality.{eq_iff}
use text.Mathlib.TextPositions.{eq_refl}
use mathlib.Core.Path.{subst}
use srp.Prelude.{
  ltb, leb, if◌then◌else◌, Bool-cases, length, length-append, ℕ, ◌≤◌, ◌≡◌, refl, sym, ap, ◌∙◌, ◌↔◌,
  inl, inr, Bool, true, false, ◌&&◌, Option, none, some, List, [], ◌∷◌, ◌++◌, arith,
}
use srp.Texts.{
  Dict, lookup, put, keep_if, AreUnique, lookup-put, lookup-keep_if, lookup-keep_if-none,
  AreUnique-keep_if, AreUnique-put,
}
use srp.Guards.{
  Guards, rate_max_per_window, trim_threshold, recent, any_recent, trim_windows, times_of, or_empty,
  check_rate_limit,
}

-- Filtering by a later moment forgets a filter by an earlier one.
pub recent-recent :
    (now later : ℕ) (times : List ℕ)
    → now ≤ later
    → recent later (recent now times) ≡ recent later times
unfolding recent
recent-recent now later [] h = refl
recent-recent now later (t ∷ times) h = ground (arith, recent-recent now later times h)

recent-append : (now : ℕ) (xs ys : List ℕ) → recent now (xs ++ ys) ≡ recent now xs ++ recent now ys
unfolding recent
recent-append now [] ys = refl
recent-append now (x ∷ xs) ys = ground (arith, recent-append now xs ys)

recent_now : (now : ℕ) → recent now (now ∷ []) ≡ now ∷ []
unfolding recent
recent_now now = ground arith

recent_none : (now : ℕ) (times : List ℕ) → any_recent now times ≡ false → recent now times ≡ []
unfolding recent any_recent
recent_none now [] h = refl
recent_none now (t ∷ times) h = ground (arith, recent_none now times)

pub length-recent :
    (now later : ℕ) (times : List ℕ)
    → now ≤ later
    → length (recent later times) ≤ length (recent now times)
unfolding recent
length-recent now later [] h = omega arith
length-recent now later (t ∷ times) h = ground (arith, length-recent now later times h)

-- Trimming takes away no device that has a recent request.
pub recent-trim_windows :
    (now : ℕ) (device : String) (windows : Dict (List ℕ))
    → AreUnique windows
    → recent now (times_of device (trim_windows now windows)) ≡ recent now (times_of device windows)
unfolding trim_windows
recent-trim_windows now device windows u = elim (Bool-cases (ltb trim_threshold (length windows))) [
  | inr few ↦ rw few
  | inl many ↦ rw many (kept (lookup device windows) refl)
]
  where
    kept :
        (o : Option (List ℕ))
        → lookup device windows ≡ o
        → recent now (times_of device (keep_if (any_recent now) windows)) ≡ recent now (or_empty o)
    kept none e = rw (lookup-keep_if-none (any_recent now) device windows e)
    kept (some times) e = elim (Bool-cases (any_recent now times)) [
      | inl live ↦ rw (lookup-keep_if (any_recent now) device windows u e, live)
      | inr dead ↦
          rw (lookup-keep_if (any_recent now) device windows u e, dead, recent_none now times dead)
            (unfold recent in refl)
    ]

AreUnique-trim_windows :
    (now : ℕ) (windows : Dict (List ℕ)) → AreUnique windows → AreUnique (trim_windows now windows)
unfolding trim_windows
AreUnique-trim_windows now windows u = ground (arith, AreUnique-keep_if (any_recent now) windows u)

times_of-put :
    (k j : String) (times : List ℕ) (windows : Dict (List ℕ))
    → times_of j (put k times windows) ≡ (if str_eq k j then times else times_of j windows)
times_of-put k j times windows = rw (lookup-put k j times windows) (ground arith)

-- The moments at which each device was let through.
abbrev pub History : Type 0
History = String → List ℕ

abbrev pub let_through : Bool → String → ℕ → History → History
let_through passed device now h d = if passed && str_eq device d then h d ++ now ∷ [] else h d

-- The windows are what is recent of the history, and no device has more than its share.
pub record Tracks (now : ℕ) (h : History) (g : Guards) : Type 0 where
  pub unique : AreUnique g.device_windows
  pub agree : (d : String) → recent now (times_of d g.device_windows) ≡ recent now (h d)
  pub bounded : (d : String) → length (recent now (h d)) ≤ rate_max_per_window

pub Tracks-later :
    {now later : ℕ} {h : History} {g : Guards} → now ≤ later → Tracks now h g → Tracks later h g
Tracks-later {now} {later} {h} {g} le t = record {
  unique = t.unique;
  agree = λ d.
      sym (recent-recent now later (times_of d g.device_windows) le)
      ∙ ap (recent later) (t.agree d)
      ∙ recent-recent now later (h d) le;
  bounded = λ d. omega (arith, length-recent now later (h d) le, t.bounded d);
}

module _ (device : String) (now : ℕ) (h : History) (g : Guards) (t : Tracks now h g) where
  -- what check_rate_limit counts
  counted : recent now (times_of device (trim_windows now g.device_windows)) ≡ recent now (h device)
  counted = recent-trim_windows now device g.device_windows t.unique ∙ t.agree device

  -- A device is refused exactly when it was let through thirty times in the last sixty seconds.
  pub check_rate_limit-refused_iff :
      ((check_rate_limit device now g).0 ≡ false)
      ↔ (length (recent now (h device)) ≡ rate_max_per_window)
  unfolding check_rate_limit
  check_rate_limit-refused_iff = rw counted (ground (arith, t.bounded device))

  -- A window that was written for the device, beside the trimmed ones.
  put-Tracks :
      (times : List ℕ) (h' : History)
      → recent now times ≡ recent now (h' device)
      → ((d : String) → str_eq device d ≡ false → h' d ≡ h d)
      → length (recent now (h' device)) ≤ rate_max_per_window
      → Tracks now h'
          (record g { device_windows = put device times (trim_windows now g.device_windows) })
  put-Tracks times h' same others small = record {
    unique =
        AreUnique-put device times (trim_windows now g.device_windows)
          (AreUnique-trim_windows now g.device_windows t.unique);
    agree = λ d. elim (Bool-cases (str_eq device d)) [
      | inl e ↦
          rw (times_of-put device d times (trim_windows now g.device_windows), e)
            (subst (λ j. recent now times ≡ recent now (h' j)) ((eq_iff device d).0 e) same)
      | inr e ↦
          rw (times_of-put device d times (trim_windows now g.device_windows), e, others d e)
            (recent-trim_windows now d g.device_windows t.unique ∙ t.agree d)
    ];
    bounded = λ d. elim (Bool-cases (str_eq device d)) [
      | inl e ↦
          subst (λ j. length (recent now (h' j)) ≤ rate_max_per_window) ((eq_iff device d).0 e)
            small
      | inr e ↦ rw (others d e) (t.bounded d)
    ];
  }

  pub check_rate_limit-Tracks :
      Tracks now
        (let_through (check_rate_limit device now g).0 device now h)
        (check_rate_limit device now g).1
  unfolding check_rate_limit
  check_rate_limit-Tracks =
      elim (Bool-cases (leb rate_max_per_window (length (recent now (h device))))) [
        | inl full ↦
            rw (counted, full)
              (put-Tracks (recent now (h device)) h (recent-recent now now (h device) (omega arith))
                (λ d e. refl) (t.bounded device))
        | inr room ↦
            let here : let_through true device now h device ≡ h device ++ now ∷ [] =
              rw (eq_refl device) in
            let grown : recent now (h device ++ now ∷ []) ≡ recent now (h device) ++ now ∷ [] =
              rw (recent-append now (h device) (now ∷ []), recent_now now) in
            let grown' : recent now (recent now (h device) ++ now ∷ [])
                ≡ recent now (h device) ++ now ∷ [] =
              rw (
                recent-append now (recent now (h device)) (now ∷ []),
                recent_now now,
                recent-recent now now (h device) (omega arith),
              ) in
            rw (counted, room)
              (put-Tracks (recent now (h device) ++ now ∷ []) (let_through true device now h)
                (grown' ∙ sym grown ∙ ap (recent now) (sym here)) (λ d e. rw e)
                (rw (here, grown, length-append (recent now (h device)) (now ∷ [])) (ground arith)))
      ]
