-- ===== src/Snmp/Exchange.antt =====
-- _transact of snmp.py: a bounded number of attempts, each with the checks on what came back.
use srp.Prelude.{
  ◌==◌, if◌then◌else◌, ==_iff, ==_refl, Bool-cases, Bytes, ℤ, pos, negsuc, ℕ, zero, suc, ◌+◌, ◌≤◌,
  ◌<◌, ◌≡◌, refl, ap, ◌∙◌, ◌≢◌, ◌↔◌, ◌⊎◌, inl, inr, Bool, true, false, Option, none, some, [],
  arith,
}
use srp.Snmp.Message.{Answer, parse_message}

-- What one sendto and recvfrom can come to: an OSError, or a datagram and the address that it came
-- from. An address is the number that its dotted text stands for.
pub data Outcome : Type 0 where
  os_error : Outcome
  received : ℕ → Bytes → Outcome

abbrev pub same_ℤ : ℤ → ℤ → Bool
same_ℤ (pos a) (pos b) = a == b
same_ℤ (negsuc a) (negsuc b) = a == b
same_ℤ _ _ = false

pub same_ℤ_iff : (a b : ℤ) → (same_ℤ a b ≡ true) ↔ (a ≡ b)
same_ℤ_iff a b = ground arith

-- `if rid is not None and rid != request_id: continue`, else `return parsed`
abbrev pub take_or : ℤ → Option ℤ × Answer → Answer → Answer
take_or request_id (none, parsed) later = parsed
take_or request_id (some rid, parsed) later = if same_ℤ rid request_id then parsed else later

-- the body of the loop, given what the later attempts come to
unfoldable pub attempt : ℕ → ℤ → Outcome → Answer → Answer
unfolding parse_message
attempt target request_id os_error later = later
attempt target request_id (received from input) later =
    if from == target then take_or request_id (parse_message input) later else later

-- `for _ in range(retries + 1)`: the outcome of the attempt with number k is `net k`
unfoldable pub attempts : ℕ → ℕ → (ℕ → Outcome) → ℕ → ℤ → Answer
unfolding attempt
attempts zero k net target request_id = []
attempts (suc left) k net target request_id =
    let later = attempts left (k + 1) net target request_id in
    attempt target request_id (net k) later

-- `resolved` is what gethostbyname gives, `none` where it raises.
unfoldable pub transact : Option ℕ → ℕ → (ℕ → Outcome) → ℤ → Answer
unfolding attempts
transact none retries net request_id = []
transact (some target) retries net request_id = attempts (retries + 1) 0 net target request_id

-- An outcome that the checks let through: it comes from the host that was asked, and what it
-- says of the request id, if anything, is right.
pub record IsAccepted (target : ℕ) (request_id : ℤ) (answer : Answer) (o : Outcome) : Type 0 where
  pub input : Bytes
  pub from_target : o ≡ received target input
  pub id : Option ℤ
  pub id_fits : (id ≡ none) ⊎ (id ≡ some request_id)
  pub parsed : parse_message input ≡ (id, answer)

module _ (target : ℕ) (request_id : ℤ) where
  -- The two checks on the id of a datagram from the right host.
  take_or-cases :
      (input : Bytes) (later parsed : Answer) (id : Option ℤ)
      → parse_message input ≡ (id, parsed)
      → IsAccepted target request_id (take_or request_id (id, parsed) later) (received target input)
        ⊎ (take_or request_id (id, parsed) later ≡ later)
  take_or-cases input later parsed none e =
      inl (record { input = input; from_target = refl; id = none; id_fits = inl refl; parsed = e })
  take_or-cases input later parsed (some rid) e = elim (Bool-cases (same_ℤ rid request_id)) [
    | inr other ↦ inr (rw other)
    | inl same ↦ rw same (
        inl (record {
          input = input;
          from_target = refl;
          id = some rid;
          id_fits = inr (ap some ((same_ℤ_iff rid request_id).0 same));
          parsed = e;
        }))
  ]

  -- One attempt either lets its datagram through or hands on to the later ones.
  attempt-cases :
      (o : Outcome) (later : Answer)
      → IsAccepted target request_id (attempt target request_id o later) o
        ⊎ (attempt target request_id o later ≡ later)
  unfolding attempt
  attempt-cases os_error later = inr refl
  attempt-cases (received from input) later = elim (Bool-cases (from == target)) [
    | inr other ↦ inr (rw other)
    | inl same ↦
        rw ((==_iff from target).0 same, ==_refl target)
          (take_or-cases input later (parse_message input).1 (parse_message input).0 refl)
  ]

  attempts-IsAccepted :
      (left k : ℕ) (net : ℕ → Outcome)
      → attempts left k net target request_id ≢ []
      → (j : ℕ) × (k ≤ j)
        × (j < k + left)
        × IsAccepted target request_id (attempts left k net target request_id) (net j)
  unfolding attempts
  attempts-IsAccepted zero k net ne = absurd (ne refl)
  attempts-IsAccepted (suc left) k net ne =
      elim (attempt-cases (net k) (attempts left (k + 1) net target request_id)) [
        | inl accepted ↦ (k, omega arith, omega arith, accepted)
        | inr later ↦
            let (j, lo, hi, accepted) =
              attempts-IsAccepted left (k + 1) net (λ e. ne (later ∙ e)) in
            (j, omega arith, omega arith, rw later accepted)
      ]

-- An answer with anything in it comes from one of the attempts, at most `retries` + 1 of them: from a
-- datagram of the host that was asked, whose request id is right or missing, and it is all that this
-- datagram says.
pub transact-IsAccepted :
    (target retries : ℕ) (net : ℕ → Outcome) (request_id : ℤ)
    → transact (some target) retries net request_id ≢ []
    → (j : ℕ) × (j ≤ retries)
      × IsAccepted target request_id (transact (some target) retries net request_id) (net j)
unfolding transact
transact-IsAccepted target retries net request_id ne =
    let (j, _, hi, accepted) = attempts-IsAccepted target request_id (retries + 1) 0 net ne in
    (j, omega arith, accepted)
