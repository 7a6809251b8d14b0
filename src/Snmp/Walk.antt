-- ===== src/Snmp/Walk.antt =====
-- snmp_walk: the cursor over a table, its limit on rows and its stops.
pub mod Bounds
use srp.Prelude.{
  ltb, leb, ◌==◌, if◌then◌else◌, length, ℕ, zero, suc, ◌+◌, ◌-◌, Bool, true, false, not, ◌&&◌,
  Option, none, some, [], ◌∷◌,
}
use srp.Snmp.Dict.{Oid, same_oid, put, has}
use srp.Snmp.Message.{Value, Answer}

-- oid.startswith(base + "."), or the base itself
unfoldable pub in_subtree : Oid → Oid → Bool
in_subtree [] oid = true
in_subtree (a ∷ base) [] = false
in_subtree (a ∷ base) (b ∷ oid) = a == b && in_subtree base oid

-- the order of the tuples of `_oid_key`: a > b
unfoldable pub gt_oid : Oid → Oid → Bool
gt_oid [] b = false
gt_oid (x ∷ a) [] = true
gt_oid (x ∷ a) (y ∷ b) = if x == y then gt_oid a b else ltb y x

-- what the loop over one answer assigns
pub record Scan : Type 0 where
  pub result : Answer
  pub next_current : Option Oid
  pub left_subtree : Bool

abbrev is_newer : Oid → Option Oid → Bool
is_newer oid none = true
is_newer oid (some next) = gt_oid oid next

-- a row below the base
unfoldable pub scan_row : Oid → Value → Scan → Scan
scan_row oid value s = if has oid s.result then s else record s {
  result = put oid value s.result;
  next_current = if is_newer oid s.next_current then some oid else s.next_current;
}

-- `for oid, value in parsed.items()`
unfoldable pub scan : Oid → ℕ → Answer → Scan → Scan
scan base max_rows [] s = s
scan base max_rows ((oid, value) ∷ rows) s =
    if leb max_rows (length s.result)
    then s
    else scan base max_rows rows
        (if in_subtree base oid then scan_row oid value s else record s { left_subtree = true })

-- the end of a round: stop, or go on from the cursor that the scan has set
unfoldable pub settle : Scan → Oid → Bool → (Oid → Bool → Answer → Option Answer) → Option Answer
settle s current use_getbulk continue = elim (if s.left_subtree then none else s.next_current) [
  | none ↦ some s.result
  | some next ↦ if same_oid next current then some s.result else continue next use_getbulk s.result
]

-- A round, given the answer that it gets and what the rounds after it come to.
unfoldable pub round :
    Oid → ℕ → Answer → Oid → Bool → Answer → (Oid → Bool → Answer → Option Answer) → Option Answer
round base max_rows [] current true result continue = continue current false result
round base max_rows [] current false result continue = some result
round base max_rows (row ∷ rows) current use_getbulk result continue =
    let start : Scan = record { result = result; next_current = none; left_subtree = false } in
    settle (scan base max_rows (row ∷ rows) start) current use_getbulk continue

-- `while len(result) < max_rows`, on fuel. The answer to the request with number k, made with the
-- cursor, the kind of PDU and the rows that are still wanted, is `ask k current use_getbulk remaining`.
unfoldable pub walk_from :
    ℕ → (ℕ → Oid → Bool → ℕ → Answer) → Oid → ℕ → ℕ → Oid → Bool → Answer → Option Answer
walk_from zero ask base max_rows k current use_getbulk result = none
walk_from (suc fuel) ask base max_rows k current use_getbulk result =
    if ltb (length result) max_rows
    then round base max_rows (ask k current use_getbulk (max_rows - length result)) current
        use_getbulk result (walk_from fuel ask base max_rows (k + 1))
    else some result

-- At most one round for each row, one more for the fall back to GETNEXT, and the last test.
unfoldable pub snmp_walk : (ℕ → Oid → Bool → ℕ → Answer) → Oid → ℕ → ℕ → Option Answer
unfolding walk_from
snmp_walk ask base version max_rows =
    walk_from (max_rows + 2) ask base max_rows 0 base (not (version == 0)) []
