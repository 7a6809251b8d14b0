-- ===== src/Snmp/Walk/Bounds.antt =====
-- snmp_walk ends against any agent, keeps to its limit on rows, and stays below its base.
use srp.Prelude.{
  ltb, leb, ◌==◌, if◌then◌else◌, ltb→lt, Bool-cases, Option-cases, length, ℕ, zero, suc, ◌+◌, ◌-◌,
  ◌≤◌, ◌<◌, ◌≡◌, refl, sym, ◌∙◌, ◌⊎◌, inl, inr, Bool, true, false, not, ◌||◌, Option, none, some,
  [], ◌∷◌, arith,
}
use srp.Snmp.Dict.{Oid, same_oid, same_oid_iff, put, has, length-put}
use srp.Snmp.Message.{Value, Answer}
use srp.Snmp.Walk.{in_subtree, Scan, scan_row, scan, settle, round, walk_from, snmp_walk}

-- Every key lies below the base.
abbrev pub AreBelow : Oid → Answer → Type 0
AreBelow base [] = Unit
AreBelow base ((k, v) ∷ d) = (in_subtree base k ≡ true) × AreBelow base d

-- No key stands twice.
abbrev pub AreDistinct : Answer → Type 0
AreDistinct [] = Unit
AreDistinct ((k, v) ∷ d) = (has k d ≡ false) × AreDistinct d

AreBelow-put :
    (base k : Oid) (v : Value) (d : Answer)
    → in_subtree base k ≡ true
    → AreBelow base d
    → AreBelow base (put k v d)
unfolding put
AreBelow-put base k v [] h all = (h, tt)
AreBelow-put base k v ((j, w) ∷ d) h all = ground (arith, AreBelow-put base k v d h all.1)

has-put : (j k : Oid) (v : Value) (d : Answer) → has j (put k v d) ≡ (same_oid k j || has j d)
unfolding put has
has-put j k v [] = refl
has-put j k v ((i, w) ∷ d) =
    ground (arith, same_oid_iff i k, same_oid_iff i j, same_oid_iff k j, has-put j k v d)

AreDistinct-put :
    (k : Oid) (v : Value) (d : Answer) → has k d ≡ false → AreDistinct d → AreDistinct (put k v d)
unfolding put has
AreDistinct-put k v [] h all = (refl, tt)
AreDistinct-put k v ((j, w) ∷ d) h all =
    ground (arith, same_oid_iff k j, same_oid_iff j k, has-put j k v d, AreDistinct-put k v d)

-- What holds of the rows that a walk has gathered.
pub record IsTable (base : Oid) (max_rows : ℕ) (d : Answer) : Type 0 where
  pub capped : length d ≤ max_rows
  pub below : AreBelow base d
  pub distinct : AreDistinct d

-- A cursor was only set where a row was added to the `n` that there were.
record Grew (n : ℕ) (s : Scan) : Type 0 where
  kept : n ≤ length s.result
  moved : (s.next_current ≡ none) ⊎ (n < length s.result)

module _ (base : Oid) (max_rows n : ℕ) where
  scan_row-Grew : (oid : Oid) (v : Value) (s : Scan) → Grew n s → Grew n (scan_row oid v s)
  unfolding scan_row
  scan_row-Grew oid v s g = ground (arith, length-put oid v s.result)

  scan-Grew : (rows : Answer) (s : Scan) → Grew n s → Grew n (scan base max_rows rows s)
  unfolding scan
  scan-Grew [] s g = g
  scan-Grew ((oid, v) ∷ rows) s g = elim (Bool-cases (leb max_rows (length s.result))) [
    | inl full ↦ rw full g
    | inr room ↦ elim (Bool-cases (in_subtree base oid)) [
      | inl below ↦ rw (room, below) (scan-Grew rows (scan_row oid v s) (scan_row-Grew oid v s g))
      | inr outside ↦
          rw (room, outside)
            (scan-Grew rows (record s { left_subtree = true })
              (record { kept = g.kept; moved = g.moved }))
    ]
  ]

module _ (base : Oid) (max_rows : ℕ) where
  scan_row-IsTable :
      (oid : Oid) (v : Value) (s : Scan)
      → in_subtree base oid ≡ true
      → length s.result < max_rows
      → IsTable base max_rows s.result
      → IsTable base max_rows (scan_row oid v s).result
  unfolding scan_row
  scan_row-IsTable oid v s below room t = elim (Bool-cases (has oid s.result)) [
    | inl old ↦ rw old t
    | inr new ↦ rw new (record {
      capped = rw (length-put oid v s.result, new) (omega arith);
      below = AreBelow-put base oid v s.result below t.below;
      distinct = AreDistinct-put oid v s.result new t.distinct;
    })
  ]

  scan-IsTable :
      (rows : Answer) (s : Scan)
      → IsTable base max_rows s.result
      → IsTable base max_rows (scan base max_rows rows s).result
  unfolding scan
  scan-IsTable [] s t = t
  scan-IsTable ((oid, v) ∷ rows) s t = elim (Bool-cases (leb max_rows (length s.result))) [
    | inl full ↦ rw full t
    | inr room ↦ elim (Bool-cases (in_subtree base oid)) [
      | inl below ↦
          rw (room, below)
            (scan-IsTable rows (scan_row oid v s) (scan_row-IsTable oid v s below (ground arith) t))
      | inr outside ↦ rw (room, outside) (scan-IsTable rows (record s { left_subtree = true }) t)
    ]
  ]

  -- A walk that ends with a table.
  abbrev Ends : Option Answer → Type 0
  Ends o = (r : Answer) × (o ≡ some r) × IsTable base max_rows r

  abbrev budget : Bool → Answer → ℕ
  budget use_getbulk result = (max_rows - length result) + (if use_getbulk then 1 else 0)

  module _ (continue : Oid → Bool → Answer → Option Answer) (left : ℕ)
      (rest : (next : Oid) (bulk : Bool) (r : Answer)
        → IsTable base max_rows r
        → budget bulk r < left
        → Ends (continue next bulk r)) where
    settle-Ends :
        (n : ℕ) (s : Scan) (current : Oid) (use_getbulk : Bool)
        → Grew n s
        → IsTable base max_rows s.result
        → n < max_rows
        → (max_rows - n) + (if use_getbulk then 1 else 0) < suc left
        → Ends (settle s current use_getbulk continue)
    unfolding settle
    settle-Ends n s current use_getbulk g t lt h = elim (Bool-cases s.left_subtree) [
      | inl gone ↦ (s.result, rw (gone, settle), t)
      | inr within ↦ elim (Option-cases s.next_current) [
        | inl stuck ↦ (s.result, rw (within, stuck, settle), t)
        | inr (next, e) ↦ elim (Bool-cases (same_oid next current)) [
          | inl same ↦ (s.result, rw (within, e, settle, same), t)
          | inr other ↦
              let grown : n < length s.result = elim g.moved [
                | inl stuck ↦ cc (sym stuck ∙ e)
                | inr more ↦ more
              ] in
              rw (within, e, settle, other) (rest next use_getbulk s.result t (omega arith))
        ]
      ]
    ]

    round-Ends :
        (parsed : Answer) (current : Oid) (use_getbulk : Bool) (result : Answer)
        → IsTable base max_rows result
        → length result < max_rows
        → budget use_getbulk result < suc left
        → Ends (round base max_rows parsed current use_getbulk result continue)
    unfolding round
    round-Ends [] current true result t lt h = rest current false result t (omega arith)
    round-Ends [] current false result t lt h = (result, refl, t)
    round-Ends (row ∷ rows) current use_getbulk result t lt h =
        let start : Scan = record { result = result; next_current = none; left_subtree = false } in
        settle-Ends (length result) (scan base max_rows (row ∷ rows) start) current use_getbulk
          (scan-Grew base max_rows (length result) (row ∷ rows) start
            (record { kept = omega arith; moved = inl refl }))
          (scan-IsTable (row ∷ rows) start t) lt h

module _ (ask : ℕ → Oid → Bool → ℕ → Answer) (base : Oid) (max_rows : ℕ) where
  walk_from-Ends :
      (fuel k : ℕ) (current : Oid) (use_getbulk : Bool) (result : Answer)
      → IsTable base max_rows result
      → budget base max_rows use_getbulk result < fuel
      → Ends base max_rows (walk_from fuel ask base max_rows k current use_getbulk result)
  unfolding walk_from
  walk_from-Ends zero k current use_getbulk result t h = elim h [ ]
  walk_from-Ends (suc fuel) k current use_getbulk result t h =
      elim (Bool-cases (ltb (length result) max_rows)) [
        | inr full ↦ (result, rw full, t)
        | inl room ↦ rw room (
            round-Ends base max_rows (walk_from fuel ask base max_rows (k + 1)) fuel
              (walk_from-Ends fuel (k + 1)) (ask k current use_getbulk (max_rows - length result))
              current use_getbulk result t (ltb→lt _ _ room) h)
      ]

  -- Against any agent, whatever it answers to each request, the walk ends within its bound of
  -- max_rows + 2 rounds, with at most max_rows rows, each of them below the base and none twice.
  pub snmp_walk-IsTable :
      (version : ℕ)
      → (r : Answer) × (snmp_walk ask base version max_rows ≡ some r) × IsTable base max_rows r
  unfolding snmp_walk
  snmp_walk-IsTable version =
      walk_from-Ends (max_rows + 2) 0 base (not (version == 0)) []
        (record { capped = omega arith; below = tt; distinct = tt }) (ground arith)
