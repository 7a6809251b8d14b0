-- ===== src/Poll/Phantoms.antt =====
-- What a cycle stores and counts.
use Prim.Native.String.{String}
use mathlib.Core.Path.{subst}
use srp.Prelude.{
  if◌then◌else◌, tenths, length, ℕ, ◌+◌, ◌≡◌, refl, sym, ◌⊎◌, inl, inr, Bool, true, false, Option,
  none, some, List, [], ◌∷◌, ◌++◌, arith,
}
use srp.Poll.{
  Candidate, Payload, Probe, raised, silent, answered, Services, Database, Tag, tag_online,
  tag_unreachable, tag_errors, tag_skipped, Counts, arp_only, count_tag, build_reading, pid_of,
  store, stored_or, if_confirmed, work_silent, add_jobs, with_jobs, work_answered, work_on, work,
  run_poll_cycle,
}

abbrev pub total : Counts → ℕ
total c = c.online_count + c.unreachable_count + c.error_count + c.skipped_count

total-count_tag : (tag : Tag) (c : Counts) → total (count_tag tag c) ≡ total c + 1
unfolding count_tag
total-count_tag tag_online c = omega arith
total-count_tag tag_unreachable c = omega arith
total-count_tag tag_errors c = omega arith
total-count_tag tag_skipped c = omega arith

module _ {D J : Type 0} (w : Services D J) where
  -- A stored row answered, or something else than ARP vouches for it, or it is a confirmed printer.
  abbrev pub IsJustified : String × Payload D → Type 0
  IsJustified (pid, p) =
      (p.online ≡ true) ⊎ ((arp_only p.sources ≡ false) ⊎ (w.is_confirmed pid ≡ some true))

  abbrev pub AreJustified : List (String × Payload D) → Type 0
  AreJustified [] = Unit
  AreJustified (row ∷ rows) = IsJustified row × AreJustified rows

  AreJustified-append :
      (xs ys : List (String × Payload D))
      → AreJustified xs
      → AreJustified ys
      → AreJustified (xs ++ ys)
  AreJustified-append [] ys hx hy = hy
  AreJustified-append (x ∷ xs) ys (h, hx) hy = (h, AreJustified-append xs ys hx hy)

  -- a database with one more row
  abbrev extended : Payload D → Database D J → Database D J
  extended p db = record db { readings = db.readings ++ (pid_of w p, p) ∷ [] }

  extended-AreJustified :
      (p : Payload D) (db : Database D J)
      → AreJustified db.readings
      → IsJustified (pid_of w p, p)
      → AreJustified (extended p db).readings
  extended-AreJustified p db h j = AreJustified-append db.readings ((pid_of w p, p) ∷ []) h (j, tt)

  stored_or-AreJustified :
      (can : Bool) (p : Payload D) (db : Database D J) (tag : Tag)
      → AreJustified db.readings
      → IsJustified (pid_of w p, p)
      → AreJustified (stored_or w (if can then some (extended p db) else none) db tag).1.readings
  stored_or-AreJustified true p db tag h j = extended-AreJustified p db h j
  stored_or-AreJustified false p db tag h j = h

  if_confirmed-AreJustified :
      (arp : Bool) (confirmed : Option Bool) (db : Database D J) (kept : Tag × Database D J)
      → AreJustified db.readings
      → ((arp ≡ false) ⊎ (confirmed ≡ some true) → AreJustified kept.1.readings)
      → AreJustified (if arp then if_confirmed w confirmed db kept else kept).1.readings
  if_confirmed-AreJustified false confirmed db kept h k = k (inl refl)
  if_confirmed-AreJustified true none db kept h k = h
  if_confirmed-AreJustified true (some false) db kept h k = h
  if_confirmed-AreJustified true (some true) db kept h k = k (inr refl)

  if-readings :
      (b : Bool) (x y : Tag × Database D J) (db : Database D J)
      → x.1.readings ≡ db.readings
      → y.1.readings ≡ db.readings
      → (if◌then◌else◌ {A = Tag × Database D J} b x y).1.readings ≡ db.readings
  if-readings true x y db hx hy = hx
  if-readings false x y db hx hy = hy

  add_jobs-readings :
      (pid : String) (found : Option (List J)) (db : Database D J)
      → (add_jobs w pid found db).1.readings ≡ db.readings
  add_jobs-readings pid none db = refl
  add_jobs-readings pid (some []) db = refl
  add_jobs-readings pid (some (j ∷ js)) db =
      if-readings (w.can_store_jobs pid)
        (tag_online, record db { jobs = db.jobs ++ (pid, j ∷ js) ∷ [] }) (tag_errors, db) db refl
        refl

  with_jobs-AreJustified :
      (can : Bool) (p : Payload D) (address : String) (db : Database D J)
      → AreJustified db.readings
      → IsJustified (pid_of w p, p)
      → AreJustified
          (with_jobs w
            (pid_of w p)
            address
            (if can then some (extended p db) else none)
            db).1.readings
  with_jobs-AreJustified false p address db h j = h
  with_jobs-AreJustified true p address db h j =
      let same =
        if-readings w.ipp_jobs (add_jobs w (pid_of w p) (w.jobs_probe address) (extended p db))
          (tag_online, extended p db) (extended p db)
          (add_jobs-readings (pid_of w p) (w.jobs_probe address) (extended p db)) refl in
      subst AreJustified (sym same) (extended-AreJustified p db h j)

  work_on-AreJustified :
      (cand : Candidate) (seen : Probe D) (db : Database D J)
      → AreJustified db.readings
      → AreJustified (work_on w cand seen db).1.readings
  unfolding work_silent work_answered store build_reading
  work_on-AreJustified cand raised db h = h
  work_on-AreJustified cand silent db h =
      let p = build_reading w cand none in
      if_confirmed-AreJustified (arp_only cand.cand_sources) (w.is_confirmed (pid_of w p)) db
        (stored_or w (store w p db) db tag_unreachable) h
        (λ why. stored_or-AreJustified (w.can_store (pid_of w p)) p db tag_unreachable h (inr why))
  work_on-AreJustified cand (answered r) db h =
      let p = build_reading w cand (some r) in
      with_jobs-AreJustified (w.can_store (pid_of w p)) p cand.cand_ip db h (inl refl)

  -- A cycle stores no phantoms: of rows that all are justified it makes rows that all are, where a row
  -- is justified if its printer answered, if something else than ARP vouches for it, or if it is a
  -- confirmed printer, and each candidate is counted once, as online, unreachable, skipped or an error.
  pub run_poll_cycle-AreJustified :
      (candidates : List Candidate) (counts : Counts) (db : Database D J)
      → AreJustified db.readings
      → AreJustified (run_poll_cycle w candidates counts db).1.readings
        × (total (run_poll_cycle w candidates counts db).0 ≡ total counts + length candidates)
  unfolding run_poll_cycle work
  run_poll_cycle-AreJustified [] counts db h = (h, omega arith)
  run_poll_cycle-AreJustified (cand ∷ candidates) counts db h =
      let r = work_on w cand (w.probe cand) db in
      let (rows, sum) =
        run_poll_cycle-AreJustified candidates (count_tag r.0 counts) r.1
          (work_on-AreJustified cand (w.probe cand) db h) in
      (rows, omega (arith, sum, total-count_tag r.0 counts))
