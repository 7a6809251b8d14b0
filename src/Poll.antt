-- ===== src/Poll.antt =====
-- server/printers/scheduler.py: one cycle that polls the printers. What the cycle calls (the probe, the
-- printer's identity, the database and the IPP client) is a record of functions; `none` there is an
-- exception. The workers are taken one after another.
pub mod Phantoms
mod Examples
use Prim.Native.String.{String}
use text.Mathlib.Text.{◌==◌ as str_eq}
use srp.Prelude.{
  if◌then◌else◌, ℕ, ◌+◌, Bool, true, false, ◌&&◌, Option, none, some, List, [], ◌∷◌, ◌++◌,
}

pub record Candidate : Type 0 where
  pub cand_ip : String
  pub cand_mac : Option String
  pub cand_name : Option String
  pub cand_sources : List String

-- what a probe reads; `details` are the fields that are stored as they are
pub record Reading (D : Type 0) : Type 0 where
  pub reading_ip : String
  pub reading_serial : Option String
  pub reading_mac : Option String
  pub reading_hostname : Option String
  pub details : D

-- a row of store_printer_reading; `none` details are those of an unreachable printer
pub record Payload (D : Type 0) : Type 0 where
  pub ip : String
  pub online : Bool
  pub serial : Option String
  pub mac : Option String
  pub hostname : Option String
  pub sources : List String
  pub stored : Option D

pub data Probe (D : Type 0) : Type 0 where
  raised silent : Probe D
  answered : Reading D → Probe D

pub record Services (D J : Type 0) : Type 0 where
  pub probe : Candidate → Probe D
  pub printer_identity : Option String → Option String → String → String
  pub is_confirmed : String → Option Bool
  pub can_store : String → Bool
  pub ipp_jobs : Bool
  pub jobs_probe : String → Option (List J)
  pub can_store_jobs : String → Bool

-- what was stored, in order
pub record Database (D J : Type 0) : Type 0 where
  pub readings : List (String × Payload D)
  pub jobs : List (String × List J)

pub data Tag : Type 0 where
  tag_online tag_unreachable tag_errors tag_skipped : Tag

pub record Counts : Type 0 where
  pub online_count : ℕ
  pub unreachable_count : ℕ
  pub error_count : ℕ
  pub skipped_count : ℕ

-- Python's `a or b` on texts
abbrev pub text_or : String → String → String
text_or a b = if str_eq a "" then b else a

abbrev pub or_else : Option String → Option String → Option String
or_else none b = b
or_else (some a) b = if str_eq a "" then b else some a

-- nothing but "arp" vouches for the candidate
abbrev pub all_arp : List String → Bool
all_arp [] = true
all_arp (s ∷ sources) = str_eq s "arp" && all_arp sources

unfoldable pub arp_only : List String → Bool
arp_only [] = false
arp_only (s ∷ sources) = all_arp (s ∷ sources)

abbrev pub no_counts : Counts
no_counts = record { online_count = 0; unreachable_count = 0; error_count = 0; skipped_count = 0 }

unfoldable pub count_tag : Tag → Counts → Counts
count_tag tag_online c = record c { online_count = c.online_count + 1 }
count_tag tag_unreachable c = record c { unreachable_count = c.unreachable_count + 1 }
count_tag tag_errors c = record c { error_count = c.error_count + 1 }
count_tag tag_skipped c = record c { skipped_count = c.skipped_count + 1 }

module _ {D J : Type 0} (w : Services D J) where
  unfoldable pub build_reading : Candidate → Option (Reading D) → Payload D
  build_reading cand none = record {
    ip = cand.cand_ip;
    online = false;
    serial = none;
    mac = cand.cand_mac;
    hostname = cand.cand_name;
    sources = cand.cand_sources;
    stored = none;
  }
  build_reading cand (some r) = record {
    ip = text_or r.reading_ip cand.cand_ip;
    online = true;
    serial = r.reading_serial;
    mac = or_else r.reading_mac cand.cand_mac;
    hostname = or_else r.reading_hostname cand.cand_name;
    sources = cand.cand_sources;
    stored = some r.details;
  }

  abbrev pub pid_of : Payload D → String
  pid_of p = w.printer_identity p.serial p.mac p.ip

  -- store, then the tag, or errors if it raises
  unfoldable pub store : Payload D → Database D J → Option (Database D J)
  store p db =
      if w.can_store (pid_of p)
      then some (record db { readings = db.readings ++ (pid_of p, p) ∷ [] })
      else none

  abbrev pub stored_or : Option (Database D J) → Database D J → Tag → Tag × Database D J
  stored_or none db tag = (tag_errors, db)
  stored_or (some db') db tag = (tag, db')

  -- is_confirmed of an ARP neighbour that does not answer
  abbrev pub if_confirmed : Option Bool → Database D J → Tag × Database D J → Tag × Database D J
  if_confirmed none db kept = (tag_errors, db)
  if_confirmed (some false) db kept = (tag_skipped, db)
  if_confirmed (some true) db kept = kept

  unfoldable pub work_silent : Candidate → Database D J → Tag × Database D J
  work_silent cand db =
      let p = build_reading cand none in
      let kept = stored_or (store p db) db tag_unreachable in
      if arp_only cand.cand_sources then if_confirmed (w.is_confirmed (pid_of p)) db kept else kept

  abbrev pub add_jobs : String → Option (List J) → Database D J → Tag × Database D J
  add_jobs pid none db = (tag_errors, db)
  add_jobs pid (some []) db = (tag_online, db)
  add_jobs pid (some (j ∷ js)) db =
      if w.can_store_jobs pid
      then (tag_online, record db { jobs = db.jobs ++ (pid, j ∷ js) ∷ [] })
      else (tag_errors, db)

  abbrev pub with_jobs : String → String → Option (Database D J) → Database D J → Tag × Database D J
  with_jobs pid address none db = (tag_errors, db)
  with_jobs pid address (some db') db =
      if w.ipp_jobs then add_jobs pid (w.jobs_probe address) db' else (tag_online, db')

  unfoldable pub work_answered : Candidate → Reading D → Database D J → Tag × Database D J
  work_answered cand r db =
      let p = build_reading cand (some r) in with_jobs (pid_of p) cand.cand_ip (store p db) db

  abbrev pub work_on : Candidate → Probe D → Database D J → Tag × Database D J
  work_on cand raised db = (tag_errors, db)
  work_on cand silent db = work_silent cand db
  work_on cand (answered r) db = work_answered cand r db

  unfoldable pub work : Candidate → Database D J → Tag × Database D J
  work cand db = work_on cand (w.probe cand) db

  unfoldable pub run_poll_cycle : List Candidate → Counts → Database D J → Counts × Database D J
  run_poll_cycle [] counts db = (counts, db)
  run_poll_cycle (cand ∷ candidates) counts db =
      let (tag, db') = work cand db in run_poll_cycle candidates (count_tag tag counts) db'
