-- ===== src/Poll/Examples.antt =====
-- A printer that answers, an ARP neighbour that does not, and a printer of the spooler that does not.
use Prim.Native.String.{String}
use text.Mathlib.Text.{◌==◌ as str_eq}
use srp.Prelude.{if◌then◌else◌, tenths, ℕ, ◌≡◌, refl, true, false, none, some, List, [], ◌∷◌}
use srp.Poll.{
  Candidate, Probe, silent, answered, Services, Database, no_counts, arp_only, count_tag,
  build_reading, store, work_silent, work_answered, work, run_poll_cycle,
}
use srp.Poll.Phantoms.{AreJustified, total, run_poll_cycle-AreJustified}

abbrev candidate : String → String → Candidate
candidate address source = record {
  cand_ip = address;
  cand_mac = none;
  cand_name = none;
  cand_sources = source ∷ [];
}

abbrev probe_of : Candidate → Probe ℕ
probe_of c =
    if str_eq c.cand_ip "10.0.0.1"
    then answered (record {
      reading_ip = "";
      reading_serial = some "S1";
      reading_mac = none;
      reading_hostname = none;
      details = 7;
    })
    else silent

abbrev services : Services ℕ ℕ
services = record {
  probe = probe_of;
  printer_identity = λ serial mac ip. ip;
  is_confirmed = λ pid. some false;
  can_store = λ pid. true;
  ipp_jobs = true;
  jobs_probe = λ address. some (3 ∷ []);
  can_store_jobs = λ pid. true;
}

abbrev candidates : List Candidate
candidates =
    candidate "10.0.0.1" "arp" ∷ candidate "10.0.0.2" "arp" ∷ candidate "10.0.0.3" "agent" ∷ []

abbrev empty : Database ℕ ℕ
empty = record { readings = []; jobs = [] }

three_polled :
    (run_poll_cycle services candidates no_counts empty).0
    ≡ record { online_count = 1; unreachable_count = 1; error_count = 0; skipped_count = 1 }
unfolding run_poll_cycle work work_silent work_answered store build_reading arp_only count_tag
three_polled = refl

run_poll_cycle-AreJustified_example :
    AreJustified services (run_poll_cycle services candidates no_counts empty).1.readings
    × (total (run_poll_cycle services candidates no_counts empty).0 ≡ 3)
run_poll_cycle-AreJustified_example =
    run_poll_cycle-AreJustified services candidates no_counts empty tt
