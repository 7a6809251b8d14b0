-- ===== src/Netdisco/Changes/Examples.antt =====
-- server/netdisco/changes.py: two small snapshots, and four devices of different ages.
use Prim.Native.String.{String}
use text.Mathlib.Text.{◌==◌ as str_eq}
use mathlib.Core.List.{Memᴰ}
use srp.Texts.{lookup, put}
use srp.Netdisco.Sets.{contains}
use srp.Netdisco.Graph.{keys}
use srp.Netdisco.Sorting.{sort, sort_in}
use srp.Netdisco.Changes.{
  Snapshot, appeared, disappeared, ip_changed, link_added, link_removed, missing, eligible_purge,
  Seen, nodes_onto, nodes_by_nid, has_pair, add_pair, add_edge, edges_onto, link_keys, missing_from,
  changed_nodes, missing_pairs, key_leb, diff, next_status, transition, transitions,
  stale_lifecycle,
}
use srp.Netdisco.Changes.Diff.{IsChange, diff-IsChange}
use srp.Netdisco.Changes.Ages.{IsDue, stale_lifecycle-IsDue}
use srp.Prelude.{if◌then◌else◌, tenths, ℕ, ◌≡◌, refl, ◌↔◌, Option, none, some, List, [], ◌∷◌}

-- The address of "pc" changes, "tv" takes the place of "cam", and the link to the former is new.
abbrev was : Snapshot
was = record {
  nodes =
      (record { nid = some "pc"; dev_type = none; ip = some "10.0.0.5" })
      ∷ (record { nid = some "cam"; dev_type = some "camera"; ip = none })
      ∷ [];
  links = (record { a = some "pc"; b = some "cam" }) ∷ [];
}

abbrev now : Snapshot
now = record {
  nodes =
      (record { nid = some "pc"; dev_type = none; ip = some "10.0.0.9" })
      ∷ (record { nid = some "tv"; dev_type = none; ip = none })
      ∷ [];
  links =
      (record { a = some "tv"; b = some "pc" }) ∷ (record { a = some "tv"; b = some "tv" }) ∷ [];
}

diff_test :
    diff was now
    ≡ appeared "tv"
      ∷ disappeared "cam"
      ∷ ip_changed "pc" (some "10.0.0.5") (some "10.0.0.9")
      ∷ link_added "pc" "tv"
      ∷ link_removed "cam" "pc"
      ∷ []
unfolding diff nodes_by_nid nodes_onto link_keys edges_onto add_edge add_pair has_pair missing_from
    changed_nodes missing_pairs sort sort_in key_leb keys contains lookup put
diff_test = refl

diff-IsChange_example :
    Memᴰ (ip_changed "pc" (some "10.0.0.5") (some "10.0.0.9")) (diff was now)
    ↔ IsChange was now (ip_changed "pc" (some "10.0.0.5") (some "10.0.0.9"))
diff-IsChange_example = diff-IsChange was now (ip_changed "pc" (some "10.0.0.5") (some "10.0.0.9"))

abbrev seconds_since : String → Option ℕ
seconds_since moment =
    if str_eq moment "long ago"
    then some 900
    else if str_eq moment "a while ago"
    then some 300
    else none

abbrev seen : List Seen
seen =
    (record { device_nid = some "tv"; last_seen = some "long ago"; status = some missing })
    ∷ (record { device_nid = some "pc"; last_seen = some "a while ago"; status = none })
    ∷ (record { device_nid = some "cam"; last_seen = some "unknown"; status = none })
    ∷ (record { device_nid = some "ap"; last_seen = some "a while ago"; status = some missing })
    ∷ []

stale_lifecycle_test :
    stale_lifecycle seconds_since 100 500 seen ≡ ("pc", missing) ∷ ("tv", eligible_purge) ∷ []
unfolding stale_lifecycle transitions transition next_status sort sort_in
stale_lifecycle_test = refl

stale_lifecycle-IsDue_example :
    Memᴰ ("pc", missing) (stale_lifecycle seconds_since 100 500 seen) ↔ (
      (dev : Seen) × Memᴰ dev seen
      × IsDue seconds_since 100 500 dev.device_nid dev.last_seen dev.status ("pc", missing))
stale_lifecycle-IsDue_example = stale_lifecycle-IsDue seconds_since 100 500 seen ("pc", missing)
