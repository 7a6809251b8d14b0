-- ===== src/Netdisco/Correlation.antt =====
-- server/netdisco/correlation.py: which of the nodes that do not answer are down, and which are only
-- behind one that is.
pub mod Causes
pub mod Verdicts
pub mod Upstream
use Prim.Native.String.{String}
use mathlib.Core.Option as Option
use srp.Texts.{Dict, put}
use srp.Netdisco.Sets.{contains, to_set}
use srp.Netdisco.Graph.{Graph, Found, path_of, no_path, broken, path_to_root, find_root_cause}
use srp.Prelude.{if◌then◌else◌, drop, Bool, true, false, Option, none, some, List, [], ◌∷◌}

-- DOWN and UNREACHABLE
pub data Status : Type 0 where
  down unreachable : Status

pub record Verdict : Type 0 where
  pub status : Status
  pub root_cause : Option String
  pub suppressed : Bool

-- for hop in path[1:]
unfoldable pub first_in : List String → List String → Option String
first_in causes [] = none
first_in causes (hop ∷ hops) =
    let later = first_in causes hops in if contains causes hop then some hop else later

abbrev pub cause_on : List String → Found → Option String
cause_on causes (path_of path) = first_in causes (drop 1 path)
cause_on causes no_path = none
cause_on causes broken = none

unfoldable pub upstream_cause : Graph → String → List String → List String → Option String
upstream_cause g node roots causes = cause_on causes (path_to_root g node roots)

unfoldable pub classify : Graph → List String → List String → String → Verdict
classify g root_set causes node =
    if contains causes node
    then record { status = down; root_cause = some node; suppressed = false }
    else record {
      status = unreachable;
      root_cause = upstream_cause g node root_set causes;
      suppressed = true;
    }

-- for node in downs
unfoldable pub classify_all :
    Graph → List String → List String → List String → Dict Verdict → Dict Verdict
classify_all g root_set causes [] result = result
classify_all g root_set causes (node ∷ downs) result =
    classify_all g root_set causes downs (put node (classify g root_set causes node) result)

unfoldable pub correlate : Graph → List String → List String → Option (Dict Verdict)
correlate g down_set roots =
    let downs = to_set down_set in
    let root_set = to_set roots in
    Option.map (λ causes. classify_all g root_set causes downs [])
      (find_root_cause g downs root_set)
