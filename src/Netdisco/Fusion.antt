-- ===== src/Netdisco/Fusion.antt =====
-- server/netdisco/fusion.py: one link for each pair of nodes, by its strongest evidence. normalize_mac
-- (`none` where the text is no MAC) and the id that identity.py makes of a chassis are given; the
-- numbers of ports and VLANs are naturals, and a set is a list.
pub mod Groups
pub mod Winners
pub mod Links
pub mod Fused
mod Examples
use Prim.Native.Nat.{Ordering}
use Prim.Native.String.{String, begins, compare as text_compare, ◌++◌ as text_append}
use text.Mathlib.Text.{◌==◌ as str_eq}
use srp.Netdisco.Sets.{insert}
use srp.Netdisco.Sorting.{sort}
use srp.Prelude.{
  ltb, ◌==◌, if◌then◌else◌, length, ℕ, Bool, true, false, not, ◌&&◌, ◌||◌, Option, none, some, List,
  [], ◌∷◌, ◌++◌,
}

pub record LinkEvidence : Type 0 where
  pub a : String
  pub b : String
  pub source : String
  pub confidence : String
  pub local_if : Option ℕ
  pub observed_at : Option String
  pub a_port : Option String
  pub b_port : Option String
  pub medium : Option String
  pub vlan : Option ℕ
  pub port_space : String

pub record ResolvedLink : Type 0 where
  pub a : String
  pub b : String
  pub via_source : String
  pub confidence : String
  pub link_kind : String
  pub ambiguous : Bool
  pub observed_at : Option String
  pub medium : Option String
  pub vlan : Option ℕ
  pub a_port : Option String
  pub b_port : Option String
  pub a_if : Option ℕ
  pub b_if : Option ℕ

-- SOURCE_PRIORITY.get(source, 0)
unfoldable pub priority : String → ℕ
priority source =
    if str_eq source "lldp" || str_eq source "wireless"
    then 5
    else if str_eq source "cdp"
    then 4
    else if str_eq source "fdb_edge" || str_eq source "route"
    then 3
    else if str_eq source "arp" || str_eq source "fdb_uplink"
    then 2
    else if str_eq source "fdb_ambiguous"
    then 1
    else 0

unfoldable pub link_kind_of : String → String
link_kind_of source = if str_eq source "fdb_uplink" then "l2-trunk" else "l2-edge"

-- the port of a node, in the numbering that it stands in
pub record Port : Type 0 where
  pub node : String
  pub space : String
  pub number : ℕ

abbrev pub same_port : Port → Port → Bool
same_port p q = str_eq p.node q.node && str_eq p.space q.space && p.number == q.number

-- frozenset((a, b))
abbrev pub same_pair : String × String → String × String → Bool
same_pair (a, b) (x, y) = (str_eq a x && str_eq b y) || (str_eq a y && str_eq b x)

-- the evidence of a key, which is never empty
abbrev pub Group : Type 0 → Type 0
Group K = K × LinkEvidence × List LinkEvidence

module _ {K : Type 0} (same : K → K → Bool) where
  -- groups[key].append(ev)
  unfoldable pub group_in : K → LinkEvidence → List (Group K) → List (Group K)
  group_in k e [] = (k, e, []) ∷ []
  group_in k e ((j, first, rest) ∷ groups) =
      let later = group_in k e groups in
      if same j k then (j, first, rest ++ e ∷ []) ∷ groups else (j, first, rest) ∷ later

-- max(_priority(e.source) for e in evs)
unfoldable pub top_priority : LinkEvidence → List LinkEvidence → ℕ
top_priority first [] = priority first.source
top_priority first (e ∷ es) =
    let top = top_priority e es in
    if ltb (priority first.source) top then top else priority first.source

abbrev text_ltb : String → String → Bool
text_ltb a b = elim (text_compare a b) [ Ordering.lt ↦ true | _ ↦ false ]

-- observed_at or ""
abbrev pub moment : Option String → String
moment none = ""
moment (some t) = t

-- (_priority(e.source), e.observed_at or "", e.source), one less than the other
unfoldable pub is_weaker : LinkEvidence → LinkEvidence → Bool
is_weaker w e =
    if not (priority w.source == priority e.source)
    then ltb (priority w.source) (priority e.source)
    else if not (str_eq (moment w.observed_at) (moment e.observed_at))
    then text_ltb (moment w.observed_at) (moment e.observed_at)
    else text_ltb w.source e.source

-- max(evs, key=…), the first of the greatest
unfoldable pub winner : LinkEvidence → List LinkEvidence → LinkEvidence
winner w [] = w
winner w (e ∷ es) = winner (if is_weaker w e then e else w) es

abbrev later_of : Option String → Option String → Option String
later_of none o = o
later_of (some t) none = some t
later_of (some t) (some u) = if text_ltb t u then some u else some t

abbrev truthy : Option String → Option String
truthy none = none
truthy (some t) = if str_eq t "" then none else some t

unfoldable pub latest : List LinkEvidence → Option String → Option String
latest [] o = o
latest (e ∷ es) o = latest es (later_of o (truthy e.observed_at))

abbrev pub or_vlan : Option ℕ → Option ℕ → Option ℕ
or_vlan none o = o
or_vlan (some v) o = some v

unfoldable pub first_vlan : List LinkEvidence → Option ℕ
first_vlan [] = none
first_vlan (e ∷ es) = or_vlan e.vlan (first_vlan es)

-- key in conflicted
unfoldable pub has_port : List Port → Port → Bool
has_port [] p = false
has_port (q ∷ ports) p = same_port q p || has_port ports p

-- sorted(pair)
unfoldable pub sort_pair : String × String → String × String
sort_pair (a, b) = elim (text_compare a b) [ Ordering.gt ↦ (b, a) | _ ↦ (a, b) ]

module _ (normalize_mac : String → Option String) (chassis_nid : String → String) where
  abbrev from_mac : Option String → String → String
  from_mac (some mac) hint = text_append "nd-mac-" mac
  from_mac none hint = chassis_nid hint

  unfoldable pub node_id : String → String
  node_id hint = if begins hint "nd-" 1 0 == 1 then hint else from_mac (normalize_mac hint) hint

  abbrev pub ends : LinkEvidence → String × String
  ends e = (node_id e.a, node_id e.b)

  abbrev pub is_self : LinkEvidence → Bool
  is_self e = str_eq (node_id e.a) (node_id e.b)

  abbrev pub port_at : LinkEvidence → ℕ → Port
  port_at e number = record { node = node_id e.a; space = e.port_space; number = number }

  abbrev pub add_port : LinkEvidence → Option ℕ → List (Group Port) → List (Group Port)
  add_port e none groups = groups
  add_port e (some number) groups =
      if is_self e then groups else group_in same_port (port_at e number) e groups

  unfoldable pub ports_onto : List LinkEvidence → List (Group Port) → List (Group Port)
  ports_onto [] groups = groups
  ports_onto (e ∷ es) groups = ports_onto es (add_port e e.local_if groups)

  unfoldable pub remotes : ℕ → List LinkEvidence → List String
  remotes top [] = []
  remotes top (e ∷ es) =
      let rest = remotes top es in
      if priority e.source == top then insert (node_id e.b) rest else rest

  unfoldable pub conflicts : List (Group Port) → List Port
  conflicts [] = []
  conflicts ((port, first, es) ∷ groups) =
      let rest = conflicts groups in
      if ltb 1 (length (remotes (top_priority first es) (first ∷ es))) then port ∷ rest else rest

  unfoldable pub conflicted_ports : List LinkEvidence → List Port
  conflicted_ports evidence = conflicts (ports_onto evidence [])

  unfoldable pub pairs_onto :
      List LinkEvidence → List (Group (String × String)) → List (Group (String × String))
  pairs_onto [] groups = groups
  pairs_onto (e ∷ es) groups =
      pairs_onto es (if is_self e then groups else group_in same_pair (ends e) e groups)

  abbrev pub off_conflict : List Port → LinkEvidence → Option ℕ → Bool
  off_conflict conflicted e none = false
  off_conflict conflicted e (some number) = has_port conflicted (port_at e number)

  unfoldable pub is_ambiguous : List Port → List LinkEvidence → Bool
  is_ambiguous conflicted [] = false
  is_ambiguous conflicted (e ∷ es) =
      off_conflict conflicted e e.local_if || is_ambiguous conflicted es

  abbrev pub link_of : List Port → LinkEvidence → List LinkEvidence → String × String → ResolvedLink
  link_of conflicted w evs (node_a, node_b) =
      let ambiguous_one = is_ambiguous conflicted evs in
      let index = if str_eq w.port_space "ifindex" then w.local_if else none in
      let here = str_eq (node_id w.a) node_a in
      record {
        a = node_a;
        b = node_b;
        via_source = w.source;
        confidence = if ambiguous_one then "low" else w.confidence;
        link_kind = link_kind_of w.source;
        ambiguous = ambiguous_one;
        observed_at = latest evs none;
        medium = w.medium;
        vlan = first_vlan evs;
        a_port = if here then w.a_port else w.b_port;
        b_port = if here then w.b_port else w.a_port;
        a_if = if here then index else none;
        b_if = if here then none else index;
      }

  unfoldable pub links_of : List Port → List (Group (String × String)) → List ResolvedLink
  links_of conflicted [] = []
  links_of conflicted ((pair, first, es) ∷ groups) =
      link_of conflicted (winner first es) (first ∷ es) (sort_pair pair)
      ∷ links_of conflicted groups

-- (link.a, link.b, link.via_source), one not greater than the other
unfoldable pub link_leb : ResolvedLink → ResolvedLink → Bool
link_leb l m =
    if not (str_eq l.a m.a)
    then text_ltb l.a m.a
    else if not (str_eq l.b m.b)
    then text_ltb l.b m.b
    else not (text_ltb m.via_source l.via_source)

module _ (normalize_mac : String → Option String) (chassis_nid : String → String) where
  unfoldable pub fuse : List LinkEvidence → List ResolvedLink
  fuse evidence =
      let conflicted = conflicted_ports normalize_mac chassis_nid evidence in
      sort link_leb (
        links_of normalize_mac chassis_nid conflicted
          (pairs_onto normalize_mac chassis_nid evidence []))
