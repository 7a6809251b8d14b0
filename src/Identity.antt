-- ===== src/Identity.antt =====
-- server/netdisco/identity.py: the stable id of a network device. What the module makes of a raw
-- chassis id, serial, MAC or address (_norm_token, normalize_mac, _valid_ip, _canon_ip) is given. An
-- id is its scheme and its token; a text of another form has the strength of unknown.
pub mod Merging
mod Examples
use Prim.Native.String.{String}
use srp.Prelude.{ltb, if◌then◌else◌, ℕ, Bool, true, false, Option, none, some, List, [], ◌∷◌}
use srp.Texts.{Dict, lookup, put}

pub data Nid : Type 0 where
  chassis sn mac ip : String → Nid
  unknown : Nid

-- _STRENGTH of _scheme
unfoldable pub strength : Nid → ℕ
strength (chassis t) = 4
strength (sn t) = 3
strength (mac t) = 2
strength (ip t) = 1
strength unknown = 0

-- the first identifier that is usable, from the strongest to the weakest
unfoldable pub device_nid : Option String → Option String → Option String → Option String → Nid
device_nid (some token) serial norm_mac address = chassis token
device_nid none (some token) norm_mac address = sn token
device_nid none none (some m) address = mac m
device_nid none none none (some a) = ip a
device_nid none none none none = unknown

unfoldable pub merge_identity : Nid → Nid → Nid
merge_identity old new = if ltb (strength old) (strength new) then new else old

-- a printer with its normalised MAC and its private address; the id is none where it is empty
pub record Printer : Type 0 where
  pub printer_id : Option String
  pub printer_mac : Option String
  pub printer_ip : Option String

-- a row; its key is none where it is empty or the shared nd-unknown
pub record NetDevice : Type 0 where
  pub device_key : Option String
  pub device_mac : Option String
  pub device_ip : Option String

pub record Link : Type 0 where
  pub device_id : Option String
  pub linked_printer : Option String

abbrev pub set_default : Option String → String → Dict String → Dict String
set_default none v d = d
set_default (some k) v d = elim (lookup k d) [ none ↦ put k v d | some _ ↦ d ]

unfoldable pub index_by : (Printer → Option String) → Dict String → List Printer → Dict String
index_by key d [] = d
index_by key d (p ∷ printers) =
    index_by key (elim p.printer_id [ none ↦ d | some pid ↦ set_default (key p) pid d ]) printers

abbrev pub find : Option String → Dict String → Option String
find none d = none
find (some k) d = lookup k d

-- the two columns of a row: by its MAC, or by its address where it has no MAC
unfoldable pub link_of : Dict String → Dict String → Dict String → NetDevice → Link
link_of agent_macs by_mac by_ip nd = elim nd.device_mac [
  | some m ↦ record { device_id = lookup m agent_macs; linked_printer = lookup m by_mac }
  | none ↦ record { device_id = none; linked_printer = find nd.device_ip by_ip }
]

abbrev pub is_linked : Option String → Option String → Bool
is_linked none none = false
is_linked none (some p) = true
is_linked (some d) p = true

abbrev pub add_link : String → Link → Dict Link → Dict Link
add_link nid l links = if is_linked l.device_id l.linked_printer then put nid l links else links

unfoldable pub link_rows :
    Dict String → Dict String → Dict String → List NetDevice → Dict Link → Dict Link
link_rows agent_macs by_mac by_ip [] links = links
link_rows agent_macs by_mac by_ip (nd ∷ rows) links =
    link_rows agent_macs by_mac by_ip rows (elim nd.device_key [
      | none ↦ links
      | some nid ↦ add_link nid (link_of agent_macs by_mac by_ip nd) links
    ])

unfoldable pub link_identities : List NetDevice → Dict String → List Printer → Dict Link
link_identities net_devices agent_macs printers =
    link_rows agent_macs (index_by (λ p. p.printer_mac) [] printers)
      (index_by (λ p. p.printer_ip) [] printers) net_devices []
