-- ===== src/Identity/Examples.antt =====
-- A device that is seen by its address, then by its MAC, then by its address again.
use srp.Prelude.{tenths, ◌≡◌, refl, some, List, [], ◌∷◌}
use srp.Texts.{lookup, put}
use srp.Identity.{Nid, mac, ip, Printer, NetDevice, index_by, link_of, link_rows, link_identities}

abbrev first : Nid
first = ip "10.0.0.5"

abbrev seen : List Nid
seen = mac "aabbccddeeff" ∷ []

abbrev printer : Printer
printer = record { printer_id = some "p1"; printer_mac = some "aa"; printer_ip = some "10.0.0.9" }

abbrev row : NetDevice
row = record { device_key = some "nd1"; device_mac = some "bb"; device_ip = some "10.0.0.9" }

-- A row with a MAC is not linked by its address.
row_links : link_identities (row ∷ []) [] (printer ∷ []) ≡ []
unfolding link_identities link_rows link_of index_by lookup put
row_links = refl
