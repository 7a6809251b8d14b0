-- ===== src/Lib.antt =====
-- SRP watches a fleet of computers and printers. An agent on each machine (client/) collects telemetry
-- and sends it in envelopes; the server (server/) guards its intake, decides how far each source is to
-- be believed, scores the devices and polls printers by SNMP. This library models parts of both and
-- proves what makes them correct.
--
-- The parts and their files:
--   Ber            server/printers/ber.py: the encoders and decoders, with their names. Bytes are
--                  natural numbers, checked where bytes([x]) checks them; an error is a value of Error.
--   Snmp           server/printers/snmp.py, on top of Ber: build_request, _parse_message (Message),
--                  _transact over a sequence of socket outcomes (Exchange), snmp_get and
--                  _walk_pdu (Client), snmp_walk (Walk).
--   Trust          server/trust/: the states (States), derive_state and compute_weight (Gate),
--                  resolve_domain_trust (Domains), the staleness pass (Staleness), and the checks of
--                  values (Validators). A pass reads stored rows and gives the updates to write.
--   Guards         server/ingest_guards.py: the module's dictionaries are the record Guards, which the
--                  operations take and return.
--   Transport      client/transport.py: the state of the sender with its buffer file, the posts that it
--                  made, and the operations; Buffer has the file, flush_buffer and send.
--   Rescore        server/rescore_queue.py: the queue, and a step relation for the threads that use it.
--   Cache          server/netdisco/cache.py: GraphCache, and a step relation for its readers and loads.
--   Identity       server/netdisco/identity.py: the id of a device, its merging, and the links.
--   Poll           server/printers/scheduler.py: run_poll_cycle over the services that it calls.
--   Errchain       server/analytics/errchain.py: analyze_events.
--   Zabbix         server/zabbix/protocol.py (Protocol) and status.py (Status).
--   Netdisco       server/netdisco/graph.py: the graph and its searches (Graph), and correlation.py on top
--                  of it (Correlation); sets are lists (Sets). fusion.py makes one link of the evidence for
--                  two nodes (Fusion), and changes.py tells two maps apart and ages devices (Changes);
--                  Sorting has the sort of both.
--   Ingest         The way of an envelope: shared/schema.py's versions (Versions), the devices of
--                  server/db.py (Devices), server/pipeline.py's readings (Sources), trust (Evaluate) and
--                  ingest_envelope (Pipeline), and the handler of server/api.py (Api).
--   Texts, Prelude Python's dict with text keys; lists, octets, ordered floats and error results.
--
-- The client's Transport is answered by a server that runs Guards: a 429 with the Retry-After of
-- retry_after_sec is what its throttle reads. Ingest composes the parts of the server: its handler asks
-- Guards, its evaluation calls Trust, and what it stores is handed to Rescore. Each call of server/db.py
-- in ingest_envelope is a step of its own that may raise, and what was stored before it stays; which step
-- raises is given (Faults). A request is handled to its end before the next one: the server runs the
-- handler on several threads, and what one thread does between the steps of another is not modelled.
--
-- Floats are an ordered type with the constants that the code uses (Prelude/Ieee), without NaN; tests
-- instantiate them by tenths over the natural numbers. Times of the guards and of the transport are
-- whole nanoseconds. An OID is the list of its arcs.
--
-- Fuel: decode_sequence has as much as the body has bytes, and shift_out as the number it shifts; each
-- step takes at least one. snmp_walk has two rounds more than max_rows, chunks as many as there are
-- items. The searches of Netdisco.Graph have a round for each text that stands in the graph, and
-- path_to_root one more. None of them runs out.
--
-- Not modelled: most of the database, what a recompute of the scores does, the web pages, the
-- collectors of the agent, and the probes of network discovery; JSON, pydantic, sockets, HTTP and the
-- file system are given as functions or outcomes. Logging and the texts of reasons are left out.
pub mod Prelude
pub mod Texts
pub mod Ber
pub mod Snmp
pub mod Trust
pub mod Guards
pub mod Transport
pub mod Rescore
pub mod Cache
pub mod Identity
pub mod Poll
pub mod Errchain
pub mod Zabbix
pub mod Netdisco
pub mod Ingest
