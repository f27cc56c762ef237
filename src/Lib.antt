-- ===== src/Lib.antt =====
-- WazabiEDR Agent: what the agent does with the events of an endpoint between their sources and the
-- server, and which programs it lets take part.
--
-- Events come from the kernel driver, from plugins over a named pipe, and from pollers that compare
-- snapshots of the system. Each source hands lines to a spool: a bounded channel, and one writer
-- thread that appends to an active file, seals it into a compressed batch and keeps the directory
-- within a budget. The shipper thread uploads the sealed batches, oldest first, and removes what the
-- server has taken. A supervisor launches the enrolled plugins; the plugin server identifies each
-- client, validates it against the store of manifests and stamps its events. Detection alerts go to
-- the server in batches of their own. A heartbeat thread asks the server for commands, runs and
-- acknowledges them, hands over the plugins that it assigns and pulls the profile with its rules.
--
-- Which file models which part:
--   Prelude            lists, texts, maps and bytes over the native numbers, sorting by name
--   Filter             src/filter.rs: Filter::allows, init, allows
--   Spool              src/spool/writer.rs, the submitting side: SpoolConfig, SpoolStats, try_submit
--   Spool/File         src/spool/file.rs, and the names and files of the spool directory
--   Spool/Cap          enforce_total_size_cap; the proofs are in Cap/Budget and Cap/Oldest
--   Spool/Writer       writer_main, rotate, seal_active_file; the proofs are in Writer/Accounts
--                      (counters, size) and Writer/Conserve (bytes)
--   Shipper            src/shipper/run.rs: oldest_batch, send_one; Shipper/Backoff next_backoff;
--                      Shipper/Round the loop of shipper_main; proofs in Oldest and Drain
--   Polling/Envelope   src/polling/envelope.rs, and the emit of src/polling/services.rs
--   Polling/Services   src/polling/services.rs: compute_diff, build_payload, diff_and_emit;
--                      Enumerate for enumerate_services, Run for the loop; proofs in Diff (against
--                      the relation Change of Spec), Snapshot and Run
--   Polling/Tasks      src/polling/tasks.rs: diff_and_emit and the loop; proofs in Tasks/Diff
--   Plugin/Protocol    src/plugin/protocol.rs: read_frame, write_frame; proofs in Fill and Frames
--   Plugin/Manifest    src/plugin/manifest.rs: load_one, load_dir, directory_fingerprint (with
--                      Plugin/Fnv); proofs in Manifest/Store and Manifest/Keyed
--   Plugin/Handshake   src/plugin/server.rs, validate_handshake; proofs in Handshake/Accept
--   Plugin/Session     src/plugin/server.rs, handle_session and emit_event; proofs in
--                      Session/Attribution
--   Plugin/Enrich      src/plugin/server.rs, enrich_with_xml_data_fields and its scanners; proofs in
--                      Enrich/Fields and Enrich/Fuel
--   Plugin/Acceptor    src/plugin/server.rs, accept_loop
--   Plugin/Supervisor  src/plugin/supervisor.rs: scan_and_spawn, wait_for_exit_or_change,
--                      supervise_one; proofs in Supervisor/Once, Reach and Launches
--   Plugin/Assignment  src/plugin/assignment.rs: the checks of names and digests, downloads; Handlers
--                      for the handlers and process_pending_plugins; proofs in Verified (digests),
--                      Install (the order of an install) and Flight (the packages in flight)
--   Control/Alerts     src/control/alerts.rs: run, post_batch; proofs in Alerts/Delivery
--   Control/Sha256     src/control/executor.rs: Sha256, sha256_file; Compress the compression; proofs
--                      in Blocks and Digest, against the padding and blocks of the standard
--   Control/Isolation  execute_isolate, execute_unisolate; proofs in Isolation/Restore
--   Control/Executor   Output the wait for a command and read_capped, with their proofs; Walk the walk
--                      of scan_now, proofs in Walk/Totals; Files the other handlers, proofs in
--                      Files/Verified; Dispatch execute
--   Control/Sync       src/control/sync.rs: load_persisted, pull, parse_template_rules; proofs in
--                      Sync/Accepted (the rules) and Sync/Order (what a pull leaves)
--   Control/Heartbeat  src/control/heartbeat.rs: run; proofs in Heartbeat/Order
--   Ipc/Wire           src/ipc/events.rs: the layouts, and the reading of a packed structure
--   Ipc/Payloads       src/ipc/json.rs: the encoders of payloads; Ipc/Kernel decode_kernel_event,
--                      Ipc/Process extract_process, the envelope and encode_kernel_event; proofs in
--                      Ipc/Bounds, Ipc/Named, Ipc/RoundTrip and Ipc/Decode
--   Tests              the theorems at concrete inputs
--
-- How state corresponds. Each thread's locals and the counters it shares are one record, and each
-- handler is a function from that record to the next. A directory is the list of its files. The
-- answers of Windows, of the file system, of HTTP, of serde and of zstd come with each step, as
-- records (RotateIo, ShipIo, ScmIo, Poll, Checks) or as lists of answers (Received, Incoming,
-- Delivery, Happening, AlertEvent), or as functions of the calls made so far (Os, Site), and a call that
-- can fail has its failure among them. Texts are the native strings, or lists of code points where
-- they are taken apart; bytes and file names are lists of numbers; payloads of commands are JSON.
-- Counters, sizes and times are unbounded numbers; the hash of the fingerprint and the shifts of the backoff wrap at 64 bits, and subtraction
-- that the source makes saturating stops at 0.
--
-- Bounds and fuel. The retries of the service enumeration are 3 as in the source. The decimal digits
-- of n take at most n rounds, and the sliced sleep of d milliseconds at most d slices. The
-- scan of XML takes a round of fuel per character, since each round passes over one at least, and a
-- replacement of entities likewise; the final drain of alerts takes a round per alert. The hasher
-- takes a byte at least in each round of its loop, the walk a directory, and the wait for a command
-- 100 ms, of which its timeout leaves ten to the second. All other loops run over the list of what
-- happens.
--
-- Not modelled: the event tracing callbacks, the console's printer of events, the pump of the driver's
-- device, the look-ups of users and sessions, the configuration, the start of the threads, detection
-- with the parser of its rules, and the Windows calls themselves. HTTP exchanges are parameters, as are
-- netsh, wedr-plugin and the writer of JSON. Of the plugin server, the text of the clock is a
-- parameter, and the reload thread is left out. The walk of the folders of scheduled tasks comes as a
-- snapshot. Of a command's result, the clocks and the texts of errors are left out.
pub mod Prelude
pub mod Filter
pub mod Spool
pub mod Shipper
pub mod Polling
pub mod Plugin
pub mod Control
pub mod Ipc
pub mod Tests
