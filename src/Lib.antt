-- ===== src/Lib.antt =====
-- Sniff4Hound, a network sensor that captures packets, tags them with rules and detectors, keeps
-- what they show in a database and serves it over an API. This library models the parts that carry
-- state of their own, in the state-passing style: a record for the state of an object, one function
-- for each operation, and for objects that threads share a schedule of the sections that run under
-- their locks.
--
-- How the parts interact: the capture threads put packets into the cache (Pipeline), from which the
-- packet jobs take them; each packet runs through the anomaly detectors (Anomaly); requests whose
-- work takes long go to the job queue (Jobs), after their source passed the rate limiter (RateLimit);
-- the resource guard (ResourceGuard) stops and starts the capture; and the updates of the cache's and
-- the guard's settings are validated first (Settings). What a decoded DNS packet says of names becomes
-- observations of the history, which a recorder gathers between two writes (History). The decoders
-- read names from the bytes of a packet (Wire), and what is shown of a name or an address is
-- looked up in bundled catalogs (Names). A packet is tagged by the rules that it matches (Rules), and
-- a request is let through by its token (Tokens). The web process reaches the capture process over one
-- connection, which many requests share (Ipc).
--
--   Prelude        Boolean tests, lists, dicts, texts, deques of times, printing
--   Pipeline       sniff4hound/packet_pipeline.py, PacketCache: put, get, get_many, set_limit,
--                  reset_counters, close
--   RateLimit      sniff4hound/auth.py, AuthRateLimiter: _entry, _evict, check, register_failure,
--                  register_success, blocked_for, reset
--   Jobs           sniff4hound/jobs.py, JobQueue and Job: Core has the sections of the workers and of
--                  the watchdog (_work_loop, _settle, _abandon_overdue), Callers those of submit,
--                  _persist, _finish, reap and shutdown, Run the schedules of them; Pool, Outcomes
--                  and Rows are about all schedules, Race about one
--   Anomaly        sniff4hound/anomaly.py: Detectors has the seven detectors, Engine _group_key,
--                  GenericThresholdDetector and AnomalyEngine.evaluate
--   ResourceGuard  sniff4hound/resource_guard.py: sample, _trip, _resume, _below_resume, _persist,
--                  start, reset_counters
--   History        sniff4hound/history.py: normalize_domain, dns_observations;
--                  Recorder: sniff4hound/history_recorder.py, HistoryRecorder: _add_dns, _add_arp,
--                  _event, _load_arp_state, observe, flush
--   Ipc            sniff4hound/ipc.py: Frames has _send_frame, _recv_exact, _recv_frame and
--                  _tokens_match; Client the state of IpcClient with _resolve, _fail_all_pending,
--                  _drop_connection and close, Connect connect and _ensure_connected, Call call
--                  and the reader; Server IpcServer's _handle_client, _dispatch, publish, stop.
--                  Receive, RoundTrip, Client/Pending, Linked, Link, Drop, Once, Callers,
--                  Attempts, Moves and Threads (every thread together), and
--                  Server/Sessions are about them
--   Tokens         sniff4hound/auth.py: encode_jwt, decode_jwt, generate_token, revoke_jwt_id,
--                  is_jwt_revoked, verify_token, authenticate_request
--   Rules          sniff4hound/rulesets.py: Flags has parse_tcp_flags, Packet the fields, Match
--                  rule_matches_packet, build_packet_text and _is_http_response_packet
--   Names          IpRegistry: sniff4hound/ip_registry.py; DomainNames: sniff4hound/domain_names.py;
--                  MacVendor: sniff4hound/mac_vendor.py
--   Wire           sniff4hound/sniffer.py: DnsName has _read_dns_name and extract_dns_query_name,
--                  DnsMessage parse_dns_message, _dns_rdata_preview and _dns_message_summary, Sni
--                  extract_tls_sni and _looks_like_tls_record, Nbns decode_nbns_name
--   Settings       coerce_limit_settings of sniff4hound/resource_guard.py; coerce_pipeline_settings
--                  and _bounded_int of sniff4hound/packet_pipeline.py; Python's int on what a request
--                  can contain
--
-- Conventions: a text is its list of code points, and lower is that of the ASCII letters; a dict is
-- its list of entries; a time is a number of ticks, and an operation that reads the clock takes the
-- time as an argument; a number that the source keeps as a float is a natural number of ticks or, in
-- the guard, of tenths, and the overflow of the lockout's power of two is written out. The removal of
-- the oldest sources in _evict runs on fuel, the size of the
-- table, which is enough because every round removes one; the digits of a number run on fuel, one
-- more than the number, which has no more digits than that. The rounds of `_recv_exact` are bounded
-- by the bytes that are asked for, those of connect by its budget in quarters of a second and two
-- more, those of a DNS name by its jumps and its 128 labels, and those of the TLS extensions and of
-- the bisection by the length of what they read.
--
-- What the model leaves out: logging, time stamps as text, the broadcast of a finished job, the
-- statements of the database (a row is the last snapshot that was written), waiting on a condition,
-- and the measurements of the guard. The test whether a packet matches a monitor
-- is a parameter of the anomaly engine. JSON, the idna codec, ipaddress, the HMAC and the search of a
-- regular expression are functions that the definitions take. The other decoders, the
-- normalization of rules, the storage, the web application and the front ends are not modelled.
pub mod Prelude
pub mod Pipeline
pub mod RateLimit
pub mod Jobs
pub mod Anomaly
pub mod ResourceGuard
pub mod Settings
pub mod History
pub mod Ipc
pub mod Names
pub mod Wire
pub mod Tokens
pub mod Rules
