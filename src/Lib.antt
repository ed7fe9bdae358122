-- ===== src/Lib.antt =====
-- Codex Network Guard: a verification library for the Rust workspace of the repository. The guard
-- is a daemon that offers Codex a fixed local proxy (the relay), finds the proxies of the user's
-- VPN (discovery), probes them (health), forwards each connection through the best one, and tells
-- the user what is wrong when none works (diagnostics).
--
-- The parts and their files:
--
--   Base: texts as lists of code points with the operations of Rust's str that the program uses
--     (lines, split_whitespace, trim, split_once, replace and others), UTF-8, a stable sort, and
--     anyhow's Result.
--   Url: the url crate as a record of functions, and the laws of its setters that redaction
--     relies on.
--   Model (crates/cng-core/src/model.rs): Candidate for UpstreamCandidate, Health for
--     CandidateHealth and sort_candidates; Order, Made and Redaction hold the theorems.
--   Config (crates/cng-core/src/config.rs): GuardConfig and its defaults; Files for
--     write_private, save and load_or_create, and Files/Saving for the theorem.
--   Diagnostics (crates/cng-core/src/diagnostics.rs): classify_error_text, Guidance for
--     guidance_for, Logs for latest_codex_diagnostic; Guidance/Actions, Logs/Order and
--     Logs/Latest hold the theorems.
--   Proxy (crates/cng-core/src/proxy.rs): Header for read_http_header, Errors for redact_error
--     and write_proxy_error, Tunnel for connect_tunnel and http_connect, Runtime for
--     ProxyRuntime, Connect for connect_for_runtime, Rewrite for rewrite_plain_http_header,
--     Client for handle_client, Health for check_candidate and refresh_health; their child
--     modules hold the theorems (Connect/Routes for which candidate is taken, Connect/Allowed for
--     what is never dialled, Tunnel/Opened for when a tunnel is opened).
--   Discovery (crates/cng-core/src/discovery.rs): add_url, deduplicate, the environment and the
--     loopback ports; System for the operating system's settings and PAC files, Search for
--     discover and save_manual_upstream; Distinct, Offers, Found and Secrets hold the theorems.
--   Rpc (crates/cng-core/src/rpc.rs): the messages, process_line, serve_stream and call_stream,
--     over a record of functions for serde_json; Calls holds the theorems and the laws that they
--     assume.
--   Daemon (crates/cngd/src/main.rs): AppState with status, save_config, refresh_once and
--     ensure_remote_started; Requests for handle, Keepalive for a round of run_remote_keepalive,
--     Logs for prune_logs, Steps for the step relation over requests, refreshes and rounds;
--     Coherence and Always, Reports, Route, Keepalive/Backoff and Logs/Pruned hold the theorems.
--   Daemon/Settings (crates/cngd/src/main.rs): in Settings/Refined related to every request, an
--     abstract machine of the settings that a user thinks of: the pause, where the upstream comes
--     from, the keepalive.
--   Service (crates/cng-core/src/service.rs): the two escapes, the terminal block; Environment
--     for CODEX_CLI_PATH and the state file; Quoting, Markup and Terminal hold the theorems.
--   Service/Machine (crates/cng-core/src/service.rs): what the installation touches as the record
--     Computer, the calls of the operating system that it makes as the type Call, and the world
--     outside, which says of each call whether it can be made, of each command whether it
--     succeeds, and of each round whether the daemon answers. A step is a function from a
--     computer to a result and a computer, so that a step which fails leaves what it has done.
--   Service/Macos, Service/Windows, Service/Migration, Service/Profile
--     (crates/cng-core/src/service.rs): status, install, uninstall and restart with the functions
--     that they call, call by call and in the order of the source, migrate_legacy,
--     enable_terminal_path and disable_terminal_path.
--   Service/Keeps, Service/Custody, Service/Always, Service/Later: the rules for what a step
--     keeps, the place of the user's own value, and the theorem on all uses of the commands in
--     any order; Service/Macos/Ending holds how an installation ends, Service/Profile/RoundTrip
--     what the terminal integration leaves, Service/Migration/Copies and Safe what the migration
--     touches.
--   Codex (crates/cng-core/src/codex.rs): find_real_codex and merged_no_proxy, Wrapper for
--     wrapped_command, Wrapper/Jobs for the functions that run or start Codex, with the list of
--     the commands that they started, and for crates/cng-codex/src/main.rs; Found, Entries,
--     Wrapper/Seen and Wrapper/Jobs/Shielded hold the theorems.
--   Front (crates/cng/src/main.rs and apps/desktop/src-tauri/src/main.rs): a session of a user,
--     with the daemon, the computer, what is printed and the reports that are written; Cli for
--     the commands of cng and its exit code, Report for print_status, Desktop for the commands of
--     the window and the menu; Service/Platforms for the functions of service.rs by platform.
--     Intents says what a command means, Stays and Clients hold the rules, Typed, Actions,
--     Clicked and Performed the theorems. A call of the daemon is Daemon/Requests.handle, unless
--     the daemon is not reached, and its answer may be lost.
--   Sample and Examples modules: one per part, where the theorems are applied in small worlds.
--
-- How state and time are modelled: a socket is the list of results that its reads give, what was
-- written to it, and the error that a write meets. The relay's shared state is the record
-- ProxyRuntime; a connection reads it at three moments (when it begins, when it lists the
-- candidates, when it asks for the direct fallback), and the theorems hold for any three states, so
-- for every interleaving with the daemon. A timeout is a Boolean of the world outside. Numbers are
-- natural numbers, and the u32 counter of failures saturates as in the source. The only definition
-- that runs on fuel is the printing of a decimal number, whose fuel is the number plus one; every
-- other loop is structural in a list, or in the number of rounds that the source gives it. A
-- request, a refresh and a round of the keepalive loop are each one atomic step of the daemon:
-- overlapping requests are not modelled.
--
-- Not modelled: sockets, TLS, SOCKS5, base64, percent decoding, regular expressions, JSON and TOML
-- are parameters, and so are the parsing of arguments and what the programs that are run do. The
-- accept loops, the tray icon and the window's page, packaging and tests are left out, since they
-- call what is modelled.
--
-- In the installation a call that fails changes nothing, but for a failing write of the shell
-- profile, which may leave a part of it. The world of a command does not change while it runs, but
-- for the rounds in which the daemon is asked. A state file that cannot be read is one that saved
-- nothing, as in the source.
pub mod Base
pub mod Url
pub mod Model
pub mod Config
pub mod Discovery
pub mod Diagnostics
pub mod Proxy
pub mod Rpc
pub mod Daemon
pub mod Service
pub mod Codex
pub mod Front
