-- ===== src/Lib.antt =====
-- AWS Ops Monitor: a daemon that samples one host and a store that keeps what it samples.
--
-- Parts of the program, all under src/aws_ops_monitor, and the files that model them:
--   * models.py: Models (dataclasses and their `__post_init__`, as functions that return the value
--     or raise), Models/Snapshots (what the collectors hand over), Models/Checks.
--   * store.py: Store (the tables of the schema; `_transaction`), Store/Counters (`counter_cursors`
--     and the delta of an observation), Store/Batch (`record_batch`), Store/Retention
--     (`apply_retention`), Store/SeriesRows and Series (`series`), with SeriesTotals and
--     SeriesOrder about it. Store/History is the specification: the last observation of each
--     counter, as a function of the observations alone. Store/Recorded, Growth, Verdicts and Keys
--     are about `record_batch`, Store/Invariant and Reachable about all that the two writers can
--     reach, and the children of Store/Retention about pruning.
--   * collectors/network.py: Network/Parse (`parse_ss_listeners`), Network/Policy (the exposure
--     policy), Network/Collect (`collect`, `_path_health`); Listeners, Exposure, Expected, Texts,
--     Details, Paths and Total are about them.
--   * collectors/xray.py: Xray/Payload (`_json_items`, `_text_items`), Xray/Stats
--     (`parse_xray_stats`), Xray/Container (`_parse_container_state`, `_reset_identity`),
--     Xray/Collect (`collect`, `_failure_snapshot`); Scan, Keys, Counters, Evidence, Outcomes,
--     States and Convert are about them.
--   * collectors/host.py: Host (the readings of the system), Host/Proc and Host/Memory (the
--     parsers), Host/Collect (`collect`); Groups, Snapshot, Health, Bounds, Interfaces and Convert
--     are about them.
--   * collectors/probes.py: Probes/Handshake (`_valid_websocket_upgrade` and the `_safe_`
--     functions), Probes/Resolve (`resolve_public_addresses`), Probes/WebSocket
--     (`probe_websocket_upgrade`), Probes/Trace (`probe_warp_trace`), Probes/Collect
--     (`PathProbeCollector`); Receive, Addresses, Texts, Accepted, Health and Rounds are about
--     them.
--   * config.py: Config (the settings, and what the parsers ask of the world), Config/Names (the
--     patterns), Config/Values (the parsers), Config/Checks (`__post_init__`), Config/Environment
--     (`from_env`); Ports and Valid are about them.
--   * collector.py: Collector/Observations (`_host_observations`, `_xray_observations`),
--     Collector/Gather (the sections of `collect_once`), Collector/Round (the rest of it, and
--     `run_forever`); Conversion, HostConversion, Failures and Daemon are about them.
--   * Sampling puts the collectors and a round together.
-- The collectors hand snapshots to a round, the round builds observations of them by the
-- constructors of models.py and passes all of them to the store as one batch; the store's writers are
-- the only code that changes the tables.
--
-- State and operations. The tables are lists of rows in the order of their ids; a method of the store
-- takes the tables and gives its result, or an exception, and the tables after it, the old ones where
-- the transaction rolls back. An exception is a value of `Result`. A round takes the outcome of each
-- collector (absent, raised, or a snapshot) and a reading of each clock, and gives the database and
-- the time of the last attempt at retention. The stop event is the end of the list of rounds.
--
-- Numbers. A time that passed the constructors is a number of millionths of a second from the
-- epoch; before that it is a float, which is a number of millionths, an infinity or not a number.
-- Integers have no bound, as in Python. SQLite's end at 64 bits: `SUM` in `apply_retention` raises
-- beyond them, as here, while a rollup that grows beyond them by its conflict clause becomes a
-- rounded number there and stays exact here; the time given to `series` is bound to that. An
-- integer as a gauge raises where no float holds it. The time of a health observation, which its
-- constructor does not check, is a reading of the clock. Text is compared by code points; case,
-- white space and line ends are those of ASCII. Python's `int` raises on a text of more than 4300
-- digits, which is its default limit; a text has no lone surrogate. Bytes are texts of code points
-- below 256. Recursion is on lists and texts, but for two loops on fuel. The scan of `_text_items`
-- has one more unit than the payload has characters: each step takes at least one of them. The loop
-- over `recv` has two more than the bound on the response: each step adds a byte or is the last.
--
-- Parameters. `Codec` stands for `json.dumps` and SHA-256, `IpParser` for `ipaddress.ip_address`,
-- `show` and `digits` for Python's `str` on a value and on a number, and `World` for what config.py
-- calls: `float`, `int(text, 8)`, the encoding of a text, paths, and the file of the hashing key.
-- The `World` of Xray is `json.loads` and its digests, that of Host `float` and SHA-256, that of
-- Probes `ipaddress` and the digest of a handshake; `Reader` of Store/SeriesRows is `json.loads` and
-- `str`. What the operating system answers, the texts of /proc, the results of `docker`, `ss` and
-- `getent`, and each call on a socket, is an argument.
--
-- Not modelled: the overview and the fetches of store.py, web.py, __main__.py, aws_lightsail.py,
-- whose snapshot is an input here, the run of commands and the calls on sockets, the log, and the
-- files of the database; static, deploy and scripts are not Python code of the program.
mod Prelude
pub mod Models
pub mod Store
pub mod Network
pub mod Collector
pub mod Config
pub mod Xray
pub mod Host
pub mod Sampling
pub mod Probes
