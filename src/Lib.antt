-- ===== src/Lib.antt =====
-- overwatchd, the traffic daemon of luci-app-overwatch (src/*.rs), as functions and their
-- theorems.
--
-- Every few seconds the daemon reads the kernel's table of connections, charges each connection to
-- a client of the local network, updates the clients' totals and rates, shows them as a snapshot,
-- records a sample per client in memory and hands finished minutes to a database. A second thread
-- counts DNS queries from captured packets, and a control socket answers with clients, histories
-- and summaries.
--
-- Flow (src/flow.rs, src/conntrack.rs) reads a line of the connection table into a `Flow` with its
-- key. Classify (src/classify.rs) decides by the configured prefixes which end is a client.
-- Account (src/account.rs) is `Accountant`: `update` is the loop over a scan's flows, with the
-- loop's variables in the record `Scan`. Names (src/names.rs) holds the names of clients, and
-- Snapshot (src/snapshot.rs) joins both into `ClientView`s, the busiest first. Ring (src/ring.rs),
-- Sample (src/sample.rs) and Recorder (src/recorder.rs) keep the series: `record_tick` is
-- `Recorder::record`. Downsample (src/downsample.rs) and History (src/history.rs) make chart
-- series of them. Db (src/db.rs) is the database's tables, with every statement that changes them
-- as its SQL has it, and Db.Query the statements that read them; its `store_of` fills the
-- interface `Store` of History with them. Api (src/api.rs) and Probe (src/probe.rs) are the
-- answers, Config (src/config.rs) is the settings.
--
-- Dns.Parse (src/dns_parse.rs) finds the first question of a packet. The rest of Dns is
-- src/dns_capture.rs: Dns.Capture counts, Dns.Socket opens and drains the sockets, and Dns.Loop is
-- `run` with its flush into the database, which may refuse it. Control (src/control.rs) is `dispatch` over what the
-- threads share, and Server (src/server.rs) is `handle_conn`, from the bytes of a client to the
-- answer. Main (src/main.rs) is the start and the rounds of the loop; `share` is the block that it
-- runs under the lock. Main.Reached is the daemon with both loops: a step is a round of either, in
-- any order, and what they share is the database. Each round is one step, since each holds the lock
-- for all that it does to the database.
--
-- Base holds what they share: machine words, `i64`, association lists for hash maps, texts as lists
-- of Unicode scalar values with the functions of the standard library that the sources call, and
-- `Outcome`, in which a panic and an endless loop are results.
--
-- Numbers: `u32` and `u64` are natural numbers with their wrap-around written out, as a release
-- build has it; `i64` is `Base.Int`; `f64` is the parameter `F64`, and what a theorem needs of it
-- is stated there. `Base.Ratio` is an instance with exact fractions and `Base.Whole` one with whole
-- numbers. A hash map is an association list, whose order stands for any order of iteration.
--
-- Parameters, for code that is not of this repository: the hash function of flow keys, the Unicode
-- lower case, `f64`, `Json` (what serde_json parses, with the accessors that are called) and the
-- text it prints, the cause of an error of SQLite, whether SQLite takes the counts of a flush
-- (`commits` of a `Poll`), and `Libc` (what the system calls on sockets answer with).
--
-- Fuel: only the loop over the labels of a DNS name has it. It gets six times the length of the
-- message plus one. A round moves forward in the message or makes one of at most five jumps, so
-- that this many rounds are never used up. All other loops go over lists or bounded ranges. The
-- rounds of the two endless loops go over the list of what they read.
--
-- Not modelled: opening the database file, and the errors of the file system in it, other than a
-- refused flush of DNS counts (an error that the rows bring about, an overflow of a sum, is
-- modelled); the value of a count that has left the range of an `i64` and become a floating-point
-- number; binding, permissions and threads of the control socket in `serve`; reading files and the
-- clock, whose results a round gets; printing and sleeping. These are calls of the system without
-- logic of the daemon. The web interface and the packaging under openwrt/ are not in Rust.
pub mod Base
pub mod Ring
pub mod Sample
pub mod Downsample
pub mod Names
pub mod Snapshot
pub mod Probe
pub mod Api
pub mod Recorder
pub mod History
pub mod Flow
pub mod Classify
pub mod Config
pub mod Db
pub mod Control
pub mod Server
pub mod Dns
pub mod Account
pub mod Main
