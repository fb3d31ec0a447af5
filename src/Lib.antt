-- ===== src/Lib.antt =====
-- www-scanner: a census of which domains serve www. A corpus of domains is scanned by a pool of workers; each
-- domain is probed down a ladder (DNS, TCP, TLS, HTTP) for its apex and its www name; the outcome is a record of
-- 24 bytes, stored at the domain's position in a mapped file; reports and rechecks read the file back.
--
-- The parts, and the code that each models:
--   Record    internal/record: the record, its enums (one module each, values as numbers), the layout in bytes
--             (Codec) and the verdicts on it (Verdict).
--   Sink      internal/sink: the mapped file (Defs) and the null sink; Results is what a reader sees of either.
--   Resolve   internal/resolve: New, the servers of resolv.conf and newPool (Setup), what a DNS response says
--             (Answers), the merge of A and AAAA (Merge), the attempts of query and exchange (Client), Lookup,
--             Delegation and Exists (Lookup), the rotation of sockets (Pool), one socket shared by many queries
--             (Sockets), the calls of exchange on it with readLoop, in any order (Exchange), and WildcardLabel
--             (Wildcard). Ready puts New and query together.
--   Probe     internal/probe: errors (Transport), redirects (Walk), the ladder and Probe (Ladder), the canonical
--             direction (Classify), dialThrough and the default configuration (Dial), the HTTP clients (Client).
--             Resolved is the probe over the resolver's own answers.
--   Metrics   internal/metrics: the latency histogram, the counters of a run (Collector), Quantile and the sorted
--             counts (Summaries), Snapshot and what is printed of it (Snapshot).
--   Corpus    internal/corpus: normalize and the lines of a file (Normalize), Load, Write and Verify (Files)
--             on the files of a disk that can fail (Disk), parseRanked (Ranked), FromFile, FetchTranco and csvReader (Import), FetchTrancoList (Tranco).
--   Scan      internal/scan: RecheckIndices (Recheck), SampleIndices (Sample), Run (Pool), its reporters and its end
--             (Finish).
--   Report    internal/report: Build (Summary), what is printed of it (Print), WriteCSV (Export), Diff and
--             ConfidenceInterval (Interval).
--             Live compares Build with the counters of Metrics.
--   Runmeta   internal/runmeta: the metadata of a run, its file and its description.
--   Command   cmd/wwwscan: main and the commands corpus and probe (Main), scan up to its run (Plan) and after it
--             (Finish), report and diff (Reports), the sweep of bench (Bench) and its table (BenchRows), usage and
--             what corpus prints (Usage), the reasons of explain (Explain), lists of servers and of
--             numbers (Servers), small functions on texts (Texts); World is the machine that they run on.
--   Benchmark benchmarks/dns-sink: buildResponse (DnsSink), serve and main (Serve).
--   Prelude   numbers as Booleans, lists, bytes of a text, Go maps of counts, memory, decimal numbers,
--             os.WriteFile (WriteFile).
-- Probe asks Resolve; Scan.Pool writes the records of Probe into Sink and counts them in Metrics; Report and
-- Scan.Recheck read Sink through Results. Command.Plan loads a corpus, creates a sink and chooses the work that it
-- hands to Scan.Pool; Command.Reports binds a result file to its corpus by its length and by Runmeta.
--
-- How the code is translated. A Go integer is a native number; where a width matters the wrap-around is written
-- out (% 256, % 65536, the uint64 counter of the sockets). A text is the list of its bytes. A function that can
-- fail returns Option or Result, whose panic is a run-time panic; which system calls fail is an argument
-- (Sink.Defs.Faults). What is not in the repository is an argument: net/url (Probe.Walk.UrlLib), the answers of the
-- network (Probe.Ladder.Network, Resolve.Client.Upstream), random draws, the checksum. Of net/url one thing is
-- assumed, that the text of a URL parses again (Probe.Chain.Reparses).
--
-- Loops are structural or count down. follow runs max_hops + 1 rounds and query_in the configured attempts, as the
-- code does, and what they return when the rounds are over is what the code returns. floor_log2 has 62 rounds,
-- enough for an int64. Run is a step relation: the feeder's and the workers' moves in any order, one move for each
-- call that touches shared state; Scan.Pool.Ending bounds the number of moves and Scan.Pool.Progress shows that
-- none of its states is stuck. A probe in it may return any record that Probe can (Scan.Probed). The counter of
-- the sockets is shared: what other calls draw between two draws of one call is a function argument
-- (Resolve.Pool). The calls of a socket hold its lock and are one step each. Resolve.Exchange is a step relation
-- too: a call of exchange moves at its lock, its write, its select and its deferred unregister, and readLoop at
-- its lock and at its send.
--
-- The commands see a machine as an argument (Command.World): files, the clock, what the system refuses. A flag is
-- the value that the flag package gives it; an int flag may be negative (Prelude.Integers), and its 64 bits are never
-- exceeded. atoi reads any number of digits and tests the range of an int64. humanBytes has six rounds, which exceed an
-- int64. Floating point is a type of its own where a value is only passed on, and a function argument where it is
-- printed.
--
-- Not modelled: the values of floating point, which are parameters wherever the code computes with them; the CSV
-- quoting and JSON; a read of a file that fails midway; net/http, net and the DNS
-- library below the calls that the code makes; the parsing of flags; the socket options of the benchmark's server.
pub mod Prelude
pub mod Record
pub mod Sink
pub mod Scan
pub mod Report
pub mod Resolve
pub mod Probe
pub mod Metrics
pub mod Corpus
pub mod Runmeta
pub mod Command
pub mod Benchmark
