-- ===== src/Lib.antt =====
-- NTP server exporter: a model of the passive capture in Go (exporter/), and what it does.
--
-- The exporter reads Ethernet frames from the network, parses those that carry NTP, and aggregates
-- them into Prometheus metrics: requests by country, ASN, version and family, requests that were
-- never answered, response latencies, active clients, and distinct clients per day.
--
-- Base holds what the components share: slices as lists with native indices, Go's maps as lists of
-- entries in the order of a `range` (Base/GoMap), maps of counters (Base/Counters), comparable
-- types (Base/Comparable), and runs that may panic (Base/Panic).
--
-- Frame models exporter/internal/ntpframe/frame.go: `ParseNTPFrame` is parse_ntp_frame, in the
-- steps ethernet, network, transport and application. Every index and slice of the frame is
-- checked, and one out of range is the outcome `fault` (Frame/Access). `IP.String` and `ParseIP`
-- are parameters. Frame/Safety is about arbitrary bytes, Frame/Encode about frames built from
-- their fields (Frame/Wire).
--
-- Bpf models `BuildNTPBPF` of the same file: the program as data. The kernel's machine is a
-- parameter, with what its documentation says of each instruction (Bpf/Machine). Bpf/Meaning is
-- about what the program computes, Bpf/Passes about the program and the parser.
--
-- Hll models exporter/internal/hll/hll.go: `New`, `Add`, `Merge`, `Count` and `Clone` are new,
-- add, merge, count and clone. SHA-1 and the operations on floats are parameters. Hll/Bounds is
-- about one sketch and its registers, Hll/Sets about sketches of sets of keys.
--
-- Aggregate models exporter/internal/aggregate/aggregate.go and asn.go. `New` is new, the sketch
-- of the current hour is in Aggregate/Hours, `HandleFrame` is handle_frame of Aggregate/Handle,
-- the ASN functions are in Aggregate/Asn, and `Flush` is flush of Aggregate/Flush. Each call is
-- one step on the collector's state; its result lists the calls on the metrics, in their order.
-- What the resolver, the clocks and the reader of kernel drops answer during a call is an argument
-- of it, so the theorems hold for all answers. `sort.Slice` is a parameter that gives the same
-- elements back, sorted if the comparison is a strict weak order (Aggregate/Ranking). Of the
-- theorems' modules, Valid states the invariant, Rotate is about the hours, Keeps, Invariant and
-- Handled are about one call of `HandleFrame`, Pending and Latency about a request and its
-- response, Flush/Ledger, Flush/Steps and Flush/Total about the requests counted and published,
-- and Flush/Countries about one country, Flush/Drops about the kernel's drops.
--
-- In Aggregate/Handle and Aggregate/Flush a call is atomic. Aggregate/Threads has the same calls
-- as goroutines, which interleave between their critical sections and atomic operations:
-- Threads/Settled, Threads/Places and Threads/Steps are about one step, Threads/Conserved about
-- all interleavings, and Threads/Alone, Threads/AloneFrame, Threads/AloneFlush and
-- Threads/Uninterrupted about a call that no other one interrupts. What the clocks, the resolver
-- and the drop reader answer is chosen when a call begins. Aggregate/Accessors has what the tests
-- ask.
--
-- Capture models exporter/internal/capture: the cache of the host's addresses (localips.go) in
-- Capture/LocalAddresses, `ShouldAccept` and `ProcessFrame` (filter.go) in Capture/Filter, and of
-- manager.go `ClampWorkers` and the loop of `RunWorker` in Capture/Worker, and the sockets, from
-- `Open` to `Close`, in Capture/Sockets. Of exporter/cmd/exporter/main.go, `runCapture` is in
-- Capture/Sessions and `flushForever` in Capture/Ticks, as a sequence of ticks with the calls of
-- `HandleFrame` between them. The goroutines of `Run` are in Capture/Running. Capture/Backoff is
-- about the sleeps and reopenings of a worker, Capture/Owned and Capture/Leaks about the sockets
-- that are open. In Capture/Loops the loops of all workers run at the same time, with the stop
-- channel and the sockets that they share; Capture/Agreement, Capture/Reading and Capture/Ending
-- are about them. `ProcessFrame` joins the parser, the addresses and the collector;
-- Capture/Frames follows a frame from its bytes to the counters.
--
-- Main models the start of exporter/cmd/exporter/main.go: the configuration from the environment,
-- and the collector and the capture that `main` starts with it. Main/Started is about the
-- capture and the collector together.
--
-- Metrics models exporter/internal/metrics/metrics.go: the declarations, what is registered and what
-- is there from the start. Metrics/Calls has the metric and the label values of each call of the
-- collector, the poller and the resolver; Metrics/Fitting, Metrics/Keys, Metrics/Events and
-- Metrics/Runs are about which labels get there, and Metrics/Totals is about the sums of the
-- counters.
--
-- Geo models exporter/internal/geoip/geoip.go: `Resolve` is resolve, in the parts that the code
-- runs under its lock (check_files, resolve_uncached) and between them. The databases, the files
-- and the cache are parameters; Geo/Cache has what the cache promises. Geo/Coherent and
-- Geo/Invisible are about calls one after the other, Geo/Concurrent about calls at the same time.
-- `adapt` is the adapter in main.go through which the collector gets a result.
--
-- Pool models exporter/internal/ntppool/ntppool.go: `Parse` and `ParseOverallScore` are in
-- Pool/Scores, `PollOnce` is in Pool/Poll. The answers of the server, the JSON decoder and the
-- floating-point numbers are parameters. Pool/Newest and Pool/Latest are about the entries of the
-- history, Pool/Outcomes about errors. `RunForever` repeats `PollOnce` without an end.
--
-- Load models scripts/ntp-load/main.go, the load generator: the packets in Load/Packet, the two
-- loops of each worker in Load/Worker as events that interleave in any order, the same loops of one
-- worker with the channels `stop` and `done`, the batches and the failed reads in Load/Channels, the
-- pacing of the sends in Load/Pace, the start of `run` in Load/Setup, and its result in
-- Load/Report. Package net, the floating-point operations and which slices `make` refuses are
-- parameters. Load/Cookies joins the generator to the parser of the exporter; Load/Balance,
-- Load/Accounts and Load/Conserved are about runs of the loops, Load/Halting and Load/Stopping
-- about their end, Load/Ordered about the result, Load/Began about the start. Load/Conserved is for runs of fewer
-- than 2 ^ 48 events, which at a million a second takes nine years.
--
-- The loop over the hours has fuel 24: it is enough, since the distance of two hours of the day is
-- below 24; running out would be a panic, which the theorems exclude. The decimal digits of an ASN
-- have fuel 20, enough for 64 bits. Counters and instants are unbounded: an int64 counter would
-- wrap after 2 ^ 63 packets, and int64 nanoseconds are not exceeded before the year 2262.
--
-- Not modelled: the rest of the main program (the HTTP server, the signals), and the
-- registry of package prometheus with what it exposes.
pub mod Base
pub mod Frame
pub mod Hll
pub mod Aggregate
pub mod Capture
pub mod Pool
pub mod Load
pub mod Geo
pub mod Bpf
pub mod Main
pub mod Metrics
pub mod Tests
