-- ===== src/Lib.antt =====
-- radstorm: a load generator for RADIUS servers, and the listener for the requests that a server
-- sends back to it. This library models the parts of it that decide what goes over the wire and
-- what is reported, in Go under pkg/ and apps/.
--
-- pkg/radius is the protocol. A packet is built by a constructor (Radius/Constructors.antt, for
-- pkg/radius/constructors.go), which puts attributes into a list (Radius/Attribute.antt, for
-- attribute.go; Radius/Vendor.antt, for vendor.go). Encode and Decode take it to the wire and
-- back (Radius/Packet.antt, for packet.go), with the digests of Radius/Auth.antt (auth.go) and
-- the codes of Radius/Code.antt (code.go). MD5 and HMAC-MD5 are the parameter `Crypto`, with the
-- length of a digest as its only law; what crypto/rand delivers is an argument. A byte is a
-- number, a [16]byte and a []byte are lists; the wrap-around of byte and uint16 is written out.
-- Encode changes the packet, so that it returns it with the bytes or the error. The loops of
-- decodeAttributes and DecodeVSAs run on as much fuel as there are bytes, and take at least two
-- bytes in each round. Each file has its theorems in the modules below it.
--
-- pkg/subscriber is the state machine of one subscriber (Subscriber/Fsm.antt, on the data of
-- Subscriber/Fsm/Data.antt): Run sends an Access-Request and an Accounting-Request and reports
-- the outcome, while the listener calls OnCoA and OnDisconnect. What Send returns and which
-- calls arrive while Run waits in Send are arguments of `run`; other interleavings of the two
-- are not modelled. The log has the entries submitted to the collector. Subscriber/Policy.antt
-- has PolicyFromConfig, with timeoutFor of pkg/io/io.go and its use in pkg/io/sender.go, on
-- 64-bit words. Subscriber/Pool.antt has the pool of the subscribers with its indexes (pool.go)
-- and what New makes of a credential (subscriber.go). The texts that the library makes of numbers
-- and addresses are parameters. The loop of formatRecycledUsername has room for 12 digits, as its
-- array has, which is enough below 10^12.
--
-- pkg/server is the listener for CoA-Requests and Disconnect-Requests (Server/Handler.antt, for
-- pkg/server/handler.go): it decodes a datagram, checks it with pkg/radius, looks the subscriber
-- up, replies and starts the callback. The lookup is a parameter, and whether the socket takes
-- the reply is an argument.
--
-- pkg/io gives each request in flight an identifier of its own (Io/IdAlloc.antt, for the
-- idBitmap of pkg/io/idalloc.go): four words of 64 bits, read and written through their binary
-- digits. The scan of allocate takes 256 rounds, one for each identifier. Io/IdAlloc/Tuples.antt
-- is the IDAllocator, which has a bitmap for each pair of addresses.
--
-- Io/Matcher.antt is the table of the requests that wait for a reply (pkg/io/matcher.go). Each
-- section under its mutex is one function of the state, and other calls may come between those of
-- Deliver: it takes the states that its sections find, of which the third is read only where the
-- race for a request is lost. Io/Matcher/Calls.antt runs the sections of any number of callers. Time
-- is a number of nanoseconds that each call is given.
--
-- Io/Sender.antt is the loop of runSend with allocateOnAnyTuple (pkg/io/sender.go) on the
-- allocator, the table and the sockets of pkg/io/socketpool.go, and Io/Receiver.antt the dispatch
-- of the datagrams (pkg/io/receiver.go). What others do to the engine while runSend waits, and how
-- each wait ends, are arguments for each attempt. allocateOnAnyTuple tries each socket once in a
-- round; its rounds until the deadline are a list that is given.
--
-- pkg/events has the records of what happens (Events.antt, for event.go and category.go).
-- pkg/collector takes them (Collector/Submit.antt, for New, Submit, SubmitOutcome, Stop and the
-- loops runShard and runOutcome of collector.go): Submit puts an event on the channel of a
-- shard, the loop of the shard takes it, raises its counters (Collector/Observe.antt, for
-- observe of aggregate.go) and writes it. The interleavings of callers, loops and Stop are steps
-- of a relation (Collector/Submit/Steps.antt), and a panic is `none`. A call of Submit is what its
-- test of `stopped` has read and the rest, which may find a later state; its send and its count of
-- the event are one step. At the end Aggregate
-- merges the counters (Collector/Aggregate.antt) and makes the distributions
-- (Collector/Distribution.antt) and the establishment curve (Collector/Curve.antt). What float64
-- computes there is a parameter: the rank of a quantile, which grows with the quantile, and the
-- test of the drop rate. The counters are numbers without a bound.
--
-- pkg/scenario drives a run. Scenario/Lifecycle.antt has the phases (lifecycle.go),
-- Scenario/Components.antt the construction of the other packages and Scenario/Runner.antt the
-- phases of Run with shutdown (runner.go). What the packages, the network and the context answer
-- is a record World, the calls are listed in the state, and a panic of transition is a way a step
-- ends. The goroutines of the subscribers are only launched there.
--
-- apps/api keeps the runs. Api/Store.antt is MemoryStore (apps/api/internal/runs/store.go) without
-- List, and Api/Runs.antt what the handlers Create and Cancel
-- (apps/api/internal/server/handlers/runs.go) and the runner (apps/api/internal/runs/runner.go) do
-- to it, as steps in any order. At most one request to cancel a run is under way at a time.
--
-- The modules called Examples, PoolExamples and SendExamples run the theorems at concrete inputs,
-- with a checksum or a constant in the place of MD5.
--
-- Not modelled: sockets, processes and files, the scheduling of goroutines but for the
-- interleavings named above, the text of errors and of event tags, NewEngine, Start and Stop of
-- the I/O layer, the sections of the summary that Aggregate builds from the maps of each
-- subscriber, the Parquet files, the schedules of pkg/scenario, which are float64, and its
-- progress file, the configuration, the SQLite store, the other handlers of the API, and the
-- command line.
pub mod Prelude
pub mod Radius
pub mod Subscriber
pub mod Server
pub mod Io
pub mod Events
pub mod Collector
pub mod Scenario
pub mod Api
