-- ===== src/Lib.antt =====
-- maestro-llamacpp: a router that starts llama-server processes, one for each catalog entry, and
-- keeps what is loaded within a memory budget.
--
-- A request names a catalog entry. The router serves it from a child that runs already, or holds
-- the admission lock, looks at every slot, asks `Budget::admit` who has to go, unloads those, and
-- starts a child. A reaper sweeps children that have exited or gone idle.
--
-- The files, and the code that each is about:
--   Common           lists, options, maps, bytes, Boolean tests, sums, sorting, text and machine words
--   Memory           src/memory.rs, src/memory/parse.rs: measurements, probes and what they read
--   Catalog          src/catalog.rs, src/catalog/path.rs: entries, the catalog, locations
--   Catalog/Field    src/catalog/field.rs: the fields of a TOML table
--   Catalog/Read     src/catalog/read.rs: a TOML table as defaults, entries and problems
--   Catalog/Disk     what the catalog asks of a disk: directories, sizes and headers
--   Catalog/Discover  src/catalog/discover.rs, src/catalog/discover/name.rs: the entries of the files
--                    under a root, and their names
--   Catalog/Capability  src/catalog/capability.rs: what an entry does and what it accepts
--   Catalog/Estimate  src/catalog/estimate.rs; Cache and Served: src/catalog/estimate/
--   Catalog/Resolve  src/catalog/resolve.rs: a catalog against its root
--   Gguf             src/gguf.rs, src/gguf/bytes.rs: the walk of a header. Reader is the file and its
--                    bytes; Writing is a header written, which Reads, Arrays and RoundTrip read back
--   Admission        src/admission.rs and src/admission/: Subject, Room, Admit and Budget hold the
--                    definitions; the other files hold what is proved of them
--   Queue, Idle      src/queue.rs, src/idle.rs: the wait for room and the idle window
--   Launch/Invocation  src/launch/invocation.rs: the command line of a child
--   Launch           src/launch.rs, src/launch/binary.rs: failures, and where the binary is
--   Launch/Server    src/launch/server.rs: the start of a child, its polls and its retry
--   Proxy/Child      src/proxy/loaded.rs: one slot and what is done to it
--   Proxy/Slots      src/proxy/slots/: all the slots; MakeRoom is the loop that waits for room
--   Proxy/Pool       the abstract pool of loaded models, which the slots refine
--   Proxy/Refusal    src/proxy/refusal.rs: causes, statuses, and the refusal of a failure
--   Proxy/Endpoint   src/proxy/endpoint.rs: which endpoint a path addresses
--   Proxy/Head       src/proxy/head.rs, src/proxy/head/read.rs: a request's head, read within bounds,
--                    parsed, and rewritten for the child
--   Proxy/Body       src/proxy/body.rs: the declared body and the model it names
--   Proxy/Relay      src/proxy/relay.rs: the request sent to a child and its response copied back
--   Proxy/Answer     src/proxy/answer.rs: the checks of a request in their order; Asking, Counting,
--                    Relayed and Replies hold what is proved of them
--   Proxy/Answer/Own  src/proxy/answer/own.rs: the models offered to a llama.cpp client
--   Proxy/Reply      src/proxy/reply.rs: the bytes of the router's own replies
--   Bench            src/bench.rs, src/bench/rate.rs: what is measured and recommended; Report is
--                    the date in src/bench/report.rs
--   Proxy/Interleaving  the steps of requests, readers, sweeps and stops over the slots
--
-- How the state corresponds: text is a list of code points. A u64 or u32 is a natural number whose
-- wrap-around is written out (`add_u64`, `sum_u64`); the u128 of the estimates is wrapped likewise
-- (`add_u128`, `mul_u128`). Times are milliseconds. `Slots` is a function from an identifier to
-- its slot. An `Arc<Child>` is the child's number, and the state keeps the list of handles alive
-- outside the slots, so that a strong count is one more than the number's occurrences there. A
-- step of `Proxy/Interleaving` is what one thread does under one slot's lock. A request's answer
-- is the list of what is done for it. What the operating system says (whether a process has
-- exited, what the device has free, what a child measures) is a parameter of the step; so are the
-- decoding of UTF-8, the parsing of JSON and the values of TOML, the files and directories of a
-- disk, and what each poll of a starting child finds.
--
-- Fuel: the loop of `make_room` runs over the passes that the schedule offers it; it is shown to
-- answer once they fill the wait. The reader of a head runs on 102 turns, which are shown to be
-- enough: every turn that goes on keeps a line, and there are at most 100. The walk of a directory
-- goes down 17 levels, MAX_DEPTH and the root, as the code does; the walk of a header follows the
-- counts that it states, within its bounds. The loop over the years of a date has one turn for
-- every 365 days, which is enough since no year is shorter. The polls of a starting child are a
-- list, long enough once it goes past the time that the entry is given.
--
-- Not modelled: sockets, threads and processes; the parsing of TOML and JSON, which other crates do;
-- the requests of the bench and their timing, in floating point;
-- the printing of the commands and the JSON of listings; the timer of the reaper and the residents'
-- thread, which call modelled operations; the health probe and the models root; the stub server of
-- the tests.
pub mod Common
pub mod Memory
pub mod Catalog
pub mod Admission
pub mod Queue
pub mod Idle
pub mod Gguf
pub mod Launch
pub mod Proxy
pub mod Bench
