-- ===== src/Lib.antt =====
-- A verification library for OpenNTRIPClient, an NTRIP client: it asks a caster over TCP for a stream
-- of GNSS corrections (or for the caster's sourcetable), decodes the transfer coding, and passes the
-- corrections on to a receiver.
--
-- The parts, and where they are modelled. A session (crates/ntrip-core) is a state machine without
-- I/O: its caller gives it bytes, ticks and notices, and it answers with outputs. It builds its request
-- (request.rs) with a credential in base64 (base64.rs), reads the response's header, and passes body
-- bytes through the chunked decoder (chunked.rs) where the response says so; a sourcetable is parsed
-- from the body (sourcetable.rs). The application's worker (crates/app, workers/ntrip.rs) owns a socket
-- and a session: it carries out what the session puts out, passes corrections on through a bounded
-- queue, answers the session's requests for a position (GGA), and reconnects by a budget of attempts.
--
--   Base             shared: Boolean tests and lists over the native numbers, byte strings, bits, and
--                    the standard library's lossy reading of UTF-8
--   Ntrip/Chunked    crates/ntrip-core/src/chunked.rs. `Decoder`, `feed`, `take_line` and
--                    `parse_size_line` are the source's. Bytewise is the abstract specification, a
--                    machine that reads one byte at a time; Refine, Split, SizeLine and Framing
--                    are the theorems.
--   Ntrip/Base64     crates/ntrip-core/src/base64.rs; RoundTrip has a decoder as the specification
--   Ntrip/Config     crates/ntrip-core/src/lib.rs
--   Ntrip/Request    crates/ntrip-core/src/request.rs; Lines reads a request the way a server does
--   Ntrip/Session    crates/ntrip-core/src/session.rs. The state is the record `NtripSession`; each
--                    method takes the session and the outputs so far and returns both. The children
--                    Headers, IcyPrelude, Body and Events have `drive_header`, `consume_prelude`,
--                    `ingest_body` and the public methods; `handle_all` is any sequence of calls.
--                    Closing, ClosingBody, CloseOnce, Inert, Passthrough, HeaderLoop and EndLine
--                    are the theorems.
--   Ntrip/Sourcetable  crates/ntrip-core/src/sourcetable.rs; Kinds, Rows and RoundTrip are the
--                    theorems
--   Gnss/Crc24q      crates/gnss/src/rtcm/crc24q.rs
--   Gnss/Frame       crates/gnss/src/rtcm/frame.rs, which takes the corrections apart into RTCM frames.
--                    `Deframer` and `feed` are the source's; `Scan` is the state of its loop, and `look`
--                    its tests on the bytes at `pos`. Layout, Accounting, Held, Extend, Agreement, Split,
--                    Encoding and Delivery are the theorems.
--   Gnss/Decode      crates/gnss/src/rtcm/decode.rs: `BitReader` as a state that reads pass on, and
--                    what is decoded; Gnss/Messages has `decode` and the decoders of the message types,
--                    Gnss/Names the names of types. A length in metres is the integer of the message, in
--                    its unit: the conversion to floating point is left out, as is `lla`, of which
--                    `position_set` says whether it is there.
--   Gnss/Clock       crates/gnss/src/clock.rs, with `days_from_civil` of crates/app/src/logging.rs;
--                    Calendar and Dates are the theorems
--   App/Queue        crates/app/src/workers/mod.rs, the queue between two threads. A push, a pop and
--                    the store and the clearing of a detach are atomic steps (`Step`), and `steps` any
--                    interleaving of them; Accounting and Detach are the theorems.
--   App/Ring         crates/app/src/state.rs, the ring of log lines, and App/Plot the chart's samples
--   App/Job          crates/app/src/workers/ntrip.rs, what the worker is started with, App/Closes how it
--                    words and judges a close, App/Policy its policies on positions, the mountpoint and
--                    the traffic it reports. Positions, Mountpoint and Traffic are the theorems.
--   App/Bus          crates/app/src/bus.rs, the reports to the rest of the application
--   App/Worker       crates/app/src/workers/ntrip.rs, the worker. Gga answers a due position, Dispatch
--                    carries out the session's outputs, Drive and Loop are a connection, Supervise the
--                    attempts. Attempts, Connection, Reports, Heard, Arrivals, Budget, Retries, Stops, Permanent and Answered are
--                    the theorems.
--   App/Profiles     crates/app/src/profiles.rs, the names, and App/Profiles/Edit the operations, with
--                    the profile and the settings of settings.rs. Names, Free, Normal, Upkeep and
--                    History are the theorems.
--   Tests            runs of the definitions, and the theorems at concrete inputs
--
-- How it is modelled. A byte is a natural number, and so is an instant (milliseconds); a string is its
-- UTF-8 bytes. The chunk size keeps its overflow checks; the deframer's and the worker's counters wrap
-- around. Error messages are constructors. Where a loop of the source walks an index, the model walks
-- the rest of the input. A loop that is not structural runs on fuel: `feed` on the input's length,
-- since each round takes a byte or ends; `drive_header` and `scan_end_line` on the buffer's length
-- plus one, since each round takes a line; the deframer's loop on the buffer's length, since each
-- round takes a byte; the connection loop walks a script, whose rounds say what the socket, the clock,
-- the serial worker and the cancel flag did; the search for a free name on the number of profiles plus
-- one, since only so many names are taken.
--
-- How the parts interact. A handler takes the state and returns the state, its reports to the hub being
-- a list of calls in order. One reading of the clock serves a handler. The supervisor uses a connection
-- through the law IsConnection, which the connection loop's theorem fills. Rust's formatting of floating
-- point and its `escape_default` are parameters; a coordinate is its text or the bits of the double.
-- What another thread may do between two steps is in the sequence of steps.
--
-- Not modelled: what sockets, TLS, threads and files do, the serial worker, the reducer of the
-- application's state, the user interface and the self test (crates/app); floating-point geodesy, NMEA
-- sentences and fabricated positions (crates/gnss); the country database (crates/geodb) and its
-- generator (tools/geodb-gen).
pub mod App
pub mod Base
pub mod Gnss
pub mod Ntrip
pub mod Tests
