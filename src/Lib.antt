-- ===== src/Lib.antt =====
-- rendr: sessions over several carriers. This library models, from the Go sources, the wire codec
-- that both ends of every carrier share, the scheduler's ordering and timeout decisions, the
-- reliable control sublayer of the datagram carriers, and the receive path of a session's stream.
--
-- The program's parts. `internal/wire` encodes and decodes what a carrier transports: the PREFACE
-- that opens it, frames of a header, a payload and a CRC32C trailer, and the payloads.
-- `internal/carrier` runs the carriers (a stream or a datagram connection, the reliable control
-- sublayer, the mux trunk) and calls the codec on every byte. `internal/session` keeps a session's
-- streams and packets over its carriers. `internal/sched` ranks factories and decides when to
-- switch. The root package, `l4`, `quic` and the `carrier` packages are the interfaces above and
-- below these.
--
-- What stands where, the directory being internal/wire unless it is named:
--   Common           lists, options, bytes and bits: big-endian integers of encoding/binary, the
--                    digits of `&`, `|` and `&^`, writing at the front of a buffer, and the
--                    slots of a window with their marks
--   Wire.Const       the constants (const.go, dgram.go, detach.go, down.go)
--   Wire.Errors      the error values (errors.go)
--   Wire.FrameType   the frame type byte: Known, CarrierLevel, AllowedFlags, Wrappable, handleOK,
--                    PayloadBounds (const.go, dgram.go, frame.go)
--   Wire.Frame       headers and frames, SeqLess (frame.go)
--   Wire.Preface     PREFACE and PREFACE_ACK, feature negotiation (preface.go), IsPreface (dgram.go)
--   Wire.Payload     one child for each payload: Ack, Open, OpenAck, Join, JoinAck, Data (DATA and
--                    FIN), Rst, Sched, Ping, Reason (CLOSE, GOAWAY, DETACH, DOWN), Pack (PACK and
--                    RACK), Rel, Dgram (DGRAM, the flow header, the packet window) (payload.go,
--                    dgram.go, detach.go, down.go)
--   Wire.Window      FseqWindow, SeqWindow and their circular bitmap (window.go)
--   Sched.Insertion  the insertion sort of positions that Rank and SRTTOrder share, on the array as
--                    the loops write it (internal/sched/rank.go, formula.go)
--   Sched.Rank       Less and Rank (internal/sched/rank.go, evidence.go)
--   Sched.Lanes      srttLess and SRTTOrder (internal/sched/formula.go)
--   Sched.Evidence   Classify and NextChange (internal/sched/evidence.go)
--   Sched.Group      GroupFirst and OnePerGroup (internal/sched/group.go)
--   Sched.Race       the staggered race (internal/sched/race.go)
--   Sched.Rto        the retransmission timeout (internal/sched/rto.go)
--   Sched.Cadence    the redial cadence of a slot (internal/sched/cadence.go)
--   Carrier.Receiver the receiver: relOnRel, relAdvance, rackLocked, with relDispatch in its child
--                    Dispatch (internal/carrier/rel.go)
--   Carrier.Sender   the sender: relSealLocked, the timer, relOnRack (internal/carrier/rel.go,
--                    batch_dgram.go, dgwrite.go)
--   Carrier.Pair     a sender and a receiver with a network between them, as a step relation
--   Session.Segments the received segments, their queues, comparison and search: seg, segRing,
--                    segList (internal/session/state.go, stream.go)
--   Session.Receive  the receive path. State has the stream's fields; Place the placement: heldIn,
--                    keepRefLocked, appendCopyLocked, insertCopyLocked, mergeFollowersLocked,
--                    promoteLocked; Data recvDataLocked, copyPiecesLocked, shedLocked,
--                    consumeAllLocked (internal/session/recv.go); Reading the Read of the
--                    application (internal/session/app.go); the other children what they keep
--   Examples         the runs at concrete values
--
-- How the code is modelled. A byte slice is a list of natural numbers; that they are below 256 is
-- a hypothesis where it matters. A field of w bits is a natural number, and a theorem that needs
-- it assumes it below 2 ^ w. Reading past the end of a slice, which the code never does behind its
-- length checks, gives 0. A function `PutX` that panics on a bad argument or on a small buffer
-- returns an Option: `none` is the panic, and `some (n, d)` is the count it returns and the buffer
-- it leaves. What PutX writes is named `layout_x`. A parser returns a `Decoded` value, which is the
-- value or the error; the two preface parsers return an `Answer`, since ErrFeature comes with the
-- value. Their checks stand in the order of the source, in functions named `check_x`, and the
-- fields they read in functions named `read_x`. An `int` argument that may be negative is a ℤ. All
-- loops are structural recursion on a list or a count that is in the source, but for that of
-- clearRing, which runs on fuel: the number of bits to clear, since every round clears one at
-- least. A time.Duration is a ℤ, or a ℕ where no caller passes a negative one, and a sum or a
-- shift of durations is cut to 64 bits as the machine does.
--
-- relOnRel's loop runs on fuel too: 8, the size of the window, which is enough for every frame
-- held behind a REL. relOnRel takes what a REL is dispatched to as a parameter, and relDispatch
-- takes the trunk and the session as the interface Upper. A time there is a number of nanoseconds,
-- and the carrier's timeout is an argument. Locks and the writer's wake have no model: a step is
-- what happens under the lock, and the wake is a result. In Carrier.Pair the messages to send are
-- a function of their number, and what was written may arrive at any later time, any number of
-- times or never.
--
-- In Session.Receive a queue of segments is a list from its front, so that the ring's storage and
-- the bytes behind a slice have no counterpart, and releasing a buffer is taking its capacity off
-- the receive charge. The loops over a frame's bytes run on fuel: the number of these bytes, since
-- every round places one or passes a held segment; that of the binary search has the number of
-- segments. Offsets are 64-bit: the sum that a peer chooses wraps and is checked, and every other
-- offset is at most the right edge. The receive limit and the mode are arguments, and calls into
-- the rest of the session are signals of the result. In Sched.Cadence the float product with the
-- jitter is a parameter of which nothing is assumed.
--
-- A parameter stands for hash/crc32: Wire.Checksum has a function of the bytes into 32 bits, and
-- nothing more is assumed of it.
--
-- Not modelled: Type.String and the error texts, the incremental CRCUpdate; of internal/sched the
-- selector, the aggregation of samples and the formulas over float64; of
-- internal/carrier all but the sublayer, and of relOnRack the retirements that it may finish; of
-- internal/session all but the receive path of a stream, and of that path early DATA before the
-- verdict and a Read that Close or the session's end overtakes; and all of the other packages: the
-- datagram transports, the root package and the test helpers. They keep clocks, locks, goroutines
-- and sockets around the code that is modelled.
pub mod Common
pub mod Wire
pub mod Sched
pub mod Carrier
pub mod Session
pub mod Examples
