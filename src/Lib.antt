-- ===== src/Lib.antt =====
-- The k230-lr2021-radio service: a host talks to it over a byte stream, and it drives an LR2021
-- radio. One thread runs the serial server's `pollOnce` and the worker's `pollOnce` in turn
-- (service/src/main.cpp), so the worker's locks do not appear in the model.
--
-- Which file models what:
-- - Device: what the service calls and does not implement (the radio driver of vendor/lora_lib, the
--   clock, the GPIO, the host's stream). A run is recorded as the list of its calls, and an
--   environment `Env` answers each call from the calls before it, in any way it likes; `IsClock`
--   states what is relied on of CLOCK_MONOTONIC.
-- - Burst: service/src/burst.hpp, the packets on the air and their CRC. Burst/Headers is about
--   `decode_header`, Burst/Reassembly about `encode_packet` and the receiver that joins the packets,
--   Burst/Crc and Burst/Detection about the CRC.
-- - Worker/State: the fields of `RadioWorker` (service/src/radio_worker.hpp) and the counters of
--   service/src/stats.hpp; the record has the history of calls as one field more.
-- - Worker/Calls: what a history shows: the packets that the radio took and completed, terminals,
--   powers, frequencies, reports.
-- - Worker/Control: `applyConfig`, `startScan`, `scanTick`, `enqueueTx`, `armReceive` and `snapshot` of
--   service/src/radio_worker.cpp. Its children are about the frequency, the power and the scan.
-- - Worker/Transmit: `transmitBurst` and `serviceTxQueue`. Its children are about the wait for
--   TX_DONE, the attempts at a packet, the packet loop, and what the host is told.
-- - Worker/Thermal: `init` and `thermalTick`. Its children are about the hysteresis of the levels, the
--   queue at a cutoff, the frequency behind a recovery, and the limit of the power; Parts takes
--   `thermalTick` apart for them.
-- - Worker/Receive: the worker's `pollOnce`, with its reception loop; Fetching is about what comes out
--   of the radio, Acting about the rest of a round, Delivery about the packets that the host gets,
--   Undisturbed and Polls about what a whole poll leaves alone, Progress about the queue, Endings
--   about the end of the loop.
-- - Worker/Sleep: `sleepUs`, with the counter that it reads as a parameter.
-- - Server/Parser: the state machine of `SerialServer::pollOnce` (service/src/serial_server.cpp), byte
--   by byte, with the time at which each byte arrives. Its children go from the buffers and the idle
--   rule to commands, streams of commands, and the bounds of the buffers.
-- - Server/Frames: the frames that the server writes, and in Decoding a reader of them.
-- - Server/Handlers: the command handlers, `maybeEmitStats` and `pollOnce`. Its children are about
--   CONFIG bodies, the answers to commands, the books of the frames announced (Books, Rounds), and the
--   calls that a round's bytes make (Serves).
-- - Server/Address: the constructor of `SerialServer`, which reads its address.
-- - Server/Ipc: `writeAll` and `readByte` over the rings in shared memory. Cells, Headers and Data are
--   about the file; Fifo and Reads about a ring as a queue; Starts about empty rings and senseless
--   counts; Rounds about the loop of `pollOnce`; Wraps about the wrap-around of a count.
-- - Server/Stream: `writeAll` and `readByte` over a port or a socket.
-- - Server/Waits: `readByte` with any timeout. Deadlines is about the loop, Returns about a port or a
--   socket, Arrivals about a byte that comes over IPC meanwhile.
-- - Server/Setup: the calls with which `SerialServer::init` opens its file, its port or its socket.
-- - Server/Exchange: `pollOnce` over IPC, between the two rings. Histories and Publishing are about
--   what the handlers write, Regions about the file, Polls and Framing about a whole round.
-- - System: `main` of service/src/main.cpp and the greeting of `SerialServer::init`; Runs is about the
--   states that the superloop reaches, Drains about rounds in which the host is silent,
--   Links about the arguments, Exchanges about a round over IPC.
-- - Prelude: machine words, signed numbers, lists and tests that the others share; Tests: runs on
--   concrete inputs.
--
-- The worker calls back into the server with `on_rx_packet`, `on_tx_terminal`, `on_scan_result` and
-- `on_log`; these are calls of the history, and `writes_of` of Server/Frames gives their bytes.
--
-- A temperature is an integer number of 10^-15 degrees, in which the polynomial of the die's sensor
-- is exact; the source rounds it to a double.
--
-- Numbers: uint8_t, uint16_t and uint32_t are natural numbers with their wrap-around written out;
-- int8_t and int16_t values are integers. Times in milliseconds wrap at 2^32.
--
-- Fuel: the wait for TX_DONE has a deadline 25 ms away and sleeps 100 us a round, so 252 rounds
-- are enough. The reception loop goes on as long as packets come: its function takes a number of
-- rounds and says when the loop is not over by then. Each round makes a call, and a silent one sleeps
-- 150 us; a deadline of 32 bits is less than 2^32 ms away, so 28633115308 silent rounds are enough
-- for any state of the loop.
-- The loop of `writeAll` takes a number of calls: `k + 1` for each byte, where at most `k` answers
-- in a row are EAGAIN or EINTR. The loop that reads a ring is over when it has more rounds than
-- bytes wait, and `readByte` when it has 5 rounds for each millisecond of its timeout and one more,
-- since it sleeps 200 us a round at least. A short sleep of `sleepUs` is over when the counter, which
-- goes on once in `k` readings, was read `k` times for each tick and `k` times more. The superloop is
-- the relation `Reached`. Every other loop is a recursion on its data.
--
-- In the superloop a write is one call of the history, and what comes in is the list of the bytes that
-- a round reads. Over IPC, Server/Exchange and `superloop_ring` of System join it with the rings: the
-- bytes come out of the one, and what a round wrote is put into the other. Over a port or a socket
-- Server/Stream has the loops of a write and of a read by themselves.
--
-- Not modelled: what the calls of `SerialServer::init` do to sockets and lines, which is the operating
-- system's (Server/Setup has the calls and their order); the texts printed; vendor/lora_lib and
-- vendor/fpioa, which are other projects' code; host/sim_device.py and the scripts.
pub mod Prelude
pub mod Device
pub mod Burst
pub mod Worker
pub mod Server
pub mod System
mod Tests
