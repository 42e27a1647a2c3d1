-- ===== src/Lib.antt =====
-- puic is QUIC without SPDY: a fork of Chromium's QUIC core (puicbase/net/quic/core) with its own
-- sessions and dispatcher (puicbase/puic), libuv front ends (puicclient, puicserver) and the proxy and
-- agent programs built on them (puicproxy, puicagent). Packets are read and written field by field;
-- flow control bounds what each side may send. This library models those parts as pure functions over
-- records of their state; what a method sends is returned as a list of events.
--
-- Files and the code they are about:
--   Prelude, Prelude/*   shared names, Boolean tests, lists over native numbers, 64-bit sums.
--   Wire/Bytes, Wire/Memory   byte order and memcpy: puicbase/base/sys_byteorder.h on a
--     little-endian host (ByteSwap is byte_swap), buffers as lists of bytes.
--   Wire/Writer, Wire/Writer/Append   puicbase/net/quic/core/quic_data_writer.{h,cc}.
--   Wire/Reader, Wire/Reader/Consume   puicbase/net/quic/core/quic_data_reader.{h,cc}.
--   Wire/Ufloat, Wire/Ufloat/*   the 16-bit floats of WriteUFloat16 and ReadUFloat16.
--   Wire/Fields, Wire/Fields/*   one constructor for each kind of field, with its write, its read and
--     an encoding that is described apart from both.
--   Wire/SessionId   ReadPuicSessionId of puicbase/puic/puic_session_base.cc.
--   Flow, Flow/*   puicbase/net/quic/core/quic_flow_controller.{h,cc}.
--   Udp, Udp/*   the pool of send requests of PuicListener (puicserver/src/puic_server.cc) and
--     PuicDialer (puicclient/src/puic_client.cc); Udp/World adds what libuv holds, with steps.
--   Ack, Ack/*   PacketNumberQueue of puicbase/net/quic/core/frames/quic_ack_frame.{h,cc}.
--   Unacked, Unacked/*   puicbase/net/quic/core/quic_unacked_packet_map.{h,cc}: Unacked/Changes has the
--     methods that change the map; Unacked/Links its links from a packet to its retransmission.
--   Loss, Loss/*   puicbase/net/quic/core/congestion_control/general_loss_algorithm.{h,cc}.
--   Prr, Prr/*   puicbase/net/quic/core/congestion_control/prr_sender.{h,cc}.
--   SlowStart, SlowStart/*   puicbase/net/quic/core/congestion_control/hybrid_slow_start.{h,cc}.
--   Indexed, Indexed/*   puicbase/net/quic/core/packet_number_indexed_queue.h.
--   Dialer, Dialer/*   the connections of PuicDialer, puicclient/src/puic_client.{h,cc}: Dialer/Sound what
--     fits together, Dialer/Stopping how it ends, Dialer/Lives what may happen.
--   Sequencer, Sequencer/*   puicbase/net/quic/core/quic_stream_sequencer_buffer.{h,cc}:
--     Sequencer/Write has what happens when data comes, Sequencer/Read what happens when it is read.
--   Reading, Reading/*       puicbase/net/quic/core/quic_stream_sequencer.{h,cc}: the end of the stream,
--     flow control and notification above that buffer.
--   Credit, Credit/*         puicbase/net/quic/core/quic_stream.cc: what a stream tells the flow
--     controllers of itself and of its connection (Flow).
--   Session, Session/*   the streams of QuicSession (puicbase/net/quic/core/quic_session.cc), PuicSessionBase
--     and PuicStream (puicbase/puic): Session/Taken says what a well-formed session is, Session/Frames what
--     a frame does, Session/Life what may happen, Session/Unwanted what becomes of a stream beside the
--     preset one.
--   Dispatch, Dispatch/*   who may write: PuicPerSessionWriter (puicbase/puic), the write-blocked list of
--     QuicDispatcher (puicbase/net/tools/quic) and QuicConnection's part in it, on top of Udp/World.
--   Server, Server/*   the life of PuicServerConn, puicserver/src/puic_server.cc.
--   Proxy, Proxy/*   ProxyJob and TCPConn of puicproxy/src/puic_proxy.cc with the calls of
--     puicserver/src/puic_server_lib.cc: Proxy/Handlers has the callbacks, Proxy/World what may happen.
--   */Examples   runs at concrete inputs.
-- A method keeps its name in snake case: QuicFlowController::AddBytesConsumed is add_bytes_consumed.
--
-- Bounds and fuel: sizes are `size_t` of 64 bits, and sums and differences that the source does not
-- guard are taken modulo 2 ^ 64. Flow control counts are assumed below 2 ^ 62, so that no sum of two
-- wraps. The loops modelled here recur on lists or on a fixed number of rounds. Some take fuel: the
-- loops that copy between the blocks of the sequencer buffer, as much as there are bytes to copy, since a
-- round copies one at least; the turns of OnCanWrite, as many as sessions wait; the identifiers that a
-- new stream of the peer skips, as many rounds as its identifier; and the walk along links of
-- RemoveRetransmittability: as many steps as there are records are enough, since each link leads forward.
--
-- Not modelled: cryptography, the framer, the connection but for its part in Dispatch, the congestion
-- senders, the packet managers, the writing side of a stream, the agent, generated protobuf code, third-party code
-- (BoringSSL, libuv, argtable, spdlog, zlib), logging and DCHECKs. Floating-point products, the clock
-- and the round-trip time are inputs of the definitions that use them.
pub mod Prelude
pub mod Wire
pub mod Flow
pub mod Udp
pub mod Ack
pub mod Unacked
pub mod Loss
pub mod Prr
pub mod SlowStart
pub mod Proxy
pub mod Sequencer
pub mod Reading
pub mod Credit
pub mod Server
pub mod Session
pub mod Indexed
pub mod Dialer
pub mod Dispatch
