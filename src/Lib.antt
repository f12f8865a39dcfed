-- ===== src/Lib.antt =====
-- A verification library for ae_proxy ("Yet Another Smart Proxy"), a C++ proxy over libuv.
--
-- The program is an asynchronous event library (ae/), small data structures (base/) and the proxy
-- itself (app/). Bytes arrive at a connection, are collected in a packet buffer and are cut into
-- frames; a trie holds domain rules; a wheel of timer slots drops idle connections; a log writer
-- filters messages. Other threads post callbacks to the event loop.
--
-- Files and what they model:
-- - PacketBuffer: the virtual methods of ae/packet_buffer.h as a record, and their contract over
--   the bytes held. ListBuffer: ae/list_buffer.cpp, the implementation, with its loops.
-- - Packet (Number, Frame, Reader and its children): ae/packet.h and ae/packet.cpp. `pack`,
--   `swap`, `get_data`, `pack_num`, `unpack_num` keep their names; `read_from_buffer` is a loop of
--   rounds over any packet buffer. The static members HeadByte, EndByte and Mode are the record
--   `Framing`.
-- - GlobalConfig (Receiving, Stream): ae/global_config.cpp, and the methods of ae/packet_buffer.h
--   that call the functions set there. A receiver that appends pieces and reads packets stands for
--   the program's.
-- - Trie (InRange, Lookup, Shape, Deletion, Freeing, Search): base/trie.hpp. A pointer is `null`
--   or a node; an operation that indexes the array of 128 children with another byte is `none`.
--   InRange has the same recursions without the check, for keys of bytes below 128.
-- - TimerWheel (Slots, Ready, Tracks, Window, Misuse): ae/timer_wheel.h. A shared pointer is the
--   number of its object; an index outside the vector is `none`.
-- - LogWriter (Filter, Hex): ae/log_writer.h and ae/log_writer.cpp. Written records are values.
--   Logger: `hex_print` of base/logger.h.
-- - EventLoop (Trace, Queue, Steps, Delivery, Lifetime): ae/event_loop.cpp and ae/async_task.cpp.
--   What libuv and the other threads do is a list of events; the callbacks are numbers and their
--   fate is a trace. EventLoop.Default: which loop the objects of the program use.
-- - SocketAddr (Decimal, Text, Structure): ae/socket_addr.cpp. Texts are lists of bytes;
--   `std::to_string` is written out; `inet_ntop`, `uv_ip4_addr` and `uv_ip6_addr` are parameters.
-- - Timer, UdpSocket (Sending): ae/timer.cpp and ae/udp_socket.cpp, over a libuv handle.
-- - Msgpack (Folding): the loop over the objects of a buffer in both proxies;
--   `msgpack_unpack_next` is a parameter.
-- - UdpProxy (Unpacking, Key, Session, Running): app/udp_proxy.cpp and app/udp_agent.cpp. The map
--   of sessions is an association list.
-- - TcpConnection (Writing): ae/tcp_connection.cpp. What libuv answers is an argument; what an
--   operation calls is a list of effects. TcpConnection.Reading (Served, Framed): the reading
--   side, with the packet buffer and a program that reads packets from it.
-- - TcpClient (Reporting): ae/tcp_client.cpp, over TcpConnection. TcpClient.Stages
--   (Answers, Promised, Early): what the client promises its program, as a machine without handles.
-- - TcpServer (Table, Closing, Narrowing, Owning): the connection map of ae/tcp_server.cpp, over
--   TcpConnection; what peers, libuv and the program do are events. TcpServer.Phases (Steps, Runs,
--   Counting): what the server promises of each name, without handles. TcpServer.Posting
--   (Answering): the writes that are posted to the loop. TcpServer.Timed (Expiry, Ticks, Heard,
--   Watched, Given, Accepted, Ticked, Steps, Idle, Silence): the same server with its timer wheel,
--   whose slots hold the `ConnectionWrapper`s of ae/tcp_connection.h.
-- - TcpAcceptor: ae/tcp_acceptor.cpp. TcpServer.Listening (Shutdown): `listen` and
--   `close` of ae/tcp_server.cpp, over the acceptor and the timed server.
-- - TcpProxy (Binding, Failing): app/tcp_proxy.cpp and app/tcp_agent.cpp, over TcpServer: the
--   messages of clients, and the status of a real server's connection. TcpProxy.Running (Links,
--   Honest, Sessions, Kept): the server, the agents and the table of sessions as they run
--   together.
-- - Main: app/main.cpp and the fields of app/proxy.h; the parser of options and the JSON reader
--   are parameters.
-- - Base: Boolean tests, lists, integers, maps. Tests: runs and instances.
--
-- Numbers: bytes, sizes and indices are natural numbers; where the source's type wraps, the remainder
-- is written out (the 16-bit sizes of packets, the 32-bit index of the wheel). An `int` is ℤ.
--
-- Fuel: `read_from_buffer`, the `unpack` of the proxies and the receiver of a stream need it. Each
-- further round of their loops has consumed a byte, so one round for each byte and one or two more are
-- enough, which is a theorem of each; a number prints within as many digits as its value (and a few more,
-- where a format pads it).
--
-- Not modelled: libuv, msgpack, JSON and option parsing are third-party code, which the programs under
-- tests/ only call. app/session.h is declared and never used; the macros of base/logger.h
-- print to standard error.
mod Base
pub mod PacketBuffer
pub mod ListBuffer
pub mod Packet
pub mod Trie
pub mod TimerWheel
pub mod GlobalConfig
pub mod LogWriter
pub mod Logger
pub mod EventLoop
pub mod SocketAddr
pub mod Timer
pub mod UdpSocket
pub mod Msgpack
pub mod UdpProxy
pub mod TcpConnection
pub mod TcpClient
pub mod TcpAcceptor
pub mod TcpServer
pub mod Main
pub mod TcpProxy
mod Tests
