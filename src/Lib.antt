-- ===== src/Lib.antt =====
-- The session core of a head unit for Android Auto: the wire protocol's frames, TLS on top of them,
-- the session's state machine, the transports below, the services and the engine above. It is the
-- C++ library in core/, with the TLS strategy and the transports of impl/ that it is used with.
--
-- The parts and how they interact. A session owns a framer, an inbound assembler, an outbound
-- encoder and a handshake coordinator, and shares a crypto strategy with them. Bytes from the
-- transport go to the assembler, which cuts them into fragments by the framer, decrypts each
-- fragment, puts a channel's fragments together and hands whole messages to the session. During the
-- handshake the session passes them to the coordinator, afterwards to the service of the message's
-- channel. Services and the coordinator send by the encoder, which encrypts a message, cuts it into
-- frames by the framer, and puts these into the session's write queue, from which one write at a
-- time goes to the transport. A buffered transport reads ahead of the session. The engine creates
-- sessions with their services, forwards the application's calls to them, attaches the sinks of a
-- session that becomes active, and drops a session that reports a terminal state. The application
-- calls the engine by a controller over binder, which hands a transport over as a descriptor, a
-- text that the transport factory reads.
--
--   Base.antt       shared names; lists over native numbers, bits of a byte, `std::map` by its entries
--   Protocol.antt   core/include/aauto/utils/ProtocolConstants.hpp
--   Framer.antt     core/include/aauto/session/Framer.hpp, core/src/session/Framer.cpp
--   Crypto.antt     core/include/aauto/crypto/ICryptoStrategy.hpp, a parameter of its clients
--   Assembler.antt  core/src/session/InboundMessageAssembler.cpp
--   Encoder.antt    core/src/session/OutboundMessageEncoder.cpp
--   Tls.antt        impl/common/crypto/OpenSslCryptoStrategy.cpp, a crypto strategy
--   Handshake.antt  core/src/session/HandshakeCoordinator.cpp
--   Service.antt    core/include/aauto/service/IService.hpp, a parameter of its clients
--   Session.antt    core/include/aauto/session/Session.hpp and SessionState.hpp; the operations of
--                   core/src/session/Session.cpp on the state, and in Session/Handlers.antt its handlers
--   Transport.antt  core/src/transport/BufferedTransport.cpp
--   Tcp.antt        impl/android/transport/AndroidTcpTransport.cpp
--   Usb.antt        impl/android/transport/AndroidUsbTransport.cpp
--   Engine.antt     core/src/engine/Engine.cpp, core/include/aauto/engine/IEngineController.hpp
--   Services.antt   core/include/aauto/service/ServiceBase.hpp; below it a module for each service in
--                   core/src/service: Control, Audio, Video, Playback (MediaPlaybackService), Phone
--                   (PhoneStatusService), Sensor, Input, Bluetooth, Browser (MediaBrowserService), and
--                   Discovery for what all of them write into the service discovery response, and Any for
--                   any of them behind the interface
--   Platform.antt   impl/android/main/main.cpp: AndroidTransportFactory and, in Platform/Factory.antt,
--                   AndroidServiceFactory; in Platform/Controller.antt and
--                   Platform/Notices.antt, impl/android/aidl/AidlEngineController.cpp
--   Tests.antt      runs on concrete inputs
--
-- State and operations. A class is a record of its fields, and a method a function from the record
-- to the record, under the method's name. What an object calls out is a list of effects in the
-- order of the calls. Handlers that the code passes as `std::function` are functions on the state
-- `S` of their owner, which a `Host` reads and writes the crypto strategy of. A strategy or a
-- service is a record of operations on a state of its own; a service's method is a `Program`, the
-- steps by which it reads and writes its fields, sends and asks for a stop, since a send runs the
-- session's code at once. The strand of a session runs one event at a time (Session/Handlers.antt,
-- `step`); a run is a sequence of them. The engine's io_context is its queue of jobs, and a session
-- is to it the object it posts calls to. A method of the buffered transport, which holds a lock, is
-- one step, also where the code gives the lock up while it calls a handler. The TCP and the USB
-- transport have two threads each: a step is one of the client or of a thread, and a run any
-- interleaving.
--
-- Bounds and fuel. Bytes are numbers below 256, and shifts and masks are written out. The framer's
-- receive loop has the buffer's length for fuel, which is enough as each frame takes at least four
-- bytes, and its fragmentation loop the payload's length, which is enough as each fragment takes at
-- least one. The TLS strategy's loops have as many rounds as there are bytes pending, or left to
-- read, which is enough as each round takes at least one. An `int` is written with ten digits at
-- most.
--
-- Not modelled: logging, but for the lines on playback and on the phone's status that their
-- services write for other programs to read; memory and object lifetimes; asio, whose strand and
-- timers appear as the events they deliver; protobuf's generated code, for which a service takes a
-- record of what it parses and serializes; OpenSSL, for which the TLS strategy takes a record of
-- the calls it makes; `main` of main.cpp and the callbacks that its service factory passes on,
-- which wire the parts together; the Android application, and vendored code.
pub mod Base
pub mod Protocol
pub mod Framer
pub mod Crypto
pub mod Assembler
pub mod Encoder
pub mod Handshake
pub mod Tls
pub mod Service
pub mod Session
pub mod Transport
pub mod Tcp
pub mod Usb
pub mod Engine
pub mod Services
pub mod Platform
pub mod Tests
