-- ===== src/Lib.antt =====
-- Verification library for Deadlock, a C++ game engine: its session networking, its replicated scene
-- and its timelines.
--
-- The program. A game owns a Scene of entities with components and steps it on a Timeline. Over the
-- network one sessionServer and several sessionClients keep a session: a client joins with a token and
-- a request, and from then on one update at a time goes to the server and back. An update carries
-- the scene that the client owns, messages in both directions that are resent until they are
-- acknowledged, roster events and the server's newest snapshot. A sceneReplicator turns the entities
-- of a Scene into snapshots and applies those of others. A peerSession adds direct exchange between
-- clients. Threads hand values over by LatestValue and ThreadSafeQueue.
--
-- Which module models which file (names are those of the source in snake_case):
--   Codec       src/networking/byteCodec.hpp, include/engine/networking/bytes.hpp: byteWriter and
--               byteReader.
--   Protocol    src/networking/sessionProtocol.hpp, include/engine/networking/session.hpp: the
--               messages, their encoders and, in Protocol.Decode, their decoders.
--   Channel     the loops over messages and outbox that src/networking/sessionServer.cpp (handleUpdate)
--               and src/networking/sessionClient.cpp (exchange) share; Channel.Link is one
--               direction of a session over a network that loses, repeats, delays and reorders.
--   Server      src/networking/sessionServer.cpp: handleJoin, retireLocked and addRosterEventLocked;
--               Server.Exchange is handleUpdate, Server.Methods the watchdog and the public methods,
--               Server.World applyClientStates on the server's replicator and scene, and
--               Server.Threads start, stop and the threads.
--   Client      src/networking/sessionClient.cpp: the methods and exchange; Client.Loop is updateLoop.
--   Roster      src/networking/peerSession.cpp: the roster that applyUpdates keeps.
--   Peers       src/networking/peerSession.cpp: the peers, applyUpdates and leave.
--   Mailbox     include/engine/threading/latestValue.hpp and threadSafeQueue.hpp.
--   Scene       include/engine/entity.hpp, src/entity.cpp, include/engine/ids.hpp.
--   Snapshot    src/networking/sceneReplicator.cpp: entityRecord and the binary format.
--   Replicator  src/networking/sceneReplicator.cpp: sceneReplicator.
--   Timeline    include/engine/timeline.hpp, src/timeline.cpp: Timeline.
--   Stepper     the same files: Stepper.
--   Simulation  src/simulationThread.cpp: the frames and the life of a SimulationThread;
--               Simulation.Threads has the mailboxes by which other threads reach it and the frame of
--               a subsystem thread.
--   Requests    src/networking/requestHandler.cpp: the client's half of a request and its reply.
--   Responses   src/networking/responseHandler.cpp: the server's half, and its loops.
--   Feed        src/networking/publisher.cpp and subscriber.cpp, and the listener thread and
--               publishScene of src/networking/peerSession.cpp.
--   Input       src/keyboardState.cpp and src/inputHandler.cpp.
--   Animation   src/animation.cpp.
--   Physics     src/physics.cpp.
--   Prelude     what the modules share: tests, lists, and maps in the order of their keys.
--
-- How state is modelled. A class is a record of its fields, a method a function from the state to the
-- state and the result. Each method that locks a mutex does so for its whole body or for parts that
-- are functions of their own here, so an interleaving of threads is a sequence of these functions;
-- the modules named Histories, Link, Pending, Lifecycle, Queue, Latest and Stopping state such sequences as
-- step relations, and invariants are proved by induction on them. A failing read, a reply that does
-- not come and a call that throws are values (Option, or a result type).
--
-- Numbers. An unsigned field is a number below its bound, and arithmetic on it wraps where the source
-- wraps. A value that is only carried, such as a tick in a message, is its bit pattern; a float is
-- the number that its bits stand for. A signed one is the pattern of its bits; where the arithmetic of
-- Timeline would overflow, its theorems say nothing. Timeline.Exact has the same over numbers without a
-- bound, for the proofs.
-- The host is little-endian. An unordered map is walked in the order of its keys, one of the orders
-- that C++ allows.
--
-- Fuel. Stepper.run_steps takes the rounds allowed; one more than the frame's budget is enough,
-- since every round spends one. Animation.play takes them too, and as many as a measure of the time
-- that is left are enough, if every round makes that measure smaller, as it does for finite times that
-- are not too large for a frame's duration to count. Every other loop is a recursion
-- on its list, on its count, or on the events that come in: a loop that runs until it is stopped is
-- given what happens in each of its rounds, and says whether it still waits at the end of them.
--
-- Taken as arguments: the clock, the token of a client, what reads and writes JSON, arithmetic on
-- floats where physics and animation need it, SDL's rectangles and its array of keys, and the sockets
-- of ZeroMQ. Requests.ReqSocket is such a socket, and Requests.Socket states what its documentation
-- says as laws, for timeouts and endpoints that ZeroMQ takes, and as a hypothesis of its own that no
-- reply has a third frame; Responses and Feed take what a socket gives in each round as events.
--
-- Not modelled: the constructors and destructors that only open and close sockets, connect and
-- disconnect of a subscriber, threads themselves, the JSON format of snapshots, which stands on a
-- library, the renderer and the window, whose work is calls of SDL, logging, and the table of
-- scancodes, which is data.
pub mod Prelude
pub mod Codec
pub mod Protocol
pub mod Channel
pub mod Server
pub mod Timeline
pub mod Stepper
pub mod Roster
pub mod Mailbox
pub mod Client
pub mod Scene
pub mod Snapshot
pub mod Replicator
pub mod Peers
pub mod Simulation
pub mod Requests
pub mod Responses
pub mod Feed
pub mod Input
pub mod Animation
pub mod Physics
