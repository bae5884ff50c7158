-- ===== src/Lib.antt =====
-- A model of the message brokers, workers and clients of zguide-examples, the C++ programs for the
-- patterns of the ZeroMQ guide.
--
-- Each program is a loop over `zmq::poll`: it reads multi-part messages from its sockets, changes a
-- small state, and sends messages. A model has that state as a record, one function for each branch
-- of the loop, and a `step` that composes them as the loop does. The messaging library is not part
-- of the repository. What a socket or `poll` gives is an argument of the step (an `Input` or a
-- list of messages), and what is sent is a part of its result. A reading of the clock and a draw of
-- a random distribution are arguments too, so that every theorem holds for all of them.
--
-- Where the code can abort, read or write out of bounds, divide by zero, follow a pointer to
-- nothing, or throw, the model returns a `fault` (Prelude/Result); leaving a loop by `break` is
-- `stop`. Numbers are natural numbers; an unsigned number of 32 bits has its wrap-around written
-- out. A frame is a list of bytes.
--
-- The files:
--   Prelude            shared names, Boolean tests, lists, bags, byte strings, tables, results
--   Zmq                Frames, Version (robust-reliable-queuing/ppcommon.cpp: recv_frames, send_frames,
--                      was_interrupted, check_version), Deque (the pair of functions of
--                      model-three-complex-and-nasty/flmsg.hpp), Copies (those of the other programs)
--   ParanoidPirate     robust-reliable-queuing: Workers (workers.hpp, workers.cpp), Queue
--                      (ppqueue.cpp, ppcommon.hpp), Worker (ppworker.cpp). The queue calls the list of
--                      workers as `workers_t`; the worker process and the queue share the constants.
--                      Workers/Line is the line of workers that the list stands for,
--                      Queue/Roster the queue process over that line alone, and Exchange joins the
--                      queue and a worker.
--   Freelance          Retry (model-one-simple-retry-and-failover), Shotgun
--                      (model-two-brutal-shotgun-massacre), and for model-three-complex-and-nasty:
--                      Server (flcliserver.hpp), Sequence (stoseq of flcliagent.hpp), Agent
--                      (flcliagent.hpp), Api (flcliapi.hpp, flclient3.cpp), Service (flserver3.cpp),
--                      Exchange (the agent and a server joined by their sockets)
--   SimplePirate       basic-reliable-queuing: spqueue.cpp, spworker.cpp, spcommon.h. System is the
--                      queue with its workers and the messages under way, as a step relation,
--                      and Pool the bag of the workers that it stands for.
--   LazyPirate         client-side-reliability: lpclient.cpp, lpserver.cpp
--   LoadBalancer       load-balancing-message-broker/lbbroker.cpp; Client joins its three threads
--   Brokers            what the queue of SimplePirate, the LoadBalancer, the queue of ParanoidPirate
--                      and the broker of Peering have in common, as an interface; Paranoid is
--                      ppqueue.cpp by whole rounds of its loop
--   CommandLine        what each `main` does with its options before its loop: Tasks
--                      (divide-and-conquer), Hello (ask-and-ye-shall-receive), SharedQueue
--                      (extended-request-reply), Updates (getting-the-message-out), Readers
--                      (handling-multiple-sockets), Required (transport-bridging,
--                      prototyping-the-state-flow, prototyping-the-local-and-cloud-flows),
--                      Freelance (model-one-simple-retry-and-failover), Arguments
--                      (last-value-caching, model-two-brutal-shotgun-massacre). The library
--                      boost::program_options is the parameter `ProgramOptions`; Wiring says which
--                      programs meet.
--   LastValue          last-value-caching: lvcache.cpp, pathopub.cpp, pathosub.cpp, and the
--                      three joined in Saved
--   Peering            prototyping-the-local-and-cloud-flows/peering2.cpp: the broker; Cloud joins it with a
--                      peer, Local with its own clients and workers
--   Tripping           round-trip-demonstrator/tripping.cpp; Measures are the tests of its client
--   RouterBroker       router-broker-and-req-workers/rtreq.cpp,
--                      router-broker-and-dealer-workers/rtdealer.cpp
--   RequestReply       extended-request-reply: rrbroker.cpp, and Client (rrclient.cpp, rrworker.cpp);
--                      Proxy (transport-bridging/wuproxy.cpp)
--   NodeCoordination   node-coordination: syncpub.cpp, syncsub.cpp
--   AsyncServer        async-client-server-pattern/asyncsrv.cpp. System has the clients and the
--                      threads of the server as a step relation.
--   Text               numbers in base sixteen, and the dump of a message of
--                      async-client-server-pattern/asyncsrv.cpp and
--                      identities-and-addresses/identity.cpp
--   Identities         identities-and-addresses/identity.cpp, by what it prints
--   DivideConquer      divide-and-conquer: taskvent.cpp, taskwork.cpp, tasksink.cpp. System has the
--                      three with any number of workers as a step relation.
--   StateFlow          prototyping-the-state-flow/peering1.cpp
--   Weather            getting-the-message-out: wuserver.cpp, wuclient.cpp
--   Espresso           pub-sub-tracing-espresso-pattern/espresso.cpp, and Envelopes
--                      (pub-sub-message-envelopes: psenvpub.cpp, psenvsub.cpp)
--   HelloWorld         ask-and-ye-shall-receive: hwclient.cpp, hwserver.cpp; the threads of
--                      multithreading-with-zeromq/mtserver.cpp
--   Interrupt          handling-interrupt-signals/interrupt.cpp
--   Relay              signaling-between-threads/mtrelay.cpp, as a step relation of its three threads
--   MultipleSockets    handling-multiple-sockets: msreader.cpp, mspoller.cpp
--   Tests              runs at concrete inputs
--
-- Loops over a container or over what arrives are recursion on a list. `purge` of the workers has
-- fuel: its bound is the size of the queue less the round, so the size of the queue at the start is
-- enough. `to_string` and `to_hex` have the number itself plus one as fuel, which is more than its
-- digits. The loop over the frames of Zmq/Copies has their number, since a read past the last is a
-- fault. `drain` of msreader has any fuel, since its loop may never end.
--
-- Not modelled: most of the printing, the binding and connecting of sockets with fixed addresses,
-- the threads that start the parts of one program (but for those of Relay), and the programs that
-- only show a call of the messaging library (version-reporting, zero-copy,
-- built-in-proxy-function).
pub mod Prelude
pub mod Zmq
pub mod ParanoidPirate
pub mod Freelance
pub mod SimplePirate
pub mod LoadBalancer
pub mod LastValue
pub mod LazyPirate
pub mod Peering
pub mod Text
pub mod Identities
pub mod Tripping
pub mod Brokers
pub mod CommandLine
pub mod HelloWorld
pub mod Interrupt
pub mod Relay
pub mod Weather
pub mod StateFlow
pub mod MultipleSockets
pub mod Espresso
pub mod Tests
pub mod RouterBroker
pub mod RequestReply
pub mod NodeCoordination
pub mod AsyncServer
pub mod DivideConquer
