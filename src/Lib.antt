-- ===== src/Lib.antt =====
-- A group chat over a ring of servers. Each chat server keeps a list of the other servers, which form
-- a ring in the order of their IDs, with a leader that all others are connected to, and a table of its
-- own clients. The leader places a joining server on the ring and closes the ring round one that stops
-- answering; when the leader itself stops, the others elect the server with the greatest ID by votes
-- that run round the ring (LCR). Chat clients multicast group messages to each other with a vector
-- clock, hold back what came too early, and deliver in causal order; a server tells its clients their
-- places in the clock.
--
-- The files, and the code that they model:
--   Base          names and lemmas that all share: integers, lists with the indexing of C arrays, tests,
--                 and `Result`, whose errors are the ways a run can stop (a NULL read, an access out of
--                 an array, `int` overflow, exit).
--   Text          `sprintf` and `sscanf` with the conversions that the code uses.
--   Frame         the 256-byte buffer that every message fills, and `clear_message`
--                 (chat-c/client/data_structure.c), which cuts a message out of it.
--   Peers         chat-c/server_struct.c, the list of servers. Peers/Order says what a ring is; the
--                 other children are named for the operations.
--   TcpClients    chat-c/server_struct.c, the list of TCP clients.
--   Deps          get_deps_str and get_deps_int of chat-c/client/data_structure.c.
--   HoldBack      the hold-back queue of chat-c/client/data_structure.c and the loop of deliver_messages
--                 (chat-c/client/client_s.c).
--   GroupChat     the user input in main of chat-c/client/client_s.c, handle_group_receive
--                 (chat-c/client/group.c), append_to_holdback_queue, deliver_messages.
--   ChatClient    main of chat-c/client/client_s.c around that: ChatClient/Sockets is
--                 chat-c/client/socket_setup.c and chat-c/client/multicast.c, ChatClient/Start the way to
--                 the loop, with chat-c/client/service_infom.c, and ChatClient/Loop the loop and the end.
--   Server        the globals of a server (chat-c/server_s.c, chat-c/chat_client.c,
--                 chat-c/election_lcr.c), the locals of its main that the handlers change,
--                 setup_tcp_client (chat-c/socket_setup.c), do_multicast (chat-c/multicast.c) and
--                 getRadomId (chat-c/server_s.c).
--   Kept          what every operation of a server keeps, and how that is put together from the
--                 parts of an operation; the children called Keeps do so for each component.
--   Election      chat-c/election_lcr.c. Election/Network follows the votes round a whole ring: the
--                 servers and votes of the ring are the state, the arrival of a vote is a step, and what
--                 a server replies is read off lcr_election. Election/Announcement is the announcement of
--                 a new leader at one server.
--   Clients       chat-c/chat_client.c, and accept_new_client of chat-c/server_s.c.
--   Disconnection chat-c/disconnection_handler.c.
--   Joining       chat-c/multicast.c: what a datagram does, at the leader and elsewhere.
--   SocketChanges chat-c/socket_changes.c: what a readable TCP socket does.
--   Discovery     chat-c/service_discovery.c: how a server that starts finds the leader.
--   ServerLoop    the loop of main and exit_keyword of chat-c/server_s.c.
--   Startup       main of chat-c/server_s.c from its start to the end of its loop.
-- Modules called Tests hold runs on concrete data.
--
-- Main's loop (ServerLoop) hands each readable descriptor to the handler of a connection (Clients), of a
-- datagram (Joining) or of a message (SocketChanges), which call on Election, Clients and Disconnection;
-- all of them work on the one state of Server, and change its list by the operations of Peers. What one
-- server prints, another one reads: welcome_text of Joining is read by Discovery, the other texts by
-- SocketChanges. The texts between servers and chat clients go the same way: client_text of Joining and
-- index_message of Clients are read by ChatClient, whose own texts Joining and SocketChanges read.
--
-- Pointers to nodes are positions in lists. A server's operation is a function from the state to a
-- result and the next state. The operating system is an argument: `Env` answers `send`, `time`, `malloc`
-- and the like from the trace of all that happened before; what `select`, `accept`, `recv` and `recvfrom`
-- give in each round is a list of inputs; `Host` does the same for a chat client. An `int` is an integer
-- with the overflow checked where the code counts up. Uninitialised arrays are arguments. The only fuel is
-- that of the loop of check_heartbeat_timeout: the length of the list, since a round moves to the next
-- node or frees one.
--
-- Where the model is wider than the code: addresses are those of IPv4, at most 15 bytes, so
-- the copy of 16 bytes in create_server is the whole address, and the array of 253 bytes in
-- ring_reconstruction is never filled. `FD_CLR` of a descriptor that is in no set, -1 among them, changes
-- nothing, while `FD_SET` of -1 at a chat client is out of range. `strtol` in leader_found gives the number
-- that is written, without the bounds of its type.
--
-- On the ring of Election/Network no vote is lost and no server stops, and the announcement of the leader
-- is not followed: a server that has won counts as a winner.
--
-- Not modelled: printing; the reading of a server's command line; get_service_info of
-- chat-c/client/client_s.c, which nothing calls; chat-c/udp.c, whose socket main never opens; how a server
-- sets up its own sockets, which is calls of the operating system (join_multicast of chat-c/multicast.c
-- among them); the walks that only print or free a list.
pub mod Base
pub mod Text
pub mod Frame
pub mod Peers
pub mod TcpClients
pub mod ChatClient
pub mod Deps
pub mod HoldBack
pub mod GroupChat
pub mod Server
pub mod Kept
pub mod Election
pub mod Clients
pub mod Disconnection
pub mod Joining
pub mod SocketChanges
pub mod Discovery
pub mod ServerLoop
pub mod Startup
