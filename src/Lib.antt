-- ===== src/Lib.antt =====
-- libpomelo, the C client of the Pomelo game server: its byte formats, its hash map, and the client
-- with its connections as a state machine.
--
-- A client and a server exchange packages over TCP (src/package.c). The body of a data package is a
-- message (src/message.c) with a type, an id, a route and a body, which is JSON text (src/msg-json.c)
-- or a protobuf message (src/msg-pb.c, src/pb-encode.c, src/pb-decode.c). Requests and listeners are
-- kept in hash maps (src/map.c). A client (src/client.c) connects a transport (src/transport.c), sends
-- a handshake and reads its answer (src/network.c, src/pkg-handshake.c), exchanges heartbeats
-- (src/pkg-heartbeat.c), and takes the packages that arrive (src/protocol.c). A lost connection is
-- tried again after a delay. All of it runs in the callbacks of libuv, on the thread of its loop
-- (src/thread.c), but for the calls of the user.
--
-- Files:
--   Common     what the parts share: tests on numbers, lists (Lists), what a call comes to (Outcome),
--              C strings (Bytes), a bitwise or without common bits (Bits), numbers in groups of seven
--              bits (Groups)
--   Package    src/package.c: `parser_feed` is pc_pkg_parser_feed, with `pkg_head` and `pkg_body` its two
--              stages; `parser_reset`, `parser_close` and `pkg_encode` are the functions of these names.
--              Stream has the packages that a list of bytes splits into, Holds the invariant of the
--              parser, Head, Body and Feed the rounds, Chunks and RoundTrip the whole stream.
--   Message    src/message.c: `encode_route`, `encode_code` and `decode` are pc_msg_encode_route,
--              pc_msg_encode_code and pc_msg_decode. Encode and Sizes have the bytes that are written,
--              RoundTrip the reading of them, Faults the inputs on which the decoder goes wrong.
--   HashMap    src/map.c: `map_set`, `map_get`, `map_del` and so on are pc_map_set and so on. View has the
--              function that a map stands for and the invariant, SetLoop the loop of pc_map_set.
--   Protobuf   src/pb-util.c, src/pb-encode.c (Output and Encode), src/pb-decode.c (Input and Decode).
--              Varint has the bytes of a number; Emit, Reference, Agrees and Refines compare the encoder
--              with a description of its bytes; Bounds, Strings and Returns have the end of the decoder.
--              Meaning describes, without bytes, what the decoder is to build of a message; Consumes, Values,
--              Elements, Steps, Members and ReadBack are about what it reads of the bytes of the encoder, and
--              Fits and Whole about messages that fit their schemas.
--   Bodies     src/msg-json.c and src/msg-pb.c
--   Reconnect  the delays of pc__client_reconnect of src/client.c, which grow by the delay (Delay) or double
--              (Exponential); Growth has both
--   Protocol   the functions of src/protocol.c that parse and encode a message by default, and the reading of
--              what they write: RoundTrip for bodies of JSON text, Defined for protobuf messages
--   Listeners  the listeners of src/client.c: `add_listener`, `remove_listener` and `emit_event`. Heard has
--              the callbacks of each event, and Added the adding of one.
--   Life       src/client.c from pc_client_new to pc_client_destroy: `client_new`, `client_clear` and so on
--              are the functions of these names with `pc_`, and Connects has pc_client_connect with its
--              variants and the lookup of a host. Made and Delays are about new clients (Doubles has the
--              operations on double for a run), Works about what pc_client_connect returns, Ended and
--              Unsafe about the end.
--   Exchange   the parts together, from the bytes of the socket to the callbacks of requests: Stream is about
--              the reads of any stream of packages, Waits and Answers about those of answers, Again about an
--              answer that comes twice
--   Client     the client: `Client` is pc_client_s, with the memory of its transports and what was
--              called. Stop has pc_client_stop and the reset for a reconnection; Connect the way from
--              pc_connect to the handshake request; Handshake the answer to it, heartbeats and
--              timeouts, with Session for what the answer sets up, Files for the files that it reads
--              and writes, and Keys for its strings; Requests the requests and notifications; Dispatch
--              the packages and the reads of the socket. A function has the name of the code without
--              `pc_`. Linked, Kept, Started, Callbacks, Answers and Reads have the invariant of the
--              client and its transports for each of them, and Steps for all together, as a relation of
--              one call. Shut and Closed are about a client that does not reconnect, Drops and Reset
--              about the reset, Retries, Failures, Retried and Attempts about attempts that fail,
--              Pending and Twice about requests, Protos about the protobuf definitions over a
--              reconnection, Races and Late about a stop or a disconnect at a bad time.
--
-- Conventions: a byte is a number below 256; a `size_t` has 64 bits and an `int` 32, with what the code
-- does past their ends written out. Whether `char` is signed is an argument where it matters. What an
-- allocation gives is a function `malloc` of its size. A function of the code that can fail gives an
-- `Outcome`: `err` is the failure that it reports, `fault` undefined behaviour (an access out of bounds
-- or through NULL, a signed overflow). `stuck` is no behaviour of the code: the fuel of a loop was used
-- up. The parser has a round of fuel for each byte that it is fed; an id of a message five rounds; a
-- varint ten; the protobuf decoder one for each byte of its input, which bounds its loops and its depth
-- together; the encoder the depth of nested messages. The loop of pc_map_set has fuel as an argument,
-- because it can run for ever.
--
-- Parameters: jansson (deps/jansson) is the records `Jansson`, for the reading of JSON values, and
-- `Builder`, for the making of them. `json_dumps`, `json_loadb`, `sprintf` of a number and `rand` are
-- arguments. What a call of libuv or of the system comes to is an argument too, and a callback is called
-- in any order that libuv allows: the relation `Step` of Client/Steps takes one call at a time, so two
-- threads inside one call at once are not modelled. The callbacks of the user are recorded as calls, and
-- what they do to the client is the next step. The functions that parse and encode a message are
-- arguments of the client; the default ones are in Protocol.
--
-- Not modelled: locks, socket options, messages to the log, the releases of memory that no state shows,
-- and the callback of the user that takes the place of the files (proto_event_cb). What the worker thread
-- does while a caller of pc_client_connect or pc_client_destroy waits is an argument, a function on the
-- client, and so are what getaddrinfo finds and the operations on double, with log(), in the record
-- `Floats`. The copies of jansson and libuv under deps are other projects.
pub mod Common
pub mod Package
pub mod Message
pub mod HashMap
pub mod Protobuf
pub mod Reconnect
pub mod Protocol
pub mod Exchange
pub mod Life
pub mod Listeners
pub mod Bodies
pub mod Client
