-- ===== src/Lib.antt =====
-- qbm-redis: the Redis client module of the qb actor framework.
--
-- A command class (string_commands.h, transaction_commands.h and others) turns a method call into the
-- name and the arguments of a command. The client (redis.h) puts them as one frame into its output
-- pipe, by put_in_pipe of reply.h, and a callback, an IReply of reply.h, into a queue. The protocol
-- reads replies with hiredis and hands each to the client, which calls the callback at the front of
-- the queue; the callback parses the reply into a C++ value with the parse functions of reply.h and
-- reply.cpp. A subscriber (redis.h) takes published messages apart from replies first.
--
-- The files:
--   Base, Decimal, Floating, Outcome: lists, bytes and signed integers; std::to_string, std::stoll,
--     std::stoi and operator>> of a text stream, written from the C++ standard; `double` as an
--     interface; exceptions and undefined behaviour.
--   Types: the structures and enumerations of types.h; Types/Ids and Types/Order: stream_id.
--   Wire: redis_count, to_redis_string and put_in_pipe of reply.h, with an argument as a value of
--     `Arg`, one constructor for each overload; Wire/Words: the words that an argument stands for;
--     Wire/Request: a reader of the documented request format; Wire/Framing and Wire/Pipeline: the
--     writer against that reader.
--   Reply: redisReply and the tests on its type; Reply/Scalars, Reply/Containers, Reply/Published,
--     Reply/Records, Reply/Streams, Reply/Cluster, Reply/Memory, Reply/Json: the parse functions of
--     reply.h and reply.cpp, each `parse_x` for parse<x>; the modules below them, and Reply/Totality:
--     what they accept, what they throw, and the range of the numbers they give.
--   Handler: Reply<T> and TReply of reply.h.
--   Client: Redis of redis.h: command, on(message), on(disconnected), await, and the command that
--     waits. Client/Order, Client/Waiting: runs, and waits.
--   Consumer: RedisConsumer of redis.h; Consumer/Sync: its await and its command that waits.
--   Interval: the intervals of redis.cpp and the texts of the enumerations.
--   Commands: a method as the request it makes, `x_request` for the method x (or `x` itself where the
--     class is Strings, Hashes or Transaction). One module for each class or group of classes:
--     Commands/Strings, Lists, Hashes, Sets, SortedSets, Keys, Streams, Transaction, Server and
--     Subscriptions for the header of the same name; Commands/Values: bitmap_commands.h,
--     hyperloglog_commands.h, geo_commands.h; Commands/Admin: connection_commands.h,
--     publish_commands.h, scripting_commands.h, acl_commands.h, function_commands.h,
--     module_commands.h, cluster_commands.h. Below each, Syntax: the commands as data and the words
--     that the server documents for them; Requests: the request of each command against these words;
--     Replies: what its parse throws. Commands/Arguments: how arguments are put together;
--     Commands/All: any command of the classes that Redis puts together; Commands/All/Refusals: the
--     calls with a callback that return early or throw; Commands/All/Session:
--     a client on which such commands are called while replies arrive.
--     Commands/Scanner: multi_hvals of hash_commands.h;
--     Commands/Scanner/Keyed: the scanners of set_commands.h and sorted_set_commands.h.
--   Tests: the theorems at concrete inputs.
--
-- How the code is modelled: the pipe is the list of its bytes. A queue of callbacks is a list of
-- functions from a reply, or a null pointer, to an outcome. An outcome is a value, an exception with
-- its text, or `fault`, where the code dereferences a null pointer or takes the front of an empty
-- queue. An unordered map is the list of its entries in the order in which it is walked; insertion
-- keeps the first value of a key. A JSON object is the list of its members; qb::json::parse is a
-- parameter, which gives a value or throws. Integers are those of a `long long`, with the bounds as
-- hypotheses where the conversion from text has them; `size_t` cursors wrap at 2^64. RESP3 is off, as
-- it is where REDIS_PLUS_PLUS_RESP_VERSION_3 is not defined. `len` of a reply is the length of its
-- text, and `elements` that of its array.
--
-- Fuel: only the writing of decimal digits runs on fuel, one more than the number, and each digit
-- divides the number by ten. Waiting is a run over the batches of replies that the event loop finds.
--
-- Not modelled: sockets, the event loop and hiredis, which is another project's library; what a
-- callback does beyond its result, a callback of TReply that throws, and methods of a derived
-- subscriber that throw; the class scanner of the key commands, which is abstract, and that of the
-- hash commands, which asks hscan for a vector where hscan answers with a map;
-- parse_info_to_memory_info of server_commands.h, which nothing calls; RedisCallbackConsumer, which
-- forwards events to stored callbacks; the qb::json and std::chrono overloads of the writer. RESP2
-- and the syntax of the commands are those that the server documents; function_restore,
-- client_tracking_info, command_stats and the overload of client_unblock that waits depart from it, so
-- that their requests are modelled, but are not commands of Commands/All.
pub mod Base
pub mod Decimal
pub mod Floating
pub mod Types
pub mod Wire
pub mod Outcome
pub mod Reply
pub mod Handler
pub mod Client
pub mod Consumer
pub mod Interval
pub mod Commands
pub mod Tests
