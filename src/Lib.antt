-- ===== src/Lib.antt =====
-- The network core (firmware of the ESP32-S3): the parts of it whose behaviour is decided by its
-- own code rather than by the SDK.
--
-- Improv (main/improv_proto.h, and the receive loop of main/wifi_mgr.cpp) is the serial framing by
-- which a browser sends Wi-Fi settings. `Parser` is the struct of that name, its buffer an array
-- of 265 bytes that is written by index; `feed` is `feed`, split at its branches, and `receive`
-- runs it over a stream of bytes and lists what the task does for each packet. Improv.Receive and
-- Improv.RoundTrip take the receiver against `frame`, Improv.Bounds is about its reads and writes,
-- Improv.Payload about the payloads.
--
-- Remote.State, Remote.Backoff and Remote.Allow (components/remote_client/remote_state.cpp,
-- remote_backoff.cpp, remote_allow.cpp) are the cloud channel's state machine, its reconnect delay
-- and its allow-lists. The build option CONFIG_ZHAC_REMOTE_ALLOW_PRIVILEGED is a flag, and a null
-- pointer is `none`. Remote.Client (remote_client.cpp) is what is above them: the statics as a
-- record, the frames that come and go, and in Remote.Client.Task one pass of the task's loop. A
-- pass is one step; what the event group, the queues, the clock and the socket answer in it is a
-- `Tick`, and what it asks of them is a list of actions. Remote.Client.Frames and Moves follow the
-- state through a pass, Sessions and Commands are about sign-ins and about commands and events.
-- Remote.Stored (remote_nvs.cpp) is the stored configuration, over a flash store that is a
-- parameter; Remote.Stored.Forgotten is about forgetting the credentials and Saved about a save
-- and a load. Remote.Life is the rest of remote_client.cpp, how the kernel objects and the task
-- come and go, with the event bits that no pass has taken yet, and Remote.Life.Reused follows them
-- through a run of calls. Remote.Api (main/api_remote.cpp) is the requests about the channel, and
-- Remote.Api.Connected follows a request to connect to the pass behind it.
--
-- WsServer (components/ws_server/ws_server.cpp) is the WebSocket server's client table and its
-- sends. WsServer.Clients has one function for each critical section of `s_mutex` and for what is
-- built on these, over the two arrays, the count and the token. WsServer.Clients.Lookup, Updates
-- and Table take this as a map from descriptors to sign-in states. WsServer.Send is the send loop,
-- the broadcast and the reply; the HTTP server is a parameter (whether a session is live, whether
-- a send succeeds), and so is what other tasks do to the table while a broadcast waits for its
-- lock. WsServer.Send.Loop and Gate are about them. WsServer.Handshake is the sign-in of a
-- handshake and the handler of a frame, a request being a record of what the HTTP server answers
-- about it, and what the callback for a frame's text does to the table a parameter;
-- WsServer.Handshake.Sessions is about who is signed in after them.
--
-- Dgm (main/dgm_store.cpp) is the table of the groups that devices were put into, two levels of
-- arrays with counts. Dgm.Table, Dgm.Adding and Dgm.Reconcile take its operations, dgm_tbl_remove
-- apart, as those of a map from devices to lists of groups; Dgm.Json is the JSON of all groups and
-- Dgm.Json.Listed is about it; Dgm.Store is the flash copy, over a flash store that is a
-- parameter. Base.Keyed, about arrays whose used entries have distinct keys, serves both levels.
--
-- Json (main/json_buf.h) is the text core of every reply. Json.Utf8 is `utf8_seq_len`, split at
-- its lead byte and its loop, and `utf8_safe_copy`; Json.Utf8.Scalars and Copy take them against
-- the encoding of the scalar values. Json.Writer is the class `JsonWriter`, its buffer an array
-- that is written by index; what `vsnprintf` prints is a parameter of `fmt`. Json.Writer.Bounded
-- is about its bounds and its contents, Json.Writer.Read is a reader of JSON strings, and
-- Json.Writer.Sanitized about the bytes of `str`.
--
-- LogRing (main/log_ring.cpp) is the ring of the last log lines with its listing, the hook that
-- captures a line, and the two live sinks. LogRing.Lines cleans a line and takes it apart,
-- LogRing.Sinks is the state of the sinks and what a line does to it, LogRing.Sinks.Body the JSON
-- of one line, LogRing.Listing that of all. What a line is handed on to is a list of effects; the
-- clocks, the allocator's answer, the broker's connection and the topic's prefix are a record of
-- surroundings. A line is its bytes before the NUL. The ring that a listing reads is a function of
-- the round, since others may log between two rounds. LogRing.Order and Listing.Room take the ring
-- as a list of lines, LogRing.Lines.Coloured and Printed are about coloured lines, Sinks.Rate
-- about the rate limit.
--
-- Groups (main/groups_store.cpp) is the store of groups. Flash is a parameter, a record of calls
-- with their answers; Groups.Nvs says what one that does not fail does. The bitmap of 32 slots is
-- a list of bits. Groups.Slots, Records and Listing take the store as a map from ids to records,
-- Groups.Json is about the JSON of one group, over the writer of Json. Groups.Requests
-- (main/api_groups.cpp) is the requests about one group, and Groups.Requests.Created follows a new
-- group to a request that asks for it.
--
-- Rmk.TypeMap and Rmk.Store (components/rainmaker_gw/rmk_typemap.c, rmk_store.c) are the classes,
-- scales and parameters of RainMaker devices, and the set of exposed devices. An `int` is an
-- integer without a bound, and an array with its size a list. Rmk.Store.Entries takes the table as
-- a set, and Rmk.Store.Live is about what is kept of it beside a list of live devices.
--
-- Auth (the sign-in part of main/main.cpp, the requests of main/rest_ops.cpp about it, and
-- auth.set of main/api_system.cpp) is the password, the token and the lockout. Auth has the table
-- of the failed attempts per address and the statics; Auth.Password the hash of a password with
-- its 8192 rounds, the check and the store; Auth.Startup what is loaded or made at the start;
-- Auth.Login the requests that sign in and set the first password, Auth.Change those that replace
-- a password or the token. A `Turn` is what the mutex and the clock answer one critical section,
-- the hash of the SDK is a function, and flash a state with the calls that the code makes of it.
-- Auth.Buckets, Lockout, Noted and Guesses are about the table, Tokens and Started about the
-- token, Digests, Remembered and Claims about the password, Takeover, Same and Replaced about the
-- requests. Rest is the reading of a request's body in chunks, of which Rest.Chunks says what is
-- read.
--
-- WsBridge (main/ws_bridge.cpp) is what stands between the WebSocket server and the handlers:
-- WsBridge has the escape of an id and the texts of replies, WsBridge.Dispatch the dispatcher,
-- WsBridge.Queue the queue of commands with its worker. The JSON parser and the handlers of
-- main/api_routes.def are parameters. WsBridge.Escape is about the escape, Gate and SignIn about
-- who may command what and what is answered, Queue.Fifo about the order.
--
-- Wifi (main/wifi_mgr.cpp) is the reaction to the events of the station and the reply of the
-- portal's name server. Wifi.History follows the stored credentials through a run of events,
-- Wifi.Quiet is about the timers and the new tries, and Wifi.Portal is about the reply.
--
-- Improv, Remote.State, Remote.Stored and Rmk share nothing with the others, and Remote.Api and
-- Groups.Requests take the status of a handler from WsBridge; WsServer.Send and WsServer.Handshake
-- use WsServer.Clients only, LogRing takes the hexadecimal digits of Json, and Groups and Dgm.Json
-- use its writer. Auth signs clients out in the table of WsServer.Clients, compares secrets by the
-- loop of WsServer.Handshake and reads requests by Rest; WsBridge asks Auth and that table who is
-- signed in; Wifi prints the hexadecimal digits of Auth.Startup. Base holds what all use: Boolean
-- tests, lists over the native numbers, arrays with a count. Examples runs the models at concrete
-- inputs and applies the theorems.
--
-- Bytes, counters and descriptors are natural numbers; where the source's type can wrap, the wrap
-- is written out. An `int` descriptor is its bit pattern of 32 bits. Loops are recursions on a
-- list or on the rounds that are left. Three have fuel: the loop of `utf8_safe_copy` has the
-- length of its source, that of `str` has `max`, and a round of either uses a byte; that of
-- `rmk_tbl_reconcile` has one more than the count, and every round moves on or takes an entry
-- away.
--
-- Not modelled: the log lines, the UART, Wi-Fi and HTTP calls of the SDK, the memory allocator and
-- task creation; the start of the WebSocket server; `rmk_div100`, a division of doubles; the scan
-- and the serial replies of main/wifi_mgr.cpp; the API and REST handlers (main/api_*.cpp,
-- main/rest_*.cpp) but those about sign-in, the cloud channel and single groups, the bridges to
-- HomeKit and RainMaker (main/hap_bridge.cpp, components/hap_master, rmk_bridge.c and
-- rainmaker_gw.c of components/rainmaker_gw) and the rest of main/main.cpp.
pub mod Auth
pub mod Base
pub mod Dgm
pub mod Groups
pub mod Improv
pub mod Json
pub mod LogRing
pub mod Remote
pub mod Rest
pub mod Rmk
pub mod Wifi
pub mod WsBridge
pub mod WsServer
pub mod Examples
