-- ===== src/Lib.antt =====
-- Baker: the realtime gateway of a self-hosted voice and live streaming server. Clients hold one
-- WebSocket each; the gateway keeps who is connected, who is in which voice channel, who streams or
-- shares music to whom, and tells the others. The desktop client keeps a list of such servers.
--
-- The parts, and the files of apps/gateway/src/ws that they model:
--   Connection   connection-manager.ts. The state is a record of the three maps of
--                `ConnectionManager`. Registry has attach, detach, markAuthenticated and the
--                look-ups, Quality the ping samples and the network snapshot. Delivery is the loop
--                that every broadcast runs: look up a connection, take its next sequence number,
--                send.
--   Voice        voice-room-manager.ts: channels of participants; Broadcast has its broadcasts.
--   Stream       stream-room-manager.ts: channels of publications with their viewers. Publish has
--                start, stop, addViewer, removeViewer and setPublisherDiagnostics, Leave the
--                departures and clearAll, Snapshot the state that the clients get.
--   Music        music-room-manager.ts, which is built like the stream rooms, with listeners.
--   Presence     presence-manager.ts: connection counts per user, and their copy in Redis.
--   Router       event-router.ts: the handlers of commands, over one state of all managers
--                (`GatewayRuntime`). Signal is the relay of media signals between two clients,
--                Access the right to a media session, Channels the text channel subscriptions,
--                Calls the speaking updates and the reports of media loss, with the broadcasts of
--                apps/gateway/src/app-runtime.ts that they make (Broadcasts).
--   Handlers     the rest of event-router.ts, and what of apps/gateway/src/app.ts and
--                app-runtime.ts takes users out of rooms or samples their links. Dispatch is
--                routeGatewayMessage, Joining and Leaving are voice.join and voice.leave with the
--                close of a socket and applyMediaMode, Streaming and Playing the commands of
--                streams and music, Sessions authentication, diagnostics, reconnection and the SFU,
--                Heartbeat the ping timer. Handlers.antt has what they share: an action changes
--                the runtime and leaves effects, in order (events sent, media sessions closed,
--                statuses written, sockets closed); the service of media, the accounts and the
--                database are the record `Environment`.
--   Desktop      apps/desktop/src/server-registry.ts: the servers that the desktop client knows.
--                Parse is what is read from a stored value, which is a tree of texts, numbers,
--                arrays and objects; RoundTrip has the value that is written; Registry, Removal,
--                Lookup and Stored are proofs.
--   Common       JavaScript's `Map` and `Set` as lists in insertion order (StringMap, StringSet),
--                maps of maps whose empty rooms go (Nested), comparisons of texts.
-- A method becomes a function from the state to the new state and the result, under its name in
-- snake case; a result that may be `null` or `undefined` is an `Option`. The managers call each
-- other only through `ConnectionManager`, which each broadcast takes and returns; the router
-- calls them all. In each part the file named for a manager and the files just listed are the
-- code; the files beside them (Slots, Rosters, Invariant, Lifecycle, Departures, Reports,
-- Audience, Histories, Index, Window, Pings, Relay, Speaking, Heard, and in Handlers
-- Frames, Departing, Soundness, ModeChange, Liveness, ...) hold proofs. Tests evaluates the code
-- and applies the theorems at concrete inputs.
--
-- Choices:
--   Ids are texts. A truthiness test of an optional id treats "" as absent, as JavaScript does.
--   A socket is a number; `accepts` says of which sockets `send` returns, and from the others it
--   throws, which each broadcast catches. The envelope's fields are the addressee, the sequence
--   number and the event.
--   `nextSequence` is a closure over a counter: the counter is the field `seq` of the connection.
--   Times are milliseconds as natural numbers. `Math.round` of a quotient of whole numbers is
--   rounding half up; at most 20 samples enter it. A sequence number or count is not bounded.
--   `connection_id`, `to_iso_string` and `to_text` stand for printing numbers and dates.
--   A change inside a `for (… of map)` loop that takes the current entry out is a recursion that
--   leaves the entry out, since JavaScript then goes on with the next one.
--   Redis is the record `RedisClient` of three commands that may be rejected; `IsHash` says what it
--   documents of them while the server answers.
--   `onConnect` and `onDisconnect` of presence wait for Redis half-way: each half is a function.
--   A handler takes the parsed payload, or `none` where the schema refuses it, and the user that the
--   connection is authenticated as, which the dispatch makes sure of. The database is a record of
--   look-ups that answer; an update of a stream session to 'idle' succeeds. `random_id` and the like
--   are the results of `randomUUID()`.
--   A handler that waits is one step, but for `voice.join`, which is two (`join_begin`,
--   `join_finish`); calls that the source does not wait for happen at once. Methods of presence that
--   handlers call are effects, which Presence models.
--   The timer of a heartbeat is a list of the times of its ticks.
--   Of a number in a stored file only the sign, the whole part and whether it is all of it are kept,
--   and null, a truth value and a missing field are one value, since the parser reads no more of
--   them. `trim` is `String.prototype.trim`; JavaScript's sort is stable, like the one here. What
--   `JSON.stringify` in writeDesktopJson (apps/desktop/electron/main.ts) writes, `JSON.parse` gives
--   back.
--   All loops are structural recursions; there is no fuel.
--
-- Not modelled: the set-up in app.ts and app-runtime.ts and the fanout of chat messages from Redis;
-- logging; the texts of errors; ICE servers and SFU parameters, which are handed on; the payload of
-- `system.ready`; the HTTP API, the media service, the clients but for the server registry, the
-- database and Baker Lite.
pub mod Common
pub mod Connection
pub mod Voice
pub mod Stream
pub mod Music
pub mod Presence
pub mod Router
pub mod Handlers
pub mod Desktop
