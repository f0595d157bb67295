-- ===== src/Lib.antt =====
-- A verification library for the media server: the program's own logic in the folder src, modelled as
-- functions over explicit state, with the theorems about it.
--
-- The parts and how they interact. The HTTP handlers (src/service) call the SFU
-- (src/mediasoupv1/mod.rs). The SFU
-- keeps the meetings' handles in maps in memory and the rest in the database: a handler puts structs
-- (src/dao/mod.rs) into a list and gives them to the executor (src/db/mod.rs), which builds one
-- statement for each and runs them in a transaction; from its answer the handler goes on to change
-- the memory or returns an error. The functions that recreate a transport change the memory first.
--
-- The files.
-- - Base: lists, texts, association lists for `HashMap`, outcomes (a value, an error or a panic), and
--   actions, which thread a state and keep what was written when they fail.
-- - Dao: src/dao/mod.rs. Types has its structs, `Box<dyn Dao>` as the sum `Dao`, and `Statement`, what
--   a chain of the query builder was given. Insert, Change and Read have a function for each
--   `get_*_string` of each struct, and the dispatch. Dao/Quoting is about the quotes.
-- - Db: src/db/mod.rs. Driver is the mysql crate as a parameter, with the laws of its transactions;
--   Db has `mutate`, Db/Single has `put`, `update`, `delete` and `query`. Db/Atomicity, Db/Puts and
--   Db/Failures are the theorems; Db/Example is a driver to run them on.
-- - Sfu: src/mediasoupv1/mod.rs. Platform is what it calls outside of the repository (mediasoup,
--   GStreamer, the clock, the ids, the hasher) as a parameter. Server is the state `Inner` and the
--   calls on the database, Queries the lookups over producers and consumers, Shards the shards of the
--   consumers, Recording what a meeting's recording (src/gstreamer/mod.rs) keeps for each participant
--   and how a participant is taken out of it, Closing the closing of producers and consumers, Leaving
--   `leave_meeting` and `end_meeting`, Joining `remove_and_add_participant_to_meeting` and the queries
--   for a meeting's producers (with Rows), Transports the creation of transports, Recreation the
--   functions that recreate them on another instance, Creation the creation of a meeting with its
--   routers, Batch the creation of a batch of routers on a worker, Control the connecting of
--   transports and the resuming and pausing of media, Consuming the creation of consumers, Producing
--   the creation of producers, Kind the kinds of media and the capabilities, Ports the search of a free
--   port and Start the start of the SFU with its heartbeat. Recording/Elements, Audio and Video are how
--   src/gstreamer/mod.rs builds the pipeline of a recording, Failure its handling of a failed source,
--   Stuck a start that failed halfway, Shared the elements that the participants of a recording
--   share, and Producing/Started is `start_recording`. Removing has the relation between the states
--   of a handler that only takes consumers and producers out, for each such handler, and Reachable the
--   states that the handlers reach from the one that is started. Sfu/Example is a platform to run them
--   on; Runs, Trials, Takes and Tests
--   run them.
-- - Service: src/service. Payload has the payloads and responses, Answers how a handler begins and
--   ends, Meetings, Transports, Media and Profiler the handlers of src/service/v1/mod.rs, Routes the
--   routes. The decoders of serde and the profiler are parameters, and a response is a status and a
--   body as a value. Plans describes what each route promises; Follows, Planned, Calls, Served, Refused
--   and Capacities are the theorems, Tests runs some handlers.
--
-- Choices. A map is an association list; its order stands for the order of iteration, which the
-- program leaves open. A `HashMap` that is keyed by the id of its value is a hypothesis (`HasKeys`)
-- where it matters. An index out of range, a remainder by zero and an `unwrap` of nothing are the
-- outcome `panic`. Numbers are natural numbers. Two loops have fuel: the printing of a number, which
-- has as much as the number is large, and the search of a port, which has the width of the range of
-- ports; it tries no port above the range, so the fuel is never what ends it. The text of an error is
-- what its `Display` gives; the text that the crate's wrapper puts around it is left out. `rollback`,
--   `commit` and the drop of a
-- transaction return the state of the database; what other connections write is left out, and so is
-- the interleaving of handlers: each runs as a whole, as if it held the locks of the maps. The
-- recording is shared by its handle in the program: there is one copy of it here, in the map, and what
-- is written through a handle is written there. The arguments of a log line are evaluated if its level
-- is on, since some of them unwrap.
--
-- Not modelled: the callback of GStreamer that links a new pad, and the recording of H.264; the thread
-- that watches the bus of a pipeline; HTTP methods other than GET and POST; metrics, client and
-- configuration, which are input and output.
pub mod Base
pub mod Dao
pub mod Db
pub mod Sfu
pub mod Service
