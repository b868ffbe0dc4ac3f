-- ===== src/Lib.antt =====
-- A verification of the Hermes gateway plugin (src/hermes_vylen_gateway), which connects a local
-- agent to a cloud relay. The parts that keep a client's view complete over lost connections are
-- modelled here, with the store of the chats, the editing of the agent's memory files, and the
-- sampling of the machine's load.
--
-- The event log (event_log.py) retains the last events of a chat within a time, a count and a byte
-- limit, and streams them to subscribers from a cursor on. EventLog/Log is `RetainedEventLog`, a
-- function per method; EventLog/Window, History, Append and Replay are about eviction, numbering
-- and replay. EventLog/Tail is the generator `tail_after` as a state machine: a step is the code
-- between two suspensions or less, and EventLog/Tail/System lets appends, the end of the log,
-- timeouts and other subscribers happen between any two steps. With a keepalive the wait is a task
-- that begins later, as `wait_for` of Python 3.10 and 3.11 has it; without one the generator awaits
-- the event itself. EventLog/Registry is `EventLogRegistry`, with its bound and its acknowledged
-- cursors.
--
-- The chat store (chat_store.py) keeps the same kind of log in SQLite, for every chat, so that it
-- outlives the process. ChatStore/Tables is the schema, with what the SQL statements do to the
-- rows; ChatStore/Texts are the functions on ids, kinds, titles and previews; ChatStore/Store is
-- the state of `ChatStateStore`. Its methods are in ChatStore/Append (appending, renaming,
-- deleting), Reads (replay, snapshots), Sweep (the garbage collection) and Clients (cursors,
-- deduplication, logs). ChatStore/Valid is the invariant of the tables, which
-- ChatStore/Sweep/Whole, Writers and System carry through every writing method; Rows, Appended,
-- Replay, Snapshot and Clients/Laws are about what the methods promise.
--
-- ChatStore/Listing is `list_chats` with the LIKE of SQLite, and ChatStore/Listing/Search is about
-- what its search finds; ChatStore/Tail is the generator of `ChatStateLog`, again as a state
-- machine, and ChatStore/Tail/Exact what it delivers beside any calls of the store.
--
-- The chat relay (chat_cursor.py) gives clients the events of the store. ChatCursor/Frames is what
-- it reads and sends; ChatCursor/Queries is `handle_list` and `handle_snapshot`, with the loop that
-- cuts a page to the size of a frame (Queries/Packing), the pages that come of it (Queries/Pages)
-- and a client that asks for page after page (Queries/Sync); ChatCursor/Push is `append_event`,
-- `append_push` and `send_push`, cut at the awaits between which others may append;
-- ChatCursor/Subscriptions is `handle_subscribe`, `cancel`, `close` and `_tail`, with the tasks in
-- a list and the table of those that can be found.
--
-- The response buffers (response_buffer.py) keep the chunks of a response in flight, so that a
-- client can resume it by the response id. ResponseBuffer is `ResponseBuffer` and
-- `ResponseBufferRegistry`; buffers are shared, so they live in a heap and everyone holds an index.
-- ResponseBuffer/Extractor is `ResponseIdExtractor` and `_try_extract_response_id`, which find the
-- id in the stream; ResponseBuffer/Text is what they use of bytes.
--
-- The relay (relay.py) answers requests by frames. Relay/Frames cuts bodies into frames and filters
-- headers, Relay/Writer is `_FrameStreamWriter`, which sends the frames and fills the buffers
-- above, and Relay/Resume is `_run_resume`, which reads them, as a state machine beside the writer
-- (Relay/Resume/System). Relay/Mirror is about what the writer sends and keeps. Relay/Blobs is
-- `_serve_blob`, which sends a file of the blob registry; Relay/Blobs/Confined and
-- Relay/Blobs/Whole are about the bytes that it lets out.
--
-- The blob registry (blobs.py) holds the files that may be served, by random tokens that expire.
-- Blobs is `BlobRegistry`; Blobs/Served compares it with the plain list of registrations.
--
-- The agent's memory (memory.py) is two text files of entries with a delimiter between them.
-- Memory/Entries parses and prints them, Memory/Ops is the editing of a list of entries with its
-- checks, and Memory/Files is a write, a snapshot and a restore of a file, each as one step, since
-- a file lock holds over it. Memory/Files/Recover is about what a write leaves and how it is
-- undone. Memory/Drafts makes an entry of a message; Memory/Proposals is the proposals to add an
-- entry, which are created, changed, and then applied or rejected; its child modules follow them
-- over any requests.
--
-- The pressure sampler (resource_pressure.py) sorts the load of processor and memory into buckets
-- with hysteresis. ResourcePressure is the sampler; ResourcePressure/Hysteresis looks at a run of
-- samples.
--
-- The runner (agent_runner.py) keeps runs of the agent. Runs/Requests is what a request says,
-- Runs/State is the state with the life of a run: its task is created, begins and ends, and the
-- thread of its agent reports; Runs/Handlers is `_create_run`, `_get_run`, `_stop_run` and the
-- sweeper, Runs/Approvals `_run_approval`. Runs/Reach takes all of them in any order; Runs/Retry is
-- about what they leave of an idempotency key, and Runs/Retry/Between about a request that is made
-- again.
--
-- Prelude holds the shared lists, tests, texts and ordered dictionaries.
--
-- Conventions. A clock read is an argument, in whole ticks. A byte is a number, a text a list of
-- code points, a body a list of bytes, and the base64 text of a frame is the body that it encodes.
-- Cursors that the code clamps to 0 are natural numbers. Whether a send gets through is decided by
-- an arbitrary function or Boolean; a send that does not raises, as in the code. json is a
-- parameter (the record `Json` for the chat store), as are the texts of times (`Calendar`), the
-- bytes that a database takes up, and of the memory files the hash, the risk patterns, the limit
-- and the random digits of an id (`Outside`). A transaction that raises leaves the tables as they
-- were. The texts of the memory files are written with the line ends of POSIX. The three functions
-- that take fuel: each round of `evict_logs` drops a log, so it gets the number of logs; each round
-- of `scan` shortens the buffer, so it gets more than its length; and each round of `parts_of`
-- takes bytes away, so it gets the length of the body.
--
-- Not modelled: the adapter, the client and the command line tools; of the runner the routing, chat
-- completions and responses; in relay.py the scheduling of tasks and the progress timeout; in
-- chat_store.py the opening of the database file and the vacuum; in chat_cursor.py a relay whose
-- logs are an `EventLogRegistry`, but for its answer that it has no list and no snapshot; in
-- memory.py the frames of requests, the listings and the status of files; in resource_pressure.py
-- the providers that read the load. Logging is left out. Some inputs are not modelled either: texts
-- with lone surrogates, which the encoding to UTF-8 refuses; the numbers Infinity and NaN in a
-- frame; and, but for the cursor of `handle_snapshot`, integers of more than 64 bits, which sqlite3
-- refuses.
pub mod Prelude
pub mod EventLog
pub mod ResponseBuffer
pub mod Relay
pub mod ChatStore
pub mod ChatCursor
pub mod ResourcePressure
pub mod Blobs
pub mod Memory
pub mod Runs
