-- ===== src/Lib.antt =====
-- Atlas Bot: the hub, the in-memory gateway, and the gateways with a sandbox and a command line.
--
-- The program relays chat clients to agents. A client opens a WebSocket session with the hub
-- (crates/atlas-bot-hub), says hello, and sends requests. The hub answers the cold ones (status,
-- roster, stored transcripts) from its own state; the hot ones (commands, desktop descriptors) go to
-- a gateway (crates/atlas-bot-gateway), which keeps the agents, runs their turns and holds their
-- attachments and channels. The sidecar (box_sidecar.rs) also runs tools that a prompt names, in a
-- workspace of the agent, and the command line gateway (cli_gateway.rs) runs a command line agent as a
-- child and reads its stream; both ask for approval before a tool that may change something. The
-- ends of turns come back to the hub as runtime hints, in process or over a loopback endpoint, and the
-- hub sends them on as events to the subscribed connections. An adapter (crates/atlas-acp-adapter) asks
-- the hub for clients of another protocol.
--
-- Files, with the code that they model:
--   Common      Boolean tests, lists, text as code points (trim, prefixes, order, search), maps with text
--               keys for HashMap, and decimal numbers as Rust prints and parses them
--   Json        serde_json values and the readers that the crates use
--   Gateway     crates/atlas-bot-gateway/src/lib.rs: the state (Types), groups, turns, transcripts
--               (Tail), attachments (Uploads), dispatch; channels.rs in Channels. An async handler is
--               an action that takes the state and returns a result and the state in which it ends,
--               also when it fails. Invariant holds what every handler keeps, and Invariant/Runs the
--               step relation of commands and spawned turns.
--   Approval    crates/atlas-bot-gateway/src/tool_approval.rs, and the gate of box_sidecar.rs in two
--               halves, before and after its wait, between which decisions are submitted. Sandbox and
--               Cli use this gate for theirs.
--   Vnc         the desktop tokens of crates/atlas-bot-gateway/src/vnc.rs and lib.rs
--   Sandbox     crates/atlas-bot-gateway/src/box_sidecar.rs: paths as Rust reads them (FilePaths) and
--               how the sandbox resolves them (Resolve), the triggers in a prompt, the files behind
--               the tools (Files), the tools with their gates (Boxes, Tools), replies of its own and of
--               a model (Replies), the agents, the turns from the prompt to their end, the other
--               Commands, Uploads, Dispatch and Start. Dispatch/Runs has the commands as a relation of
--               states, in which a prompt waits for other commands
--   Cli         crates/atlas-bot-gateway/src/cli_gateway.rs: the command to spawn (Spawn), the lines of
--               its stream (Lines), the loop over them with the gate of a tool that starts (Stream) and
--               what becomes of the run when it ends (Stream/Ends), the reply in text mode (Reply), the
--               state (Agents), a run from its spawn to its reply (Children), and the turns and
--               commands around it (Turns)
--   Acp         crates/atlas-acp-adapter/src/lib.rs: the session of an agent client protocol over a
--               connection with the hub, which it uses through a record of calls (HubClient)
--   Hub         crates/atlas-bot-hub/src/lib.rs: the state (Types), cold transcripts and roster
--               (Offbox), fan-out (Events), errors, requests (Rpc), sessions and runtime hints; auth.rs
--               in Auth and event_ingest.rs in Hints. The hub is generic in the state of its gateway,
--               which it uses through a record of the two calls it makes (GatewayOps).
--
-- Choices. A handler is one step: the locks that it takes within are not interleaved with other
-- handlers. A turn that `send_prompt` spawns is a task in the state, and it ends in a later step, in
-- any order with other steps, or is cancelled. Counters are u64 with their wrap-around, and theorems
-- about them say how much room they need. The order of a map's entries stands for the order in which
-- Rust visits a HashMap, on which no theorem depends. Times are whole milliseconds and not negative.
-- `all_pages`, which follows the cursors of a cold transcript, takes a bound on the pages; one more
-- than the number of entries is enough. The scan for unknown commands has the length of the prompt and
-- one more as its fuel, and ends with it.
--
-- A turn of the sidecar is one function with its waits as arguments: what other handlers do in the
-- delay, at the gates and until the reply is there (Waits, Meanwhile). What the loop over a stream meets
-- is a list of events, lines among them, each with what happens at the gate of its tool (Pause).
-- A prompt of the command line gateway is given its child (Child). It has no result where the events of
-- the child end before its run does, where a kill fails and the child does not exit (KillEnd), and where
-- its output or its standard error stays open.
--
-- Parameters, since their code is not in the crates: the decoders and encoders of the protocol crate
-- (Wire, Frames), jsonwebtoken with the checks that it is asked for (Jwt), base64, the JSON printer,
-- clocks, UUIDs, and the errors of the file system with what they leave (Host, Clock). The files of the sidecar are a type with its
-- operations (FileSystem) and what links do to paths (Links); the answer of the model and the parser of
-- JSON lines are arguments.
--
-- Not modelled: HTTP servers and pages, the VNC probe, readers of the environment, the posts of
-- hints over HTTP, the OpenAI gateway, login clients, the command line client, and the
-- protocol crates.
mod Common
pub mod Json
pub mod Gateway
pub mod Approval
pub mod Vnc
pub mod Hub
pub mod Sandbox
pub mod Cli
pub mod Acp
