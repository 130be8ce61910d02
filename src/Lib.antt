-- ===== src/Lib.antt =====
-- A verification library for micserver: the part of the server framework that turns messages into
-- bytes and back, carries them through a connection's buffer, finds the module of a remote object
-- and calls it, and keeps the sessions, connections, objects and ids of a module.
--
-- A module sends a command of servercomm by WriteBinary into the buffer of a message of msg, behind
-- a head of six bytes (total length, id). A connection writes the buffer out; on the other side it
-- collects what arrives in a util/buffer IOBuffer, and the codec takes whole messages out of it,
-- whose content ReadBinary turns into the command again. The roc cache learns from such commands
-- which module each object is on, and answers where a call has to go.
--
-- Above that, a module keeps its connections in the pool of connect and the sessions of its clients
-- in a session.Manager, which sessions of other modules update by messages. Its ROC managers hold
-- the objects; the ROCServer of server collects what they register, tells other modules, and lets
-- calls wait for their results. Ids come from util/uid.
--
-- Files, and the code that each models:
--   Wire/Read, Wire/Write: the helpers of servercomm/command_binary.go, and what all its readers
--     and writers share. A reader is a state step that may panic or return early; a writer fills a
--     buffer behind an offset.
--   Wire/Info, Basic, Notify, Sessions, Forward, Call, Bind: the structs of servercomm/command.go
--     with GetSizeX (size_x), WriteMsgXByObj (write_x) and ReadMsgXByBytes (read_x).
--   Wire/Commands: the methods GetMsgId, GetMsgName, GetSize, WriteBinary and ReadBinary over all
--     commands, MsgIdToString and StringToMsgId.
--   Wire/Writes, Reads, Nested, Run, Sizes and the RoundTrip and Bind children: proofs.
--   Buffer: IOBuffer of util/buffer/io_buffer.go, each method a function from the buffer to the
--     buffer and its answer, `none` for a panic. Its children relate it to a queue of bytes.
--   Msg/Pool: util/pool/flexiable_pool.go. Msg/Binary: msg/message_binary.go and msg/pool.go.
--     Msg/Encode and Msg/Decode: msg/codec.go. Msg/Supply, Given, Rounds, Frames,
--     Stream, Sent, Commands: proofs.
--   Roc/Cache: roc/cache.go, and Roc/Cache/Views and Refinement its contract. Roc/Path:
--     roc/path.go, whose strings are lists of runes. Roc/Pool: util/pool/mappool.go, with the hash
--     as an argument. Roc/Objects: roc/roc.go and roc/manager.go, with the events of the hook as
--     values. Roc/Pool/Grouped and Roc/Objects/Recorded: proofs.
--   Session: session/session.go. Session/Manager: session/manager.go, with the sessions as objects
--     in a heap. Session/Handler: what server/servercmd_handler.go and server/server.go do with
--     them. Session/Contents, Bound, Filed, Update, Ready, Synced, Carried, Renamed: proofs.
--   Connect: connect/server_pool.go. Connect/Counted, Chosen, Random: proofs.
--   Server/Binding, Notice, Calls: server/rocserver.go, and the cases of OnRecvSubnetMsg in
--     server/servercmd_handler.go that lead there. How a module's objects become known to others,
--     the thread that collects them (a step for each event, Server.Stop among them), and the calls
--     that wait for a result (a step relation). Server/Joined, Arrived, LastIds, Located, Waiting,
--     Noticed, Numbered, Answers, Handed, Remote, Replied, Stuck: proofs, where Arrived and Remote
--     put a sender, the encoding and a receiver together.
--   Uid: util/uid/uniqueid.go. Uid/Fresh: proofs.
--   Dict: Go's maps with string keys as association lists. Prelude: numbers, lists and tests.
--
-- Bounds: an int is unbounded here, except where a conversion cuts it: the integers on the wire
-- have their widths. The loop of RangeMsgBinary runs on the length of the buffer's content plus
-- two as fuel; every round after the first takes six bytes off, so the streams of
-- Msg/Stream never use it up. A map is visited in the order of its association list.
--
-- Parameters: what a sync.Pool has to hand, the io.Reader behind a buffer, rand.Intn, the clock, the
-- modules of this process, the old content of a buffer that a message is written into, and
-- ROCManager.Call.
--
-- Not modelled: goroutines, sockets, logging, configuration and start-up (app, module, conf, log,
-- network), the connections of connect and its pool of clients, and the parts of server that pass
-- messages on. Where Server joins a sender and a receiver, the connection between them is left out:
-- what WriteBinary wrote is what ReadBinary gets.
pub mod Prelude
pub mod Dict
pub mod Wire
pub mod Buffer
pub mod Msg
pub mod Roc
pub mod Connect
pub mod Server
pub mod Session
pub mod Uid
