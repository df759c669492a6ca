-- ===== src/Lib.antt =====
-- Verification of tx, a file transfer program: the command protocol, the encodings that its client
-- and server share, and the server's transfer store. Paths are from the repository's root.
--
-- Parts and files:
--   Base        numbers, tests, lists, bytes, results and Go's signed integers
--   Encoding    internal/filexfer/encoding/manifest.go and internal/utils/strings.go: path tokens,
--               mtime tokens and the common prefix; encoding/frame.go,
--               codec.go and body_frame.go: hash tokens, frames and framed bodies
--   Ftcp        internal/filexfer/ftcp: verb.go, request.go (cursor and ParseRequest), items.go,
--               ack.go
--   Client      client_requests.go, the item writer of client_tcp.go, the ACK command of client.go,
--               and its parser of frame trailers
--   Store       internal/filexfer/store/store.go: transfers, their counters and the calls that
--               change them
--   IdSet       internal/idset/idset.go: sets of file ids, in two forms
--   Bufpool     internal/bufpool: bucket sizes and growing buffers
--   Aead        internal/aead/session.go: the record cipher of an encrypted session, and
--               the records of a message on the wire
--   Limit       internal/filexfer/limit/limit.go: the rate-limited writer of a file stream
--   Policy      internal/filexfer/policy/policy.go: the choice of the compression mode
--   Tests       the theorems at concrete inputs
--
-- How they interact: a client encodes its acknowledgements (Client/Items), cuts them into request
-- bodies (Client/Requests), and the server parses each line of a body (Ftcp/Items) to a record
-- (Ftcp/Ack), which it validates and hands to the store (Ftcp/Ack/Handle, Store/Acknowledge).
-- Client/AckRoundTrip joins both sides. A response body is cut into frames (Encoding/Frame) by a
-- writer and joined by a reader (Encoding/Body), whose payloads go through growing buffers (Bufpool);
-- on its way it passes a rate limit (Limit) and, in an encrypted session, is sealed as the records of a
-- message (Aead).
--
-- Correspondence: a Go string or byte slice is a list of byte values. A cursor is what is left of its
-- line. A Go function with an error result returns a Result; the error keeps the protocol code and
-- message where the server sends them. The map of a command's parameters is an association list. A
-- call of the store is one step from a store to a store, since it holds the transfer's lock; the time
-- it reads is an argument; a writer's clock is a function of the frame's offset. A slice that is merged
-- in place is rebuilt from its ends. The file that each definition stands in names its source.
--
-- Fuel: the loops over a line's options, a body's lines and trimming run on as many rounds as the
-- text has bytes, which is enough since each round takes at least one; the failure `stuck` stands
-- for a loop that ran out. The loops over a frame's tokens and a writer's buffer run on their lengths,
-- that of a growing buffer on the bytes and pieces that arrive, that of a body's frames on its bytes,
-- the wait of a limited write on its bytes, the reading of a message on a round for each record, and
-- the loops over the bits of a word on 64 rounds.
--
-- Not modelled: connections, files, goroutines and clocks, which are I/O; the hash, cipher and
-- compression libraries; statistics and test tooling; floating-point estimates; and panics and exhausted
-- memory, which a registered file id of 2^63 or more would lead to. Of the store,
-- path lookup, creation, deletion, expiry, limiters and page-cache hints are left out.
pub mod Base
pub mod Encoding
pub mod Ftcp
pub mod Client
pub mod Policy
pub mod Store
pub mod Tests
pub mod IdSet
pub mod Bufpool
pub mod Aead
pub mod Limit
