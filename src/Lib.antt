-- ===== src/Lib.antt =====
-- Verification of BridgeOS, a workspace that connects a user's devices: peers authenticate each other
-- over a framed stream, pair by comparing a short code, synchronise their clipboards, mirror
-- notifications and send files.
--
-- Files and the code that they model (paths from the repository's root, definitions under the names
-- of the Rust items):
--   Core            crates/bridge-core: versions, node ids, device types, capabilities, errors
--   Protocol        crates/bridge-protocol: Frame (frame.rs, handshake.rs), Codec (codec.rs)
--   Transport       crates/bridge-transport: framed.rs over an abstract byte stream
--   Clipboard       crates/bridge-clipboard: Content (types.rs), Policy (policy.rs), Guard (guard.rs),
--                   Backend (backend/mod.rs, backend/memory.rs), Engine (engine.rs)
--   Identity        crates/bridge-identity: Keys (keys.rs, error.rs), Trust (trust.rs), Pairing (pairing.rs)
--   Session         crates/bridge-session: state.rs, error.rs, PairingMessage (pairing_flow.rs), and of
--                   session.rs Handshake (the two handshakes), PairingFlow (execute_pairing and
--                   recv_data_frame) and FrameLoop (process_next_frame)
--   Transfer        crates/bridge-transfer: message.rs and error.rs, Messages (the wire messages), Memory,
--                   the parts of sender.rs, receiver.rs and manifest.rs that work in memory, and Disk,
--                   the receiver that writes a part file
--   Notifications   crates/bridge-notifications: Types (types.rs, error.rs), Policy (policy.rs), Guard
--                   (guard.rs), Engine (engine.rs)
--   Discovery       crates/bridge-discovery: Beacon (beacon.rs, error.rs), Directory (peer.rs), Udp
--                   (udp.rs), Unified (unified.rs)
--   Prelude         shared notation: byte strings, text, association lists, results, the state monad
--   Tests           test data and runs of the theorems on them
-- The theorems about a module stand in its child modules, named for what they show.
--
-- How the parts interact: a session (Session.Handshake) exchanges frames through the record
-- `Transport.Framed`, which `framed_stream` fills from the codec and a byte stream; it checks
-- signatures with Identity.Keys, asks Identity.Trust for its verdict, and carries the clipboard
-- engine. The engine encodes its messages as data frames of Protocol.Frame, asks Clipboard.Policy and
-- Clipboard.Guard, and drives a `ClipboardBackend`. The frame loop hands clipboard frames to that
-- engine and file offers to Transfer.Disk, for a trusted peer only; a pairing runs Identity.Pairing
-- over the same connection and writes Identity.Trust. The notification engine is fed by its caller,
-- and discovery stands alone: its worker turns datagrams into the directory of peers.
--
-- Conventions. A state is a record that is passed along; an operation that writes returns its result
-- with the new state, and what was written before an error stays written. Bytes and characters are
-- numbers, a text is its code points. A node id, a key, a hash or a nonce is a list of bytes, whose
-- length is stated where a theorem needs it. Integers wrap where the code's do (the sequence number
-- of the engine, the count of chunks). Every loop of the code is structural here; the exchange of a
-- file is run for a number of rounds, and its theorem says that more rounds than the file has chunks
-- are enough. The search for the next expected chunk runs on one round more than there are received
-- chunks, and the wait for a frame of one channel on fuel, whose end is the error `out_of_fuel` that the
-- code does not have; theorems show that enough fuel does not run out. The fresh random values, the
-- clock and the answer of the user are arguments.
--
-- Parameters: the serializer postcard (`Postcard`, `RoundTrips`), the primitives of ed25519-dalek,
-- sha2 and hex (`Crypto`, `IsSound`), blake3, the byte stream of tokio (`ByteStream`, `InOrder`), the
-- clipboard of the system (`ClipboardBackend`), the file system of tokio (`Files`, `WorkingFiles`),
-- `str::to_lowercase`, the daemon of mdns-sd, which browses or not, and the rest of the frames of a
-- connection being finite (`Drains`). A theorem that relies on what one of them documents takes that
-- as a hypothesis.
--
-- Not modelled: the text of error messages and of logs; locks and their poisoning, each call being
-- one step; the SQL engine itself, whose statements are written out on the table; the sender's file
-- source; the sockets and timers of discovery, and of its service over mDNS all but start and shutdown;
-- the backend for Windows, the command line tool and key files, which are input and output.
pub mod Prelude
pub mod Core
pub mod Protocol
pub mod Transport
pub mod Clipboard
pub mod Notifications
pub mod Discovery
pub mod Identity
pub mod Session
pub mod Transfer
pub mod Tests
