-- ===== src/Lib.antt =====
-- Panora is a clipboard manager: a daemon (crates/panod) stores what the clipboard offers in an
-- encrypted history (crates/panora-core) and a sync service (crates/panora-sync) exchanges it
-- between devices.
--
-- Model (crates/panora-core/src/model.rs): selections, content kinds and their stored names,
--   payloads.
-- Crypto (crates/panora-core/src/storage/crypto.rs): the versioned envelope around an AEAD, and hex
--   texts (Crypto/Hex); Crypto/Envelope proves what opening gives after sealing.
-- BlobStore (crates/panora-core/src/storage/blob.rs): payload files under the hash of their
--   content. Intact is about put and get, Rotation about `rekey`.
-- Sync (crates/panora-core/src/sync.rs): records, scopes and the rule for conflicts (Order).
-- History (crates/panora-core/src/storage/db.rs): the tables of the history as lists of rows
--   (Defs), the operations on entries (Entries), on blob references and purges (Blobs), the limits
--   (Retention), the Lamport clock and the change feed (Feed), and the keys of `meta`, re-encryption
--   and the wipe (Keyring). Each function has the name of the method of `Database` that it models.
--   The other modules hold laws: of lookups and unique keys (Rows), of the change counter
--   (Sequence), of the table invariant per statement (Validity, Keeps, Resealed) and over sequences of calls
--   (Calls), of the limits (Bounds, Bytes, Pinned), of captures and touches (Placement), of the feed
--   (Resume) and the clock (Clock), of freed blobs (Orphans), of undo and rotation (Undo).
--
-- Daemon (crates/panod/src/daemon.rs): the operations that use both the database and the blob store:
--   `set_pinned` (pin), `delete`, `restore` (undo_delete) and `collect_garbage` in Daemon.antt,
--   `store` in Store, `apply_record` and `sync_apply` in Peers, `sync_changes` in Changes. Garbage is
--   about relations that `collect_garbage` keeps, Carries about the steps on one entry, Entered about
--   `store`, Winner and LastWriter about `apply_record`, Pages and FeedEnds about `sync_changes`. The
--   privacy gate, the kind, text and preview of a capture, the detection of secrets and thumbnails are
--   functions of the record `Host`.
--
-- Rosters (crates/panora-sync/src/group.rs, bytes.rs): the rosters of a sync group and `Roster::body`,
--   the bytes that are hashed and signed. Names holds the checks on device ids and names, Frames the
--   laws of `put`, Canonical those of the body. The derived key of blake3 and the check of a signature
--   are functions of the record `Crates`.
-- Group (crates/panora-sync/src/group.rs): `verify`, `check_successor` (Successor), `fork_winner`
--   (Forks) and `changes_to_reapply` (Reapply). `Roster::member` searches a sorted list by halving;
--   the model searches it from the front, which is the same on sorted members (Lookup). State holds `GroupState` and what a single key or roster
--   does to it, Membership the changes that this device makes, Chains `apply_chain`. Linked and Valid
--   say what a state is that loads, Checks which errors a call can give, Upkeep, Arrivals and Loads that
--   every call leaves such a state, Rotation what `remove_member` takes away, Additions and Joins what
--   `add_member` leaves for the device that joins. Errors carry their kind
--   and no text; an `expect` or an index out of range is the error `panicked`. What is drawn at random
--   is an argument.
--
-- Ipc (crates/panora-core/src/ipc/v3.rs): frames of the daemon's protocol: `build_frame`,
--   `assemble_payloads` and `decode` in Ipc.antt, `FrameReader` in Ipc/Reader. A socket is a list of
--   bytes with the descriptors that ride on each, and the kernel's choices are a list of attempts.
--   Payloads is about the payloads of a frame, Reader/Pieces about a frame that arrives in pieces,
--   Delivery about both.
-- Channel (crates/panora-sync/src/frame.rs): frames between two devices; Frames is about `read` after
--   `write`. JSON texts are the work of serde_json, a parameter of both.
-- Pairing (crates/panora-sync/src/pairing.rs, invite.rs): how a device joins a group. Pairing.antt
--   holds the messages and the keys of a session, Window invitations and the window in which a device
--   is accepted, Joiner and Inviter the two sides; Runs lets both exchange their messages. Steps is
--   about each message, Meeting about the introduction, Welcome and Admission about the admission,
--   Attempts about how many devices may try. Link is the text of an invitation: Pieces is about its
--   fields, Decimals about the expiry, Trip about reading it back; base64 and the text of a socket
--   address are functions of the record `Texts`. A call gives the new state of its side and a result;
--   what is drawn at random is an argument; X25519 and JSON are functions of the record `Primitives`.
-- Privacy (crates/panora-core/src/privacy.rs): whether a copy may be read, judged before its payloads
--   are. Letters is about ASCII case, Parts about searches, Gate about `evaluate`, Exclusions about
--   the applications of `new`. Texts are lists of code points here, and the lower case of a character
--   that is not ASCII is an argument. The filters of `evaluate_content`, which the engine keeps too,
--   are left out.
--
-- Times, ids, counters and sizes are natural numbers; texts are lists of bytes, but for the names
-- of devices, which are lists of code points. A failure
-- of SQLite itself is not modelled; a statement that changes no row, a foreign key that is missing
-- and a cipher that fails are. The cipher is a parameter. The loop of `enforce_total_bytes` keeps
-- `u64::saturating_add`. Loops run over lists, but for the outer loop of `sync_changes`, which
-- runs on fuel: more than the number of rows is enough. A frame reader is polled once for each
-- attempt; four more attempts that give bytes than the frame has bytes are enough. The clock
-- stands still during one operation of the daemon, and an operation that fails is its error alone:
-- what it had written before that is left out.
--
-- Not modelled: the clipboard backends, D-Bus and socket services, the graphical interface and the
-- command line, which are input and output; the cryptography, which third-party crates do.
mod Prelude
pub mod Model
pub mod Crypto
pub mod BlobStore
pub mod History
pub mod Sync
pub mod Daemon
pub mod Group
pub mod Ipc
pub mod Channel
pub mod Pairing
pub mod Privacy
pub mod Rosters
