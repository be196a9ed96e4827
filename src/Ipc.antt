-- ===== src/Ipc.antt =====
-- crates/panora-core/src/ipc/v3.rs: frames of the daemon's protocol, version 3.
pub mod Delivery
mod Examples
pub mod Payloads
pub mod Reader
use panora.Prelude.{
  ℕ, zero, suc, ◌+◌, ◌*◌, ◌/◌, ◌%◌, ◌^◌, Bool, not, Option, none, some, List, [], ◌∷◌, ◌++◌, Bytes,
  length, take, drop, ltb, leb, if◌then◌else◌, Result, ok, err, ◌>>=◌, ◌>>◌, guard, ok_or,
}

abbrev pub inline_limit : ℕ
inline_limit = 8 * 1024

abbrev pub max_frame_bytes : ℕ
max_frame_bytes = 16 * 1024 * 1024

abbrev pub max_fds_per_frame : ℕ
max_fds_per_frame = 16

-- `Error::Ipc`.
pub data Error : Type 0 where
  ipc : Error

-- A file descriptor stands for the bytes that its memory file holds.
abbrev pub Fd : Type 0
Fd = Bytes

pub data PayloadRef : Type 0 where
  inline fd : ℕ → PayloadRef

-- The crate serde_json on a header: `FrameHeaderOut` to text, and text to `FrameHeaderIn`.
pub record Json (Body : Type 0) : Type 0 where
  pub to_vec : Body → List PayloadRef → Option Bytes
  pub from_slice : Bytes → Option (Body × List PayloadRef)

-- `to_le_bytes` of an unsigned integer of so many bytes, and `from_le_bytes`.
unfoldable pub le_bytes : ℕ → ℕ → Bytes
le_bytes zero n = []
le_bytes (suc width) n = n % 256 ∷ le_bytes width (n / 256)

unfoldable pub from_le : Bytes → ℕ
from_le [] = 0
from_le (b ∷ bs) = b + 256 * from_le bs

-- The loop of `build_frame` in three parts: what the header says of each payload, the bytes behind
-- it, and the files.
unfoldable pub refs_of : List Bytes → List PayloadRef
refs_of [] = []
refs_of (p ∷ ps) =
    (if leb (length p) inline_limit then inline (length p) else fd (length p)) ∷ refs_of ps

unfoldable pub inline_of : List Bytes → Bytes
inline_of [] = []
inline_of (p ∷ ps) = if leb (length p) inline_limit then p ++ inline_of ps else inline_of ps

unfoldable pub fds_of : List Bytes → List Fd
fds_of [] = []
fds_of (p ∷ ps) = if leb (length p) inline_limit then fds_of ps else p ∷ fds_of ps

unfoldable pub frame_bytes : Bytes → Bytes → Bytes
unfolding le_bytes
frame_bytes header blob =
    le_bytes 4 (length header) ++ (header ++ (le_bytes 4 (length blob) ++ blob))

unfoldable pub build_frame :
    {Body : Type 0} → Json Body → Body → List Bytes → Result Error (Bytes × List Fd)
unfolding refs_of inline_of fds_of frame_bytes
build_frame json body payloads = do
  guard (leb (length payloads) max_fds_per_frame) ipc
  header ← ok_or (json.to_vec body (refs_of payloads)) ipc
  guard (leb (length header + length (inline_of payloads)) max_frame_bytes) ipc
  ok (frame_bytes header (inline_of payloads), fds_of payloads)

-- `Read::take(len).read_to_end` on a file that is rewound.
abbrev pub read_fd : ℕ → Fd → Bytes
read_fd len file = take len file

-- `cursor` is what is left of the inline bytes.
unfoldable pub assemble_payloads : List PayloadRef → Bytes → List Fd → Result Error (List Bytes)
assemble_payloads [] blob fds = ok []
assemble_payloads (inline len ∷ refs) blob fds = do
  guard (leb len (length blob)) ipc
  rest ← assemble_payloads refs (drop len blob) fds
  ok (take len blob ∷ rest)
assemble_payloads (fd len ∷ refs) blob [] = err ipc
assemble_payloads (fd len ∷ refs) blob (file ∷ fds) = do
  rest ← assemble_payloads refs blob fds
  ok (read_fd len file ∷ rest)

-- `server::decode` before `restore`.
unfoldable pub decode :
    {Body : Type 0} → Json Body → Bytes → Bytes → List Fd → Result Error (Body × List Bytes)
unfolding assemble_payloads
decode json header blob fds = do
  (body, refs) ← ok_or (json.from_slice header) ipc
  payloads ← assemble_payloads refs blob fds
  ok (body, payloads)
