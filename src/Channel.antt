-- ===== src/Channel.antt =====
-- crates/panora-sync/src/frame.rs: frames of the channel between two devices.
pub mod Frames
mod Examples
use panora.Prelude.{
  ℕ, zero, suc, ◌+◌, ◌-◌, ◌*◌, ◌^◌, Bool, not, Option, none, some, List, [], ◌∷◌, ◌++◌, Bytes,
  length, take, drop, ltb, leb, if◌then◌else◌, Result, ok, err, ◌>>=◌, ◌>>◌, guard, ok_or,
}
use panora.Rosters.{be_bytes}

abbrev pub max_blobs : ℕ
max_blobs = 64

-- `io` stands for a stream that ends early.
pub data Error : Type 0 where
  protocol json io : Error

-- The crate serde_json on a message.
pub record Json (Message : Type 0) : Type 0 where
  pub to_vec : Message → Option Bytes
  pub from_slice : Bytes → Option Message

-- `from_be_bytes`.
unfoldable pub from_be_after : ℕ → Bytes → ℕ
from_be_after acc [] = acc
from_be_after acc (b ∷ bs) = from_be_after (acc * 256 + b) bs

unfoldable pub len32 : ℕ → Result Error ℕ
len32 n = if ltb n (2 ^ 32) then ok n else err protocol

-- The length, then the bytes.
unfoldable pub write_chunk : Bytes → Result Error Bytes
unfolding len32 be_bytes
write_chunk chunk = do n ← len32 (length chunk); ok (be_bytes 4 n ++ chunk)

unfoldable pub write_blobs : List Bytes → Result Error Bytes
unfolding write_chunk
write_blobs [] = ok []
write_blobs (blob ∷ blobs) = do out ← write_chunk blob; rest ← write_blobs blobs; ok (out ++ rest)

-- What a frame that is written whole puts on the stream.
unfoldable pub write : {Message : Type 0} → Json Message → Message → List Bytes → Result Error Bytes
unfolding write_blobs
write serde message blobs = do
  guard (leb (length blobs) max_blobs) protocol
  text ← ok_or (serde.to_vec message) json
  head ← write_chunk text
  tail ← write_blobs blobs
  ok (head ++ (be_bytes 4 (length blobs) ++ tail))

-- The bytes that a read takes from the stream, and the stream behind them.
unfoldable pub read_exact : ℕ → Bytes → Result Error (Bytes × Bytes)
read_exact n s = if ltb (length s) n then err io else ok (take n s, drop n s)

unfoldable pub read_u32 : Bytes → Result Error (ℕ × Bytes)
unfolding read_exact from_be_after
read_u32 s = do (b, s) ← read_exact 4 s; ok (from_be_after 0 b, s)

abbrev pub Budgeted : Type 0 → Type 0
Budgeted A = A × ℕ × Bytes

-- A chunk, what is left of the budget, and of the stream.
unfoldable pub read_chunk : ℕ → Bytes → Result Error (Budgeted Bytes)
unfolding read_u32
read_chunk budget s = do
  (n, s) ← read_u32 s
  guard (leb n budget) protocol
  (chunk, s) ← read_exact n s
  ok (chunk, budget - n, s)

unfoldable pub read_chunks : ℕ → ℕ → Bytes → Result Error (Budgeted (List Bytes))
unfolding read_chunk
read_chunks zero budget s = ok ([], budget, s)
read_chunks (suc count) budget s = do
  (blob, budget, s) ← read_chunk budget s
  (blobs, budget, s) ← read_chunks count budget s
  ok (blob ∷ blobs, budget, s)

unfoldable pub read :
    {Message : Type 0} → Json Message → ℕ → Bytes → Result Error ((Message × List Bytes) × Bytes)
unfolding read_chunks
read serde max_bytes s = do
  (text, budget, s) ← read_chunk max_bytes s
  message ← ok_or (serde.from_slice text) json
  (count, s) ← read_u32 s
  guard (leb count max_blobs) protocol
  (blobs, budget, s) ← read_chunks count budget s
  ok ((message, blobs), s)
