-- ===== src/Ipc/Reader.antt =====
-- v3.rs, `server::FrameReader`: a frame that arrives in pieces.
pub mod Pieces
pub mod Streams
use panora.Prelude.{
  ℕ, suc, ◌+◌, ◌-◌, Bool, true, false, List, [], ◌∷◌, ◌++◌, map, Bytes, length, take, drop, ltb,
  min, if◌then◌else◌,
}
use panora.Ipc.{Fd, max_frame_bytes, from_le}

pub data Stage : Type 0 where
  len : Bytes → Stage
  header : ℕ → Bytes → Stage
  inline_len : Bytes → Bytes → Stage
  inline : Bytes → ℕ → Bytes → Stage
  done : Stage

pub record FrameReader : Type 0 where
  pub stage : Stage
  pub fds : List Fd

-- `failed` is the error of a frame that is too large, `again` that of a read that would block.
pub data FramePoll : Type 0 where
  pending again closed failed : FramePoll
  ready : Bytes → Bytes → List Fd → FramePoll

-- A socket: the bytes that are to come, each with the descriptors that ride on it.
abbrev pub Stream : Type 0
Stream = List (ℕ × List Fd)

abbrev pub bytes_of : Stream → Bytes
bytes_of [] = []
bytes_of ((b, fds) ∷ s) = b ∷ bytes_of s

abbrev pub riding : Stream → List Fd
riding [] = []
riding ((b, fds) ∷ s) = fds ++ riding s

-- What the kernel does with a `recvmsg`: it would block, or gives this many bytes and one more,
-- but no more than the caller asks for and the peer has sent.
pub data Attempt : Type 0 where
  blocked : Attempt
  at_most : ℕ → Attempt

unfoldable pub new_reader : FrameReader
new_reader = record { stage = len []; fds = [] }

abbrev pub target : Stage → ℕ
target (len buf) = 4
target (header n buf) = n
target (inline_len h buf) = 4
target (inline h n buf) = n
target done = 0

abbrev pub buf_of : Stage → Bytes
buf_of (len buf) = buf
buf_of (header n buf) = buf
buf_of (inline_len h buf) = buf
buf_of (inline h n buf) = buf
buf_of done = []

abbrev pub with_buf : Bytes → Stage → Stage
with_buf b (len buf) = len b
with_buf b (header n buf) = header n b
with_buf b (inline_len h buf) = inline_len h b
with_buf b (inline h n buf) = inline h n b
with_buf b done = done

-- The bytes of a stage are complete.
unfoldable pub advance : Stage → List Fd → FrameReader × FramePoll
unfolding from_le
advance (len buf) fds =
    if ltb max_frame_bytes (from_le buf)
    then (record { stage = done; fds = fds }, failed)
    else (record { stage = header (from_le buf) []; fds = fds }, pending)
advance (header n buf) fds = (record { stage = inline_len buf []; fds = fds }, pending)
advance (inline_len h buf) fds =
    if ltb max_frame_bytes (length h + from_le buf)
    then (record { stage = done; fds = fds }, failed)
    else (record { stage = inline h (from_le buf) []; fds = fds }, pending)
advance (inline h n buf) fds = (record { stage = done; fds = [] }, ready h buf fds)
advance done fds = (record { stage = done; fds = fds }, pending)

abbrev pub Polled : Type 0
Polled = (FrameReader × FramePoll) × Stream

-- The bytes that one read gave go behind those that were there.
unfoldable pub receive : Stage → List Fd → Stream → Stream → Polled
unfolding advance
receive st fds [] rest = ((record { stage = st; fds = fds }, closed), rest)
receive st fds (x ∷ chunk) rest =
    let st' = with_buf (buf_of st ++ bytes_of (x ∷ chunk)) st in
    let fds' = fds ++ riding (x ∷ chunk) in
    if ltb (length (buf_of st')) (target st')
    then ((record { stage = st'; fds = fds' }, pending), rest)
    else (advance st' fds', rest)

unfoldable pub attempt_read : Attempt → Stage → List Fd → Stream → Polled
unfolding receive
attempt_read blocked st fds s = ((record { stage = st; fds = fds }, again), s)
attempt_read (at_most k) st fds s =
    let n = min (target st - length (buf_of st)) (suc k) in receive st fds (take n s) (drop n s)

unfoldable pub poll_once : Attempt → FrameReader → Stream → Polled
unfolding advance attempt_read
poll_once a r s =
    if ltb (length (buf_of r.stage)) (target r.stage)
    then attempt_read a r.stage r.fds s
    else (advance r.stage r.fds, s)

-- The caller polls until the frame is there, the peer has gone or the frame is refused.
abbrev pub onward : FramePoll → Stream → FramePoll × Stream → FramePoll × Stream
onward pending s rest = rest
onward again s rest = rest
onward p s rest = (p, s)

unfoldable pub drive : List Attempt → FrameReader → Stream → FramePoll × Stream
unfolding poll_once
drive [] r s = (pending, s)
drive (a ∷ attempts) r s = let ((r', p), s') = poll_once a r s in onward p s' (drive attempts r' s')

-- The descriptors of a frame ride on its first byte.
abbrev pub plain : Bytes → Stream
plain [] = []
plain (b ∷ bs) = (b, []) ∷ plain bs

unfoldable pub wire : Bytes → List Fd → Stream
wire [] fds = []
wire (b ∷ bs) fds = (b, fds) ∷ plain bs

-- How often the kernel gives bytes.
abbrev pub reads : List Attempt → ℕ
reads [] = 0
reads (blocked ∷ attempts) = reads attempts
reads (at_most k ∷ attempts) = suc (reads attempts)
