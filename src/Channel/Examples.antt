-- ===== src/Channel/Examples.antt =====
-- A frame with one blob, and frames that `read` refuses.
use panora.Prelude.{ℕ, ◌≡◌, refl, Option, none, some, [], ◌∷◌, ◌++◌, Bytes, ok, err, arith}
use panora.Channel.{Json, protocol, io, write, read}
use panora.Channel.Frames.{ReadsBack, read-write}

abbrev only : Bytes → Option ℕ
only (b ∷ []) = some b
only _ = none

-- A message is one byte.
abbrev toy : Json ℕ
toy = record { to_vec = λ m. some (m ∷ []); from_slice = only }

toy-ReadsBack : ReadsBack toy
toy-ReadsBack m text e = ground arith

abbrev frame : Bytes
frame = 0 ∷ 0 ∷ 0 ∷ 1 ∷ 7 ∷ 0 ∷ 0 ∷ 0 ∷ 1 ∷ 0 ∷ 0 ∷ 0 ∷ 2 ∷ 104 ∷ 105 ∷ []

frame-write : write toy 7 ((104 ∷ 105 ∷ []) ∷ []) ≡ ok frame
unfolding write
frame-write = refl

read-write_example : read toy 3 (frame ++ 80 ∷ []) ≡ ok ((7, (104 ∷ 105 ∷ []) ∷ []), 80 ∷ [])
read-write_example =
    read-write toy 7 ((104 ∷ 105 ∷ []) ∷ []) 3 frame (80 ∷ []) toy-ReadsBack frame-write
      (omega arith)

-- The budget covers the message and its blobs.
test_large : read toy 2 frame ≡ err protocol
unfolding read
test_large = refl

test_short : read toy 9 (0 ∷ 0 ∷ 0 ∷ 1 ∷ []) ≡ err io
unfolding read
test_short = refl
