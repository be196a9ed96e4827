-- ===== src/Ipc/Examples.antt =====
-- A frame with two inline payloads, read in pieces of two bytes.
use panora.Prelude.{
  ℕ, zero, suc, ◌≡◌, refl, ap, sym, ◌∙◌, Option, none, some, List, [], ◌∷◌, ◌++◌, Bytes, ok, err,
  arith,
}
use panora.Ipc.{PayloadRef, inline, fd, Json, build_frame, assemble_payloads, ipc}
use panora.Ipc.Reader.{Attempt, blocked, at_most, new_reader, drive, wire, closed, failed}
use panora.Ipc.Delivery.{ReadsBack, received, drive-build_frame}

abbrev print : List PayloadRef → Bytes
print [] = []
print (inline n ∷ refs) = 0 ∷ n ∷ print refs
print (fd n ∷ refs) = 1 ∷ n ∷ print refs

abbrev ref_of : ℕ → ℕ → PayloadRef
ref_of zero n = inline n
ref_of (suc k) n = fd n

abbrev parse : Bytes → List PayloadRef
parse (k ∷ n ∷ bs) = ref_of k n ∷ parse bs
parse _ = []

abbrev parse_header : Bytes → Option (ℕ × List PayloadRef)
parse_header [] = none
parse_header (b ∷ bs) = some (b, parse bs)

-- A body is one byte.
abbrev toy : Json ℕ
toy = record { to_vec = λ b refs. some (b ∷ print refs); from_slice = parse_header }

parse-print : (refs : List PayloadRef) → parse (print refs) ≡ refs
parse-print [] = refl
parse-print (inline n ∷ refs) = ap (λ (r : List PayloadRef). inline n ∷ r) (parse-print refs)
parse-print (fd n ∷ refs) = ap (λ (r : List PayloadRef). fd n ∷ r) (parse-print refs)

toy-ReadsBack : ReadsBack toy
toy-ReadsBack body refs text e =
    let same : body ∷ print refs ≡ text = cc in
    ap parse_header (sym same) ∙ ap (λ (r : List PayloadRef). some (body, r)) (parse-print refs)

-- Every second attempt would block.
abbrev slowly : ℕ → List Attempt
slowly zero = []
slowly (suc n) = blocked ∷ at_most 1 ∷ slowly n

abbrev payloads : List Bytes
payloads = (104 ∷ 105 ∷ []) ∷ [] ∷ []

abbrev frame : Bytes
frame = 5 ∷ 0 ∷ 0 ∷ 0 ∷ 7 ∷ 0 ∷ 2 ∷ 0 ∷ 0 ∷ 2 ∷ 0 ∷ 0 ∷ 0 ∷ 104 ∷ 105 ∷ []

frame-build_frame : build_frame toy 7 payloads ≡ ok (frame, [])
unfolding build_frame
frame-build_frame = refl

drive-build_frame_example :
    received toy (drive (slowly 20) new_reader (wire frame [] ++ (80, []) ∷ []))
    ≡ some (ok (7, payloads), (80, []) ∷ [])
drive-build_frame_example =
    drive-build_frame toy 7 payloads frame [] (slowly 20) ((80, []) ∷ []) toy-ReadsBack
      frame-build_frame (omega arith)

-- A peer that goes away in the middle of a frame.
test_closed : drive (slowly 20) new_reader (wire (5 ∷ 0 ∷ 0 ∷ []) []) ≡ (closed, [])
unfolding drive new_reader wire
test_closed = refl

-- A header of 2^24 + 1 bytes is refused before it is read.
test_failed : drive (slowly 20) new_reader (wire (1 ∷ 0 ∷ 0 ∷ 1 ∷ []) []) ≡ (failed, [])
unfolding drive new_reader wire
test_failed = refl

-- A payload that the frame names and no descriptor holds.
test_missing : assemble_payloads (fd 9000 ∷ []) [] [] ≡ err ipc
unfolding assemble_payloads
test_missing = refl
