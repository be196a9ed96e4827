-- ===== src/Ipc/Delivery.antt =====
-- v3.rs: what `build_frame` writes, `FrameReader` and `decode` give back.
use panora.Prelude.{
  ◌+◌, ◌≤◌, ◌<◌, ok-pair-injective, ◌≡◌, refl, ap, subst, Option, none, some, List, [], ◌∷◌, ◌++◌,
  append-nil, Bytes, length, leb, arith, Result, ok, >>-eq-ok, >>=-eq-ok, ok_or, guard,
}
use panora.Ipc.{
  Error, ipc, Fd, PayloadRef, Json, max_fds_per_frame, max_frame_bytes, refs_of, inline_of, fds_of,
  frame_bytes, build_frame, decode,
}
use panora.Ipc.Payloads.{assemble_payloads-refs_of}
use panora.Ipc.Reader.{
  FramePoll, ready, len, Stream, bytes_of, riding, Attempt, new_reader, drive, plain, wire, reads,
}
use panora.Ipc.Reader.Pieces.{OnWay, drive-Arrives}

-- What serde_json documents of a type that both traits are derived for: what was written reads back.
abbrev pub ReadsBack : {Body : Type 0} → Json Body → Type 0
ReadsBack {Body} json =
    (body : Body) (refs : List PayloadRef) (text : Bytes)
    → json.to_vec body refs ≡ some text
    → json.from_slice text ≡ some (body, refs)

-- A frame that is there, decoded, with what is left in the socket.
unfoldable pub received :
    {Body : Type 0}
    → Json Body
    → FramePoll × Stream
    → Option (Result Error (Body × List Bytes) × Stream)
received json (ready header blob fds, s) = some (decode json header blob fds, s)
received json (_, s) = none

bytes_of-plain : (bs : Bytes) → bytes_of (plain bs) ≡ bs
bytes_of-plain [] = refl
bytes_of-plain (b ∷ bs) = rw (bytes_of-plain bs) refl

riding-plain : (bs : Bytes) → riding (plain bs) ≡ []
riding-plain [] = refl
riding-plain (b ∷ bs) = riding-plain bs

length-plain : (bs : Bytes) → length (plain bs) ≡ length bs
length-plain [] = refl
length-plain (b ∷ bs) = omega (arith, length-plain bs)

wire-parts :
    (bs : Bytes) (fds : List Fd)
    → 0 < length bs
    → (bytes_of (wire bs fds) ≡ bs)
      × (riding (wire bs fds) ≡ fds)
      × (length (wire bs fds) ≡ length bs)
unfolding wire
wire-parts [] fds h = absurd (omega arith)
wire-parts (b ∷ bs) fds h = (
  rw (bytes_of-plain bs) refl,
  rw (riding-plain bs) (append-nil fds),
  omega (arith, length-plain bs),
)

-- If headers read back as they were written and `build_frame` made a frame, then a `FrameReader`
-- that is polled often enough, in whatever pieces the kernel gives the bytes and however often a
-- read would block, assembles the frame, leaves every byte behind it in the socket, and `decode`
-- gives the body and all payloads in order, those inline and those in files.
pub drive-build_frame :
    {Body : Type 0} (json : Json Body) (body : Body) (payloads : List Bytes) (bytes : Bytes)
    (fds : List Fd) (attempts : List Attempt) (more : Stream)
    → ReadsBack json
    → build_frame json body payloads ≡ ok (bytes, fds)
    → length bytes + 4 ≤ reads attempts
    → received json (drive attempts new_reader (wire bytes fds ++ more))
      ≡ some (ok (body, payloads), more)
unfolding build_frame received new_reader decode
drive-build_frame json body payloads bytes fds attempts more back e enough =
    let blob : Bytes = inline_of payloads in
    let (a, e1) = >>-eq-ok (guard (leb (length payloads) max_fds_per_frame) ipc) _ e in
    let (header, f, e2) = >>=-eq-ok (ok_or (json.to_vec body (refs_of payloads)) ipc) _ e1 in
    let (b, e3) = >>-eq-ok (guard (leb (length header + length blob) max_frame_bytes) ipc) _ e2 in
    let small : length header + length blob ≤ max_frame_bytes = ground (arith, b) in
    let (same_bytes, same_fds) =
      ok-pair-injective (frame_bytes header blob) bytes (fds_of payloads) fds e3 in
    let full : 4 ≤ length (frame_bytes header blob) = frame-long header blob in
    let (parts, rides, size) =
      wire-parts (frame_bytes header blob) (fds_of payloads) (omega (arith, full)) in
    let way : OnWay header blob (fds_of payloads) small more (len []) []
        (wire (frame_bytes header blob) (fds_of payloads)) =
      record { expects = tt; within = omega arith; bytes = parts; files = rides } in
    let got =
      drive-Arrives header blob (fds_of payloads) small more attempts new_reader
        (wire (frame_bytes header blob) (fds_of payloads)) way
        (omega (arith, size, enough, ap length same_bytes)) in
    let parsed : json.from_slice header ≡ some (body, refs_of payloads) =
      back body (refs_of payloads) header (ground (arith, f)) in
    subst
      (λ (x : Bytes).
        received json (drive attempts new_reader (wire x fds ++ more))
        ≡ some (ok (body, payloads), more))
      same_bytes
      (subst
        (λ (x : List Fd).
          received json (drive attempts new_reader (wire (frame_bytes header blob) x ++ more))
          ≡ some (ok (body, payloads), more))
        same_fds (rw got (rw parsed (rw (assemble_payloads-refs_of payloads) refl))))
  where
    frame-long : (h b : Bytes) → 4 ≤ length (frame_bytes h b)
    frame-long h b = omega arith
