-- ===== src/Ipc/Reader/Pieces.antt =====
-- v3.rs, `server::FrameReader`: the pieces in which a frame arrives do not matter.
use panora.Prelude.{
  ℕ, suc, ◌+◌, ◌-◌, ◌^◌, ◌≤◌, ◌<◌, ◌≡◌, refl, sym, ◌∙◌, ap, subst, false, List, [], ◌∷◌, ◌++◌,
  append-nil, append_assoc, Bytes, length, length-append, append-injective, length-take, ltb→lt,
  ltb→ge, take, drop, take-append-drop, ltb, min, arith, Bool-cases, inl, inr, ◌⊎◌,
}
use panora.Ipc.{Fd, max_frame_bytes, le_bytes, from_le}
use panora.Ipc.Payloads.{length-le_bytes, from_le-le_bytes}
use panora.Ipc.Reader.Streams.{bytes_of-append, riding-append, length-bytes_of, take-within}
use panora.Ipc.Reader.{
  Stage, len, inline_len, done, FrameReader, pending, again, closed, failed, ready, Stream,
  bytes_of, riding, Attempt, blocked, at_most, target, buf_of, with_buf, advance, Polled, receive,
  attempt_read, poll_once, onward, drive, reads,
}

-- A reader that is in the middle of one frame, of which `s` is still to come.
module _ (head blob : Bytes) (fds : List Fd) (small : length head + length blob ≤ max_frame_bytes)
    (more : Stream) where
  abbrev pub field : Stage → Bytes
  field (len buf) = le_bytes 4 (length head)
  field (Stage.header n buf) = head
  field (inline_len h buf) = le_bytes 4 (length blob)
  field (Stage.inline h n buf) = blob
  field done = []

  abbrev pub rest : Stage → Bytes
  rest (len buf) = head ++ (le_bytes 4 (length blob) ++ blob)
  rest (Stage.header n buf) = le_bytes 4 (length blob) ++ blob
  rest (inline_len h buf) = blob
  rest _ = []

  abbrev pub Expects : Stage → Type 0
  Expects (len buf) = Unit
  Expects (Stage.header n buf) = n ≡ length head
  Expects (inline_len h buf) = h ≡ head
  Expects (Stage.inline h n buf) = (h ≡ head) × (n ≡ length blob)
  Expects done = ⊥

  abbrev pub rank : Stage → ℕ
  rank (len buf) = 4
  rank (Stage.header n buf) = 3
  rank (inline_len h buf) = 2
  rank (Stage.inline h n buf) = 1
  rank done = 0

  pub record OnWay (st : Stage) (held : List Fd) (s : Stream) : Type 0 where
    pub expects : Expects st
    pub within : length (buf_of st) ≤ target st
    pub bytes : buf_of st ++ bytes_of s ≡ field st ++ rest st
    pub files : held ++ riding s ≡ fds

  field-target : (st : Stage) → Expects st → length (field st) ≡ target st
  field-target (len buf) e = length-le_bytes 4 (length head)
  field-target (Stage.header n buf) e = sym e
  field-target (inline_len h buf) e = length-le_bytes 4 (length blob)
  field-target (Stage.inline h n buf) e = sym e.1
  field-target done e = absurd e

  -- One poll brings the frame nearer, or hands it over and leaves what is behind it.
  abbrev Goes : ℕ → Polled → Type 0
  Goes μ ((r, pending), s) =
      (t : Stream) × (s ≡ t ++ more) × OnWay r.stage r.fds t × (length t + rank r.stage < μ)
  Goes μ ((r, ready h b f), s) = (h ≡ head) × (b ≡ blob) × (f ≡ fds) × (s ≡ more)
  Goes μ ((r, _), s) = ⊥

  no_bytes : (t : Stream) → bytes_of t ≡ [] → t ≡ []
  no_bytes [] e = refl
  no_bytes (x ∷ t) e = absurd cc

  complete_parts :
      (st : Stage) (held : List Fd) (t : Stream)
      → OnWay st held t
      → length (buf_of st) ≡ target st
      → (buf_of st ≡ field st) × (bytes_of t ≡ rest st)
  complete_parts st held t w full =
      append-injective (buf_of st) (field st) (bytes_of t) (rest st)
        (full ∙ sym (field-target st w.expects)) w.bytes

  length-of_buf : (n : ℕ) (buf : Bytes) → n < 256 ^ 4 → buf ≡ le_bytes 4 n → from_le buf ≡ n
  length-of_buf n buf h e = ap from_le e ∙ from_le-le_bytes 4 n h

  complete-Goes :
      (st : Stage) (held : List Fd) (t : Stream)
      → OnWay st held t
      → length (buf_of st) ≡ target st
      → Goes (length t + rank st) (advance st held, t ++ more)
  unfolding advance
  complete-Goes (len buf) held t w full =
      let (same, left) = complete_parts (len buf) held t w full in
      let n : from_le buf ≡ length head =
        length-of_buf (length head) buf (omega (arith, small)) same in
      let fits : ltb max_frame_bytes (from_le buf) ≡ false = ground (arith, n, small) in
      rw fits (
        t,
        refl,
        record { expects = n; within = omega arith; bytes = left; files = w.files },
        omega arith,
      )
  complete-Goes (Stage.header n buf) held t w full =
      let (same, left) = complete_parts (Stage.header n buf) held t w full in
      (
        t,
        refl,
        record { expects = same; within = omega arith; bytes = left; files = w.files },
        omega arith,
      )
  complete-Goes (inline_len h buf) held t w full =
      let (same, left) = complete_parts (inline_len h buf) held t w full in
      let n : from_le buf ≡ length blob =
        length-of_buf (length blob) buf (omega (arith, small)) same in
      let h_len : length h ≡ length head = ap length w.expects in
      let fits : ltb max_frame_bytes (length h + from_le buf) ≡ false =
        ground (arith, n, h_len, small) in
      rw fits (
        t,
        refl,
        record {
          expects = (w.expects, n);
          within = omega arith;
          bytes = left ∙ sym (append-nil blob);
          files = w.files;
        },
        omega arith,
      )
  complete-Goes (Stage.inline h n buf) held t w full =
      let (same, left) = complete_parts (Stage.inline h n buf) held t w full in
      let over : t ≡ [] = no_bytes t left in
      (
        w.expects.0,
        same,
        sym (append-nil held) ∙ ap (λ (s : Stream). held ++ riding s) (sym over) ∙ w.files,
        ap (λ (s : Stream). s ++ more) over,
      )
  complete-Goes done held t w full = absurd w.expects

  with_buf-OnWay :
      (st : Stage) (held : List Fd) (c t : Stream)
      → OnWay st held (c ++ t)
      → length (buf_of st) + length c ≤ target st
      → OnWay (with_buf (buf_of st ++ bytes_of c) st) (held ++ riding c) t
        × (rank (with_buf (buf_of st ++ bytes_of c) st) ≡ rank st)
        × (buf_of (with_buf (buf_of st ++ bytes_of c) st) ≡ buf_of st ++ bytes_of c)
        × (target (with_buf (buf_of st ++ bytes_of c) st) ≡ target st)
  with_buf-OnWay st held c t w room = moved st w room
    where
      bytes :
          (b : Bytes) (f : Bytes) → b ++ bytes_of (c ++ t) ≡ f → (b ++ bytes_of c) ++ bytes_of t ≡ f
      bytes b f e =
          append_assoc b (bytes_of c) (bytes_of t)
          ∙ ap (λ (x : Bytes). b ++ x) (sym (bytes_of-append c t))
          ∙ e

      files : held ++ riding (c ++ t) ≡ fds → (held ++ riding c) ++ riding t ≡ fds
      files e =
          append_assoc held (riding c) (riding t)
          ∙ ap (λ (x : List Fd). held ++ x) (sym (riding-append c t))
          ∙ e

      size : (b : Bytes) (n : ℕ) → length b + length c ≤ n → length (b ++ bytes_of c) ≤ n
      size b n h = omega (arith, length-append b (bytes_of c), length-bytes_of c)

      moved :
          (st : Stage)
          → OnWay st held (c ++ t)
          → length (buf_of st) + length c ≤ target st
          → OnWay (with_buf (buf_of st ++ bytes_of c) st) (held ++ riding c) t
            × (rank (with_buf (buf_of st ++ bytes_of c) st) ≡ rank st)
            × (buf_of (with_buf (buf_of st ++ bytes_of c) st) ≡ buf_of st ++ bytes_of c)
            × (target (with_buf (buf_of st ++ bytes_of c) st) ≡ target st)
      moved (len buf) w room = (
        record {
          expects = w.expects;
          within = size buf 4 room;
          bytes = bytes buf _ w.bytes;
          files = files w.files;
        },
        refl,
        refl,
        refl,
      )
      moved (Stage.header n buf) w room = (
        record {
          expects = w.expects;
          within = size buf n room;
          bytes = bytes buf _ w.bytes;
          files = files w.files;
        },
        refl,
        refl,
        refl,
      )
      moved (inline_len h buf) w room = (
        record {
          expects = w.expects;
          within = size buf 4 room;
          bytes = bytes buf _ w.bytes;
          files = files w.files;
        },
        refl,
        refl,
        refl,
      )
      moved (Stage.inline h n buf) w room = (
        record {
          expects = w.expects;
          within = size buf n room;
          bytes = bytes buf _ w.bytes;
          files = files w.files;
        },
        refl,
        refl,
        refl,
      )
      moved done w room = absurd w.expects

  weaker : (μ ν : ℕ) (r : Polled) → μ ≤ ν → Goes μ r → Goes ν r
  weaker μ ν ((r, pending), s) h (t, e, w, l) = (t, e, w, omega (arith, l, h))
  weaker μ ν ((r, ready a b f), s) h g = g
  weaker μ ν ((r, again), s) h g = g
  weaker μ ν ((r, closed), s) h g = g
  weaker μ ν ((r, failed), s) h g = g

  receive-Goes :
      (st : Stage) (held : List Fd) (c t : Stream)
      → OnWay st held (c ++ t)
      → length (buf_of st) + length c ≤ target st
      → 0 < length c
      → Goes (length (c ++ t) + rank st) (receive st held c (t ++ more))
  unfolding receive
  receive-Goes st held [] t w room some = absurd (omega arith)
  receive-Goes st held (x ∷ c) t w room some =
      let st' : Stage = with_buf (buf_of st ++ bytes_of (x ∷ c)) st in
      let held' : List Fd = held ++ riding (x ∷ c) in
      let (w', ranks, buf, goal) = with_buf-OnWay st held (x ∷ c) t w room in
      let total : length (x ∷ (c ++ t)) ≡ suc (length c + length t) =
        omega (arith, length-append c t) in
      elim (Bool-cases (ltb (length (buf_of st')) (target st'))) [
        | inl short ↦ rw short (t, refl, w', omega (arith, ranks, total))
        | inr full ↦ rw full (
            weaker (length t + rank st') (length (x ∷ (c ++ t)) + rank st)
              (advance st' held', t ++ more) (omega (arith, ranks, total))
              (complete-Goes st' held' t w' (ground (arith, full, w'.within))))
      ]

  to_come :
      (st : Stage) (held : List Fd) (t : Stream)
      → OnWay st held t
      → target st ≤ length (buf_of st) + length t
  to_come st held t w = omega (
    arith,
    ap length w.bytes,
    length-append (buf_of st) (bytes_of t),
    length-append (field st) (rest st),
    length-bytes_of t,
    field-target st w.expects,
  )

  read-Goes :
      (k : ℕ) (st : Stage) (held : List Fd) (t : Stream)
      → OnWay st held t
      → length (buf_of st) < target st
      → Goes (length t + rank st) (attempt_read (at_most k) st held (t ++ more))
  unfolding attempt_read
  read-Goes k st held t w short =
      let n : ℕ = min (target st - length (buf_of st)) (suc k) in
      let enough : n ≤ length t = omega (arith, to_come st held t w, short) in
      let (front, back) = take-within n t more enough in
      let whole : take n t ++ drop n t ≡ t = take-append-drop n t in
      let size : length (take n t) ≡ n = omega (arith, length-take n t, enough) in
      rw front (
        rw back (
          subst
            (λ (x : Stream).
              Goes (length x + rank st) (receive st held (take n t) (drop n t ++ more)))
            whole
            (receive-Goes st held (take n t) (drop n t)
              (subst (λ (x : Stream). OnWay st held x) (sym whole) w) (omega (arith, size, short))
              (omega (arith, size, short)))))

  poll-Goes :
      (k : ℕ) (r : FrameReader) (t : Stream)
      → OnWay r.stage r.fds t
      → Goes (length t + rank r.stage) (poll_once (at_most k) r (t ++ more))
  unfolding poll_once
  poll-Goes k r t w = elim (Bool-cases (ltb (length (buf_of r.stage)) (target r.stage))) [
    | inl short ↦ rw short (read-Goes k r.stage r.fds t w (ltb→lt _ _ short))
    | inr full ↦
        rw full (complete-Goes r.stage r.fds t w (omega (arith, ltb→ge _ _ full, w.within)))
  ]

  -- A read that would block changes nothing, unless none was due.
  blocked-Goes :
      (r : FrameReader) (t : Stream)
      → OnWay r.stage r.fds t
      → (poll_once blocked r (t ++ more) ≡ ((r, again), t ++ more))
        ⊎ Goes (length t + rank r.stage) (poll_once blocked r (t ++ more))
  unfolding poll_once attempt_read
  blocked-Goes r t w = elim (Bool-cases (ltb (length (buf_of r.stage)) (target r.stage))) [
    | inl short ↦ inl (rw short refl)
    | inr full ↦
        inr (rw full (complete-Goes r.stage r.fds t w (omega (arith, ltb→ge _ _ full, w.within))))
  ]

  rank-pos : (st : Stage) → Expects st → 0 < rank st
  rank-pos (len buf) e = omega arith
  rank-pos (Stage.header n buf) e = omega arith
  rank-pos (inline_len h buf) e = omega arith
  rank-pos (Stage.inline h n buf) e = omega arith
  rank-pos done e = absurd e

  abbrev pub Arrives : List Attempt → Type 0
  Arrives attempts =
      (r : FrameReader) (t : Stream)
      → OnWay r.stage r.fds t
      → length t + rank r.stage ≤ reads attempts
      → drive attempts r (t ++ more) ≡ (ready head blob fds, more)

  onward_lem :
      (attempts : List Attempt) (μ : ℕ) (r : Polled)
      → Arrives attempts
      → Goes μ r
      → μ ≤ suc (reads attempts)
      → onward r.0.1 r.1 (drive attempts r.0.0 r.1) ≡ (ready head blob fds, more)
  onward_lem attempts μ ((r, pending), s) later (t, e, w, l) h =
      rw e (later r t w (omega (arith, l, h)))
  onward_lem attempts μ ((r, ready a b f), s) later (ea, eb, ef, es) h = cc
  onward_lem attempts μ ((r, again), s) later g h = absurd g
  onward_lem attempts μ ((r, closed), s) later g h = absurd g
  onward_lem attempts μ ((r, failed), s) later g h = absurd g

  pub drive-Arrives : (attempts : List Attempt) → Arrives attempts
  unfolding drive
  drive-Arrives [] r t w h = absurd (omega (arith, rank-pos r.stage w.expects, h))
  drive-Arrives (at_most k ∷ attempts) r t w h =
      onward_lem attempts (length t + rank r.stage) (poll_once (at_most k) r (t ++ more))
        (drive-Arrives attempts) (poll-Goes k r t w) h
  drive-Arrives (blocked ∷ attempts) r t w h = elim (blocked-Goes r t w) [
    | inl same ↦ rw same (drive-Arrives attempts r t w h)
    | inr goes ↦
        onward_lem attempts (length t + rank r.stage) (poll_once blocked r (t ++ more))
          (drive-Arrives attempts) goes (omega (arith, h))
  ]
