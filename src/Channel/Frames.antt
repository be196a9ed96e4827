-- ===== src/Channel/Frames.antt =====
-- frame.rs: what `write` puts on the stream, `read` takes off it.
use panora.Prelude.{
  ℕ, zero, suc, ◌+◌, ◌-◌, ◌*◌, ◌/◌, ◌%◌, ◌^◌, ◌≤◌, ◌<◌, ◌≡◌, refl, sym, ◌∙◌, ap, subst, some, List,
  [], ◌∷◌, ◌++◌, append_assoc, Bytes, length, length-append, take-append, drop-append, ltb, leb,
  arith, Bool-cases, inl, inr, true, false, ok, guard, ok_or, >>-eq-ok, >>=-eq-ok,
}
use panora.Rosters.{be_bytes}
use panora.Rosters.Frames.{length-be_bytes}
use panora.Channel.{
  protocol, json, Json, max_blobs, from_be_after, write_chunk, write_blobs, write, read_exact,
  read_u32, read_chunk, read_chunks, read,
}

-- What serde_json documents: what was written reads back.
abbrev pub ReadsBack : {Message : Type 0} → Json Message → Type 0
ReadsBack {Message} serde =
    (m : Message) (text : Bytes) → serde.to_vec m ≡ some text → serde.from_slice text ≡ some m

from_be_after-snoc :
    (acc : ℕ) (bs : Bytes) (b : ℕ)
    → from_be_after acc (bs ++ b ∷ []) ≡ from_be_after acc bs * 256 + b
unfolding from_be_after
from_be_after-snoc acc [] b = refl
from_be_after-snoc acc (x ∷ bs) b = from_be_after-snoc (acc * 256 + x) bs b

from_be-be_bytes : (width n : ℕ) → n < 256 ^ width → from_be_after 0 (be_bytes width n) ≡ n
unfolding from_be_after be_bytes
from_be-be_bytes zero n h = omega (arith, h)
from_be-be_bytes (suc width) n h = omega (
  arith,
  from_be_after-snoc 0 (be_bytes width (n / 256)) (n % 256),
  from_be-be_bytes width (n / 256) (omega (arith, h)),
)

read_exact-append :
    (n : ℕ) (xs more : Bytes) → length xs ≡ n → read_exact n (xs ++ more) ≡ ok (xs, more)
unfolding read_exact
read_exact-append n xs more h =
    subst (λ (k : ℕ). read_exact k (xs ++ more) ≡ ok (xs, more)) h
      (let long : ltb (length (xs ++ more)) (length xs) ≡ false =
          ground (arith, length-append xs more) in
        rw long (rw (take-append xs more) (rw (drop-append xs more) refl)))

read_u32-be_bytes :
    (n : ℕ) (more : Bytes) → n < 2 ^ 32 → read_u32 (be_bytes 4 n ++ more) ≡ ok (n, more)
unfolding read_u32
read_u32-be_bytes n more h =
    rw (read_exact-append 4 (be_bytes 4 n) more (length-be_bytes 4 n))
      (ap (λ (k : ℕ). ok (k, more)) (from_be-be_bytes 4 n (omega (arith, h))))

write_chunk-eq :
    (chunk out : Bytes)
    → write_chunk chunk ≡ ok out
    → (out ≡ be_bytes 4 (length chunk) ++ chunk) × (length chunk < 2 ^ 32)
unfolding write_chunk
write_chunk-eq chunk out e = elim (Bool-cases (ltb (length chunk) (2 ^ 32))) [
  | inl small ↦ (ground (arith, small), ground (arith, small))
  | inr big ↦ absurd (ground (arith, big))
]

read_chunk-write_chunk :
    (budget : ℕ) (chunk out more : Bytes)
    → write_chunk chunk ≡ ok out
    → length chunk ≤ budget
    → read_chunk budget (out ++ more) ≡ ok (chunk, budget - length chunk, more)
unfolding read_chunk
read_chunk-write_chunk budget chunk out more e h =
    let (same, small) = write_chunk-eq chunk out e in
    let within : leb (length chunk) budget ≡ true = ground (arith, h) in
    let split : out ++ more ≡ be_bytes 4 (length chunk) ++ (chunk ++ more) =
      ap (λ (x : Bytes). x ++ more) same ∙ append_assoc (be_bytes 4 (length chunk)) chunk more in
    rw split (
      rw (read_u32-be_bytes (length chunk) (chunk ++ more) small)
        (rw within (rw (read_exact-append (length chunk) chunk more refl) refl)))

length-write_chunk :
    (chunk out : Bytes) → write_chunk chunk ≡ ok out → length out ≡ 4 + length chunk
length-write_chunk chunk out e = omega (
  arith,
  ap length (write_chunk-eq chunk out e).0,
  length-append (be_bytes 4 (length chunk)) chunk,
  length-be_bytes 4 (length chunk),
)

length-write_blobs :
    (blobs : List Bytes) (out : Bytes) → write_blobs blobs ≡ ok out → 4 * length blobs ≤ length out
unfolding write_blobs
length-write_blobs [] out e = omega arith
length-write_blobs (blob ∷ blobs) out e =
    let (head, e1, f) = >>=-eq-ok (write_chunk blob) _ e in
    let (tail, e2, g) = >>=-eq-ok (write_blobs blobs) _ f in
    let same : head ++ tail ≡ out = cc in
    omega (
      arith,
      ap length same,
      length-append head tail,
      length-write_chunk blob head e1,
      length-write_blobs blobs tail e2,
    )

read_chunks-write_blobs :
    (blobs : List Bytes) (budget : ℕ) (out more : Bytes)
    → write_blobs blobs ≡ ok out
    → length out ≤ budget + 4 * length blobs
    → (left : ℕ) × (read_chunks (length blobs) budget (out ++ more) ≡ ok (blobs, left, more))
unfolding write_blobs read_chunks
read_chunks-write_blobs [] budget out more e h =
    (budget, ap (λ (x : Bytes). ok ([], budget, x ++ more)) (let same : out ≡ [] = cc in same))
read_chunks-write_blobs (blob ∷ blobs) budget out more e h =
    let (head, e1, f) = >>=-eq-ok (write_chunk blob) _ e in
    let (tail, e2, g) = >>=-eq-ok (write_blobs blobs) _ f in
    let same : head ++ tail ≡ out = cc in
    let size : length head ≡ 4 + length blob = length-write_chunk blob head e1 in
    let total : length out ≡ length head + length tail =
      omega (arith, ap length same, length-append head tail) in
    let (left, ih) =
      read_chunks-write_blobs blobs (budget - length blob) tail more e2
        (omega (arith, h, total, size)) in
    let split : out ++ more ≡ head ++ (tail ++ more) =
      ap (λ (x : Bytes). x ++ more) (sym same) ∙ append_assoc head tail more in
    (
      left,
      rw split (
          rw
            (read_chunk-write_chunk budget blob head (tail ++ more) e1
              (omega (arith, h, total, size, length-write_blobs blobs tail e2)))
            (rw ih refl)),
    )

-- If messages read back as they were written and `write` put a frame on the stream, then `read`
-- with a budget of at least the bytes of the message and its blobs gives the message and the
-- blobs, and leaves what follows on the stream.
pub read-write :
    {Message : Type 0} (serde : Json Message) (m : Message) (blobs : List Bytes) (max_bytes : ℕ)
    (out more : Bytes)
    → ReadsBack serde
    → write serde m blobs ≡ ok out
    → length out ≤ max_bytes + 4 * (length blobs + 2)
    → read serde max_bytes (out ++ more) ≡ ok ((m, blobs), more)
unfolding write read
read-write serde m blobs max_bytes out more back e h =
    let (a, e1) = >>-eq-ok (guard (leb (length blobs) max_blobs) protocol) _ e in
    let (text, t, e2) = >>=-eq-ok (ok_or (serde.to_vec m) json) _ e1 in
    let (head, w, e3) = >>=-eq-ok (write_chunk text) _ e2 in
    let (tail, b, e4) = >>=-eq-ok (write_blobs blobs) _ e3 in
    let few : leb (length blobs) max_blobs ≡ true = ground (arith, a) in
    let count : Bytes = be_bytes 4 (length blobs) in
    let same : head ++ (count ++ tail) ≡ out = cc in
    let parsed : serde.from_slice text ≡ some m = back m text (ground (arith, t)) in
    let size : length head ≡ 4 + length text = length-write_chunk text head w in
    let total : length out ≡ length head + (4 + length tail) = omega (
      arith,
      ap length same,
      length-append head (count ++ tail),
      length-append count tail,
      length-be_bytes 4 (length blobs),
    ) in
    let split : out ++ more ≡ head ++ (count ++ (tail ++ more)) =
      ap (λ (x : Bytes). x ++ more) (sym same)
      ∙ append_assoc head (count ++ tail) more
      ∙ ap (λ (x : Bytes). head ++ x) (append_assoc count tail more) in
    let (left, chunks) =
      read_chunks-write_blobs blobs (max_bytes - length text) tail more b
        (omega (arith, h, total, size)) in
    rw split (
      rw
        (read_chunk-write_chunk max_bytes text head (count ++ (tail ++ more)) w
          (omega (arith, h, total, size, length-write_blobs blobs tail b)))
        (rw parsed (
          rw (read_u32-be_bytes (length blobs) (tail ++ more) (ground (arith, few)))
            (rw few (rw chunks refl)))))
