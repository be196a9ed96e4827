-- ===== src/Ipc/Reader/Streams.antt =====
-- v3.rs: bytes of a socket and the descriptors that ride on them.
use panora.Prelude.{
  ℕ, zero, suc, ◌≤◌, ◌≡◌, refl, sym, ap, List, [], ◌∷◌, ◌++◌, append_assoc, length, take, drop,
  arith,
}
use panora.Ipc.Reader.{Stream, bytes_of, riding}

pub bytes_of-append : (s t : Stream) → bytes_of (s ++ t) ≡ bytes_of s ++ bytes_of t
bytes_of-append [] t = refl
bytes_of-append (x ∷ s) t = rw (bytes_of-append s t) refl

pub riding-append : (s t : Stream) → riding (s ++ t) ≡ riding s ++ riding t
riding-append [] t = refl
riding-append ((b, fds) ∷ s) t =
    rw (riding-append s t) (sym (append_assoc fds (riding s) (riding t)))

pub length-bytes_of : (s : Stream) → length (bytes_of s) ≡ length s
length-bytes_of [] = refl
length-bytes_of (x ∷ s) = omega (arith, length-bytes_of s)

pub take-within :
    {A : Type 0} (n : ℕ) (s t : List A)
    → n ≤ length s
    → (take n (s ++ t) ≡ take n s) × (drop n (s ++ t) ≡ drop n s ++ t)
take-within zero s t h = (refl, refl)
take-within (suc n) [] t h = absurd (omega arith)
take-within (suc n) (x ∷ s) t h =
    let (a, b) = take-within n s t (omega arith) in (ap (λ (l : List _). x ∷ l) a, b)
