-- ===== src/Ipc/Payloads.antt =====
-- v3.rs, `build_frame` and `assemble_payloads`: payloads come back in order.
use panora.Prelude.{
  ℕ, zero, suc, ◌/◌, ◌^◌, ◌<◌, ◌≡◌, refl, List, [], ◌∷◌, ◌++◌, Bytes, length, length-append,
  take-append, drop-append, take-all, leb, arith, Bool-cases, inl, inr, ok, true,
}
use panora.Ipc.{inline_limit, le_bytes, from_le, refs_of, inline_of, fds_of, assemble_payloads}

pub length-le_bytes : (width n : ℕ) → length (le_bytes width n) ≡ width
unfolding le_bytes
length-le_bytes zero n = refl
length-le_bytes (suc width) n = omega (arith, length-le_bytes width (n / 256))

pub from_le-le_bytes : (width n : ℕ) → n < 256 ^ width → from_le (le_bytes width n) ≡ n
unfolding le_bytes from_le
from_le-le_bytes zero n h = omega (arith, h)
from_le-le_bytes (suc width) n h =
    omega (arith, from_le-le_bytes width (n / 256) (omega (arith, h)))

-- `extra` files and bytes behind those of the payloads stay unread.
pub assemble_payloads-refs_of :
    (ps : List Bytes) → assemble_payloads (refs_of ps) (inline_of ps) (fds_of ps) ≡ ok ps
unfolding assemble_payloads refs_of inline_of fds_of
assemble_payloads-refs_of [] = refl
assemble_payloads-refs_of (p ∷ ps) = elim (Bool-cases (leb (length p) inline_limit)) [
  | inl small ↦
      let fits : leb (length p) (length (p ++ inline_of ps)) ≡ true =
        ground (arith, length-append p (inline_of ps)) in
      rw small (
        rw fits (
          rw (drop-append p (inline_of ps))
            (rw (assemble_payloads-refs_of ps) (rw (take-append p (inline_of ps)) refl))))
  | inr big ↦
      rw big (rw (assemble_payloads-refs_of ps) (rw (take-all (length p) p (omega arith)) refl))
]
