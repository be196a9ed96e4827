-- ===== src/Rosters/Canonical.antt =====
-- group.rs, `Roster::body`: two rosters with the same signed bytes have the same signed fields.
use panora.Prelude.{
  ℕ, ◌^◌, ◌<◌, ◌≡◌, refl, sym, ap, ◌∙◌, List, [], ◌∷◌, ◌++◌, map, Text, Bytes, length, All, ℤ, pos,
  negsuc, arith, drop, drop-append,
}
use panora.Rosters.{Identity, Member, Roster, be_bytes, i64_bits, name_bytes, label, body}
use panora.Rosters.Frames.{
  length-be_bytes, be_bytes-injective, frames, frames-injective, body-frames, Short, member_fields,
  fields,
}

-- The range of `i64`.
abbrev pub InI64 : ℤ → Type 0
InI64 (pos n) = n < 2 ^ 63
InI64 (negsuc n) = n < 2 ^ 63

-- The ranges of the Rust types: a slice has fewer than 2^64 elements.
abbrev pub MemberFits : Member → Type 0
MemberFits m = Short m.identity × Short m.device_id × Short (name_bytes m.name) × InI64 m.added_at

pub record Fits (r : Roster) : Type 0 where
  pub group_id : Short r.group_id
  pub prev : Short r.prev
  pub key_check : Short r.key_check
  pub signer : Short r.signer
  pub epoch : r.epoch < 2 ^ 64
  pub key_epoch : r.key_epoch < 2 ^ 64
  pub created_at : InI64 r.created_at
  pub count : length r.members < 2 ^ 64
  pub members : All MemberFits r.members

-- A member with its name as UTF-8.
abbrev pub spelled : Member → (Identity × Text × Bytes × ℤ)
spelled m = (m.identity, m.device_id, name_bytes m.name, m.added_at)

i64_bits-injective : (a b : ℤ) → InI64 a → InI64 b → i64_bits a ≡ i64_bits b → a ≡ b
i64_bits-injective (pos a) (pos b) ha hb e = ap (λ (n : ℕ). pos n) (omega (arith, ha, hb, e))
i64_bits-injective (pos a) (negsuc b) ha hb e = absurd (omega (arith, ha, hb, e))
i64_bits-injective (negsuc a) (pos b) ha hb e = absurd (omega (arith, ha, hb, e))
i64_bits-injective (negsuc a) (negsuc b) ha hb e =
    ap (λ (n : ℕ). negsuc n) (omega (arith, ha, hb, e))

i64_bits-bound : (a : ℤ) → InI64 a → i64_bits a < 256 ^ 8
i64_bits-bound (pos a) h = omega arith
i64_bits-bound (negsuc a) h = omega arith

be_bytes-Short : (n : ℕ) → Short (be_bytes 8 n)
be_bytes-Short n = omega (arith, length-be_bytes 8 n)

stamp-injective :
    (a b : ℤ) → InI64 a → InI64 b → be_bytes 8 (i64_bits a) ≡ be_bytes 8 (i64_bits b) → a ≡ b
stamp-injective a b ha hb e =
    i64_bits-injective a b ha hb
      (be_bytes-injective 8 (i64_bits a) (i64_bits b) (i64_bits-bound a ha) (i64_bits-bound b hb) e)

member_fields-Short : (ms : List Member) → All MemberFits ms → All Short (member_fields ms)
member_fields-Short [] h = tt
member_fields-Short (m ∷ ms) ((i, d, n, a), rest) =
    (i, (d, (n, (be_bytes-Short (i64_bits m.added_at), member_fields-Short ms rest))))

fields-Short : (r : Roster) → Fits r → All Short (fields r)
fields-Short r h = (
  h.group_id,
  (
    be_bytes-Short r.epoch,
    (
      h.prev,
      (
        be_bytes-Short (i64_bits r.created_at),
        (
          be_bytes-Short r.key_epoch,
          (
            h.key_check,
            (
              h.signer,
              (be_bytes-Short (length r.members), member_fields-Short r.members h.members),
            ),
          ),
        ),
      ),
    ),
  ),
)

member_fields-injective :
    (ms ns : List Member)
    → All MemberFits ms
    → All MemberFits ns
    → member_fields ms ≡ member_fields ns
    → map spelled ms ≡ map spelled ns
member_fields-injective [] [] hm hn e = refl
member_fields-injective [] (n ∷ ns) hm hn e = absurd cc
member_fields-injective (m ∷ ms) [] hm hn e = absurd cc
member_fields-injective (m ∷ ms) (n ∷ ns) ((i, d, s, a), hm) ((j, f, t, b), hn) e =
    let stamps : m.added_at ≡ n.added_at = stamp-injective m.added_at n.added_at a b cc in
    let rest : map spelled ms ≡ map spelled ns = member_fields-injective ms ns hm hn cc in
    let identities : m.identity ≡ n.identity = cc in
    let ids : m.device_id ≡ n.device_id = cc in
    let names : name_bytes m.name ≡ name_bytes n.name = cc in cc

-- Two rosters whose fields are in the ranges of their Rust types and whose signed bodies are equal
-- agree in every field but the signature: members are compared in order, with the names by their
-- UTF-8 bytes.
pub body-injective :
    (r s : Roster)
    → Fits r
    → Fits s
    → body r ≡ body s
    → (r.group_id ≡ s.group_id)
      × (r.epoch ≡ s.epoch)
      × (r.prev ≡ s.prev)
      × (r.created_at ≡ s.created_at)
      × (r.key_epoch ≡ s.key_epoch)
      × (r.key_check ≡ s.key_check)
      × (r.signer ≡ s.signer)
      × (map spelled r.members ≡ map spelled s.members)
body-injective r s hr hs e =
    let joined : label ++ frames (fields r) ≡ label ++ frames (fields s) =
      sym (body-frames r) ∙ e ∙ body-frames s in
    let tails : frames (fields r) ≡ frames (fields s) =
      sym (drop-append label (frames (fields r)))
      ∙ ap (λ (bs : Bytes). drop (length label) bs) joined
      ∙ drop-append label (frames (fields s)) in
    let same : fields r ≡ fields s =
      frames-injective (fields r) (fields s) (fields-Short r hr) (fields-Short s hs) tails in
    (
      cc,
      be_bytes-injective 8 r.epoch s.epoch hr.epoch hs.epoch cc,
      cc,
      stamp-injective r.created_at s.created_at hr.created_at hs.created_at cc,
      be_bytes-injective 8 r.key_epoch s.key_epoch hr.key_epoch hs.key_epoch cc,
      cc,
      cc,
      member_fields-injective r.members s.members hr.members hs.members cc,
    )
