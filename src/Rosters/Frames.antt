-- ===== src/Rosters/Frames.antt =====
-- bytes.rs, `put`, and group.rs, `Roster::body`: fields behind their lengths.
use panora.Prelude.{
  ℕ, zero, suc, ◌+◌, ◌/◌, ◌%◌, ◌^◌, ◌<◌, ◌≡◌, refl, sym, ap, ◌∙◌, List, [], ◌∷◌, ◌++◌, append_assoc,
  append-nil, Bytes, length, length-append, append-injective, All, arith,
}
use panora.Rosters.{Member, Roster, be_bytes, i64_bits, put, name_bytes, put_members, label, body}

pub length-be_bytes : (width n : ℕ) → length (be_bytes width n) ≡ width
unfolding be_bytes
length-be_bytes zero n = refl
length-be_bytes (suc width) n = omega (
  arith,
  length-append (be_bytes width (n / 256)) (n % 256 ∷ []),
  length-be_bytes width (n / 256),
)

pub be_bytes-injective :
    (width a b : ℕ)
    → a < 256 ^ width
    → b < 256 ^ width
    → be_bytes width a ≡ be_bytes width b
    → a ≡ b
unfolding be_bytes
be_bytes-injective zero a b ha hb e = omega (arith, ha, hb)
be_bytes-injective (suc width) a b ha hb e =
    let lengths : length (be_bytes width (a / 256)) ≡ length (be_bytes width (b / 256)) =
      length-be_bytes width (a / 256) ∙ sym (length-be_bytes width (b / 256)) in
    let (high, low) =
      append-injective (be_bytes width (a / 256)) (be_bytes width (b / 256)) (a % 256 ∷ [])
        (b % 256 ∷ []) lengths e in
    let quotients : a / 256 ≡ b / 256 =
      be_bytes-injective width (a / 256) (b / 256) (omega (arith, ha)) (omega (arith, hb)) high in
    let digits : a % 256 ≡ b % 256 = cc in omega (arith, quotients, digits)

-- A field behind its length.
unfoldable pub frame : Bytes → Bytes
frame field = be_bytes 8 (length field) ++ field

unfoldable pub frames : List Bytes → Bytes
frames [] = []
frames (f ∷ fs) = frame f ++ frames fs

abbrev pub Short : Bytes → Type 0
Short field = length field < 2 ^ 64

put-frame : (out field : Bytes) → put out field ≡ out ++ frame field
unfolding put frame
put-frame out field = append_assoc out (be_bytes 8 (length field)) field

-- The next field can be put in front of the rest.
put-frames :
    (out field : Bytes) (fs : List Bytes) → put out field ++ frames fs ≡ out ++ frames (field ∷ fs)
unfolding frames
put-frames out field fs = rw (put-frame out field) (append_assoc out (frame field) (frames fs))

frame-injective :
    (f g r s : Bytes) → Short f → Short g → frame f ++ r ≡ frame g ++ s → (f ≡ g) × (r ≡ s)
unfolding frame
frame-injective f g r s hf hg e =
    let lf : Bytes = be_bytes 8 (length f) in
    let lg : Bytes = be_bytes 8 (length g) in
    let e' : lf ++ (f ++ r) ≡ lg ++ (g ++ s) =
      sym (append_assoc lf f r) ∙ e ∙ append_assoc lg g s in
    let (prefix, rest) =
      append-injective lf lg (f ++ r) (g ++ s)
        (length-be_bytes 8 (length f) ∙ sym (length-be_bytes 8 (length g))) e' in
    append-injective f g r s (be_bytes-injective 8 (length f) (length g) hf hg prefix) rest

pub frames-injective :
    (fs gs : List Bytes) → All Short fs → All Short gs → frames fs ≡ frames gs → fs ≡ gs
unfolding frames frame
frames-injective [] [] hf hg e = refl
frames-injective [] (g ∷ gs) hf hg e =
    let long : length (frame g ++ frames gs) ≡ 8 + length g + length (frames gs) = omega (
      arith,
      length-append (frame g) (frames gs),
      length-append (be_bytes 8 (length g)) g,
      length-be_bytes 8 (length g),
    ) in
    absurd (omega (arith, ap length e, long))
frames-injective (f ∷ fs) [] hf hg e =
    let long : length (frame f ++ frames fs) ≡ 8 + length f + length (frames fs) = omega (
      arith,
      length-append (frame f) (frames fs),
      length-append (be_bytes 8 (length f)) f,
      length-be_bytes 8 (length f),
    ) in
    absurd (omega (arith, ap length e, long))
frames-injective (f ∷ fs) (g ∷ gs) hf hg e =
    let (same, more) = frame-injective f g (frames fs) (frames gs) hf.0 hg.0 e in
    let rest : fs ≡ gs = frames-injective fs gs hf.1 hg.1 more in cc

abbrev pub member_fields : List Member → List Bytes
member_fields [] = []
member_fields (m ∷ ms) =
    m.identity
    ∷ m.device_id
    ∷ name_bytes m.name
    ∷ be_bytes 8 (i64_bits m.added_at)
    ∷ member_fields ms

abbrev pub fields : Roster → List Bytes
fields r =
    r.group_id
    ∷ be_bytes 8 r.epoch
    ∷ r.prev
    ∷ be_bytes 8 (i64_bits r.created_at)
    ∷ be_bytes 8 r.key_epoch
    ∷ r.key_check
    ∷ r.signer
    ∷ be_bytes 8 (length r.members)
    ∷ member_fields r.members

put_members-frames :
    (out : Bytes) (ms : List Member) → put_members out ms ≡ out ++ frames (member_fields ms)
unfolding put_members frames
put_members-frames out [] = sym (append-nil out)
put_members-frames out (m ∷ ms) =
    let a : Bytes = put out m.identity in
    let b : Bytes = put a m.device_id in
    let c : Bytes = put b (name_bytes m.name) in
    let stamp : Bytes = be_bytes 8 (i64_bits m.added_at) in
    let rest : List Bytes = member_fields ms in
    put_members-frames (put c stamp) ms
    ∙ put-frames c stamp rest
    ∙ put-frames b (name_bytes m.name) (stamp ∷ rest)
    ∙ put-frames a m.device_id (name_bytes m.name ∷ stamp ∷ rest)
    ∙ put-frames out m.identity (m.device_id ∷ name_bytes m.name ∷ stamp ∷ rest)

pub body-frames : (r : Roster) → body r ≡ label ++ frames (fields r)
unfolding body
body-frames r =
    let f8 : List Bytes = member_fields r.members in
    let f7 : List Bytes = be_bytes 8 (length r.members) ∷ f8 in
    let f6 : List Bytes = r.signer ∷ f7 in
    let f5 : List Bytes = r.key_check ∷ f6 in
    let f4 : List Bytes = be_bytes 8 r.key_epoch ∷ f5 in
    let f3 : List Bytes = be_bytes 8 (i64_bits r.created_at) ∷ f4 in
    let f2 : List Bytes = r.prev ∷ f3 in
    let f1 : List Bytes = be_bytes 8 r.epoch ∷ f2 in
    let o1 : Bytes = put label r.group_id in
    let o2 : Bytes = put o1 (be_bytes 8 r.epoch) in
    let o3 : Bytes = put o2 r.prev in
    let o4 : Bytes = put o3 (be_bytes 8 (i64_bits r.created_at)) in
    let o5 : Bytes = put o4 (be_bytes 8 r.key_epoch) in
    let o6 : Bytes = put o5 r.key_check in
    let o7 : Bytes = put o6 r.signer in
    put_members-frames (put o7 (be_bytes 8 (length r.members))) r.members
    ∙ put-frames o7 (be_bytes 8 (length r.members)) f8
    ∙ put-frames o6 r.signer f7
    ∙ put-frames o5 r.key_check f6
    ∙ put-frames o4 (be_bytes 8 r.key_epoch) f5
    ∙ put-frames o3 (be_bytes 8 (i64_bits r.created_at)) f4
    ∙ put-frames o2 r.prev f3
    ∙ put-frames o1 (be_bytes 8 r.epoch) f2
    ∙ put-frames label r.group_id f1
