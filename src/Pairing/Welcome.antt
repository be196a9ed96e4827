-- ===== src/Pairing/Welcome.antt =====
-- pairing.rs: the welcome of an inviter that admits a device, at the joiner.
use panora.Prelude.{
  ℕ, zero, suc, ◌+◌, ◌-◌, ◌≤◌, ◌≡◌, refl, sym, ◌∙◌, ap, true, none, some, List, [], ◌∷◌, ◌++◌,
  Bytes, length, length-append, last, drop, ==-refl, nat_eq, list_eq, arith, ok, ℤ,
}
use panora.Crypto.{nonce_len}
use panora.Rosters.{Member, Roster, Crates}
use panora.Group.{verify}
use panora.Group.State.{GroupKey, GroupState, kept_rosters, current_key}
use panora.Group.Linked.{Linked, IsValid}
use panora.Group.Valid.{pushed_rosters}
use panora.Group.Additions.{IsAddition}
use panora.Group.Joins.{joined-current_key}
use panora.Group.Loads.{IsKeyPair}
use panora.Pairing.{welcome, JoinRequest, Session, Primitives, signed_context, seal}
use panora.Pairing.Inviter.{Inviter, welcome_body}
use panora.Pairing.Joiner.{Joiner, JoinerState, last_two, on_welcome, welcomed, take_welcome}
use panora.Pairing.Sealed.{IsLawful, open_body-seal}

last_two-drop : (n : ℕ) (rs : List Roster) → n + 2 ≤ length rs → last_two (drop n rs) ≡ last_two rs
last_two-drop zero rs h = refl
last_two-drop (suc n) [] h = absurd (omega (arith, h))
last_two-drop (suc n) (r ∷ []) h = absurd (omega (arith, h))
last_two-drop (suc n) (a ∷ b ∷ []) h = absurd (omega (arith, h))
last_two-drop (suc n) (a ∷ b ∷ c ∷ rs) h = last_two-drop n (b ∷ c ∷ rs) (omega (arith, h))

last_two-snoc :
    (rs : List Roster) (c r : Roster) → last rs ≡ some c → last_two (rs ++ r ∷ []) ≡ some (c, r)
last_two-snoc [] c r h = absurd cc
last_two-snoc (a ∷ []) c r h = let same : a ≡ c = cc in rw same refl
last_two-snoc (a ∷ b ∷ []) c r h = last_two-snoc (b ∷ []) c r h
last_two-snoc (a ∷ b ∷ d ∷ rs) c r h = last_two-snoc (b ∷ d ∷ rs) c r h

one_at_least : (rs : List Roster) (c : Roster) → last rs ≡ some c → 1 ≤ length rs
one_at_least [] c h = absurd cc
one_at_least (r ∷ rs) c h = omega arith

last_two-pushed_rosters :
    (crates : Crates) (r c : Roster) (rs : List Roster)
    → last rs ≡ some c
    → last_two (pushed_rosters crates r rs) ≡ some (c, r)
last_two-pushed_rosters crates r c rs h =
    last_two-drop (length (rs ++ r ∷ []) - kept_rosters) (rs ++ r ∷ [])
      (omega (arith, length-append rs (r ∷ []), one_at_least rs c h))
    ∙ last_two-snoc rs c r h

verify-last :
    (crates : Crates) (rs : List Roster) (c : Roster)
    → Linked crates rs
    → last rs ≡ some c
    → verify crates c ≡ ok tt
verify-last crates [] c h e = absurd cc
verify-last crates (r ∷ []) c h e = let same : r ≡ c = cc in ap (verify crates) (sym same) ∙ h
verify-last crates (r ∷ n ∷ rs) c h e = verify-last crates (n ∷ rs) c h.2 e

-- The member that a request asks for.
abbrev pub member_of : JoinRequest → ℤ → Member
member_of request now = record {
  identity = request.identity;
  device_id = request.device_id;
  name = request.name;
  added_at = now;
}

module _ (p : Primitives) (law : IsLawful p) (i : Inviter) (pair : IsKeyPair p.crates i.identity)
    (s s' : GroupState) (c next : Roster) (v : IsValid p.crates s c) (v' : IsValid p.crates s' next)
    (request : JoinRequest) (now : ℤ)
    (added : IsAddition p.crates i.identity (member_of request now) s s' c next) where
  last_two_there : last_two s'.rosters ≡ some (c, next)
  last_two_there =
      ap (λ (x : GroupState). last_two x.rosters) added.state
      ∙ last_two-pushed_rosters p.crates next c s.rosters v.history.ends

  pub on_welcome_lem :
      (j : Joiner) (session : Session) (key : GroupKey) (nonce sealed : Bytes)
      → j.state ≡ some (JoinerState.keyed session i.identity.public true)
      → (j.identity.public ≡ request.identity)
      → (j.device_id ≡ request.device_id)
      → (j.name ≡ request.name)
      → length nonce ≡ nonce_len
      → current_key p.crates s' ≡ ok (some key)
      → seal p p.welcome_json nonce session.inviter_to_joiner session.th
          (welcome_body i session s' key)
        ≡ ok sealed
      → on_welcome p (welcome sealed) j ≡ (
        record j { state = none },
        ok (record { me = j.identity.public; rosters = s'.rosters; keys = key ∷ [] }),
      )
  unfolding on_welcome welcomed take_welcome
  on_welcome_lem j session key nonce sealed st me id name sized held e =
      rw
        (
          st,
          open_body-seal p law p.welcome_json law.welcome_reads nonce _ _ sealed _ sized e,
          pair (signed_context session _),
          last_two_there,
          verify-last p.crates s.rosters c v.history.linked v.history.ends,
          added.verified,
          added.follows,
          added.by_signer,
          ==-refl i.identity.public,
          me,
          added.was_missing,
          added.is_there,
          id,
          name,
          ==-refl request.device_id,
          ==-refl request.name,
          joined-current_key p.crates s' next v' (member_of request now) request.identity key
              added.is_there held,
        )
        refl
