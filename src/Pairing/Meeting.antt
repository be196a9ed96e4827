-- ===== src/Pairing/Meeting.antt =====
-- pairing.rs and wire.rs: the whole introduction of two sides that follow the protocol.
use panora.Prelude.{
  ◌≡◌, ◌≢◌, refl, sym, ◌∙◌, ap, true, false, some, Bytes, length, ℤ, ◌==◌, Bool-cases, ==→eq,
  nat_eq, list_eq, inl, inr, ok,
}
use panora.Crypto.{nonce_len}
use panora.Rosters.Names.{validate_device_id, validate_name}
use panora.Rosters.{Identity}
use panora.Group.State.{GroupState}
use panora.Group.Loads.{IsKeyPair}
use panora.Pairing.{
  PairingMode, invitation_mode, code_mode, PairMessage, JoinRequest, Session, Primitives,
}
use panora.Pairing.Window.{PairingWindow, mode_of}
use panora.Pairing.Inviter as Inviter
use panora.Pairing.Inviter.{Inviter, InviterState, await_commit, new}
use panora.Pairing.Joiner as Joiner
use panora.Pairing.Joiner.{Joiner, JoinerState, start, made_by, join_body}
use panora.Pairing.Sealed.{IsLawful}
use panora.Pairing.Steps.{
  Parties, first_message, joiner_at, joiner_start, joiner_keyed, inviter_at, agreed, asked,
  sealed_request, on_commit_lem, on_offer_lem, on_reveal_lem, confirm_lem, on_join_lem,
}
use panora.Pairing.Agreement.{counted, start_lem, new-fresh}
use panora.Pairing.Runs.{Introduced, introduce}

-- Both sides once they know each other.
abbrev pub met : Primitives → Parties → PairingWindow → Bytes → Bytes → Introduced
met p a w g shared = record {
  joiner = joiner_keyed p a w shared true;
  inviter = inviter_at p a w g (InviterState.waiting (agreed p a w shared) (asked p a w));
  known = a.inviter.public;
  joiner_code = Joiner.code (joiner_keyed p a w shared false);
  inviter_code =
      Inviter.code (inviter_at p a w g (InviterState.waiting (agreed p a w shared) (asked p a w)));
  request = asked p a w;
}

same_code :
    (mode : PairingMode) (session : Session) (inviter : Identity) (request : JoinRequest)
    → Joiner.code_of mode (some (JoinerState.keyed session inviter false))
      ≡ Inviter.code_of mode (some (InviterState.waiting session request))
same_code invitation_mode session inviter request = refl
same_code code_mode session inviter request = refl

differ : (x y : Bytes) → x ≢ y → (x == y) ≡ false
differ x y h = elim (Bool-cases (x == y)) [ inl e ↦ absurd (h (==→eq x y e)) | inr e ↦ e ]

module _ (p : Primitives) (a : Parties) (law : IsLawful p) (pair : IsKeyPair p.crates a.joiner)
    (other : a.joiner.public ≢ a.inviter.public) (shared : Bytes)
    (meets : p.agree a.random (p.public_of a.joining) ≡ some shared) (nonce : Bytes)
    (sized : length nonce ≡ nonce_len) (sealed : Bytes) where
  introduce-met :
      (w : PairingWindow) (g : Bytes)
      → validate_device_id a.device_id ≡ ok tt
      → validate_name a.name ≡ ok tt
      → made_by a.inviter.public w.invitation ≡ true
      → sealed_request p a w nonce shared ≡ ok sealed
      → introduce p a.random nonce
          (first_message p a w)
          (joiner_at p a w (joiner_start p a w))
          (inviter_at p a w g await_commit)
        ≡ ok (met p a w g shared)
  unfolding introduce
  introduce-met w g valid named made e =
      rw
        (
          on_commit_lem p a w g,
          on_offer_lem p a w shared (differ a.inviter.public a.joiner.public (λ h. other (sym h)))
              made (law.agrees a.joining a.random ∙ meets),
          on_reveal_lem p a w g shared meets,
          confirm_lem p a w nonce shared sealed e,
          on_join_lem p a w g nonce shared sealed law pair sized valid named
              (differ a.joiner.public a.inviter.public other) e,
        )
        refl

  pub introduce-start-met :
      (w : PairingWindow) (s : GroupState) (now later : ℤ) (j : Joiner) (i : Inviter)
      (first : PairMessage)
      → start p a.joiner a.device_id a.name w.invitation now a.joining ≡ ok (j, first)
      → new a.inviter s w later ≡ ok i
      → sealed_request p a w nonce shared ≡ ok sealed
      → (g : Bytes) × (introduce p a.random nonce first j i ≡ ok (met p a (counted w) g shared))
  introduce-start-met w s now later j i first b n e =
      let (valid, (named, (joiner, message))) = start_lem p a w now j first b in
      let (g, (inviter, (made, live))) = new-fresh a.inviter s w later i n in
      (
        g,
        ap (introduce p a.random nonce first j) inviter
            ∙ (ap
                  (λ (x : Joiner).
                    introduce p a.random nonce first x (inviter_at p a (counted w) g await_commit))
                  joiner
                ∙ (ap
                      (λ (x : PairMessage).
                        introduce p a.random nonce x (joiner_at p a w (joiner_start p a w))
                          (inviter_at p a (counted w) g await_commit))
                      message
                    ∙ introduce-met (counted w) g valid named made e)),
      )

  -- With lawful primitives, a joiner whose key pair signs, two different identities, ephemeral
  -- keys that agree and a request that can be sealed: if `start` on the invitation of the window
  -- succeeds, or on none when the window compares codes, and `new` on the window succeeds, then
  -- the messages that they exchange up to the request are all accepted, the inviter is asked about
  -- exactly the joiner's identity, device id and name, the joiner knows the inviter's identity,
  -- and both show the same code or none.
  pub introduce-start :
      (w : PairingWindow) (s : GroupState) (now later : ℤ) (j : Joiner) (i : Inviter)
      (first : PairMessage)
      → start p a.joiner a.device_id a.name w.invitation now a.joining ≡ ok (j, first)
      → new a.inviter s w later ≡ ok i
      → sealed_request p a w nonce shared ≡ ok sealed
      → (r : Introduced) × ((introduce p a.random nonce first j i ≡ ok r)
          × ((r.request ≡ asked p a w)
              × ((r.known ≡ a.inviter.public) × (r.joiner_code ≡ r.inviter_code))))
  introduce-start w s now later j i first b n e =
      let (g, d) = introduce-start-met w s now later j i first b n e in
      (
        met p a (counted w) g shared,
        (
          d,
          (
            refl,
            (
              refl,
              same_code (mode_of w.invitation) (agreed p a w shared) a.inviter.public (asked p a w),
            ),
          ),
        ),
      )
