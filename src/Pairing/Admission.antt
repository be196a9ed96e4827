-- ===== src/Pairing/Admission.antt =====
-- pairing.rs and wire.rs: from the introduction to the group, when the inviter approves.
use panora.Prelude.{
  ◌≡◌, ◌≢◌, refl, sym, ◌∙◌, ap, subst, true, none, some, [], ◌∷◌, Bytes, length, ℤ, ◌==◌, nat_eq,
  list_eq, Result, ok, err, guard, ok_or, >>=-eq-ok, >>-eq-ok,
}
use panora.Crypto.{nonce_len}
use panora.Rosters.{Roster}
use panora.Rosters.Names as Names
use panora.Group.State.{GroupKey, GroupState, current, current_key, validate}
use panora.Group.Membership.{add_member}
use panora.Group.Valid.{validate→IsValid}
use panora.Group.Additions.{add_member-IsAddition}
use panora.Group.Calls.{add_member-IsValid}
use panora.Group.Loads.{IsKeyPair}
use panora.Pairing.{Error, PairMessage, welcome, JoinRequest, Primitives, Session, in_group, seal}
use panora.Pairing.Window.{PairingWindow, is_live, close}
use panora.Pairing.Inviter.{
  Inviter, new, admit, greeting, welcome_body, welcomed, admitted, approved, approve,
}
use panora.Pairing.Joiner.{Joiner, start, on_welcome}
use panora.Pairing.Runs.{Introduced, introduce}
use panora.Pairing.Sealed.{IsLawful, in_group-eq-ok, ok_or-eq-ok}
use panora.Pairing.Steps.{Parties, agreed, sealed_request}
use panora.Pairing.Agreement.{counted, ok-injective}
use panora.Pairing.Meeting.{met, introduce-start-met}
use panora.Pairing.Welcome.{member_of, on_welcome_lem}

welcomed_lem :
    (i i' : Inviter) (s s' : GroupState) (next next' : Roster) (msg : PairMessage)
    (r : Result Error PairMessage)
    → welcomed i s next r ≡ (i', (s', ok (msg, next')))
    → ((i' ≡ record i { state = none; window = close i.window }) × (s ≡ s'))
      × ((next ≡ next') × (r ≡ ok msg))
welcomed_lem i i' s s' next next' msg (ok m) e = ((cc, cc), (cc, cc))
welcomed_lem i i' s s' next next' msg (err x) e = absurd cc

module _ (p : Primitives) (nonce : Bytes) (session : Session) (i i' : Inviter) (s s' : GroupState)
    (next : Roster) (msg : PairMessage) where
  admitted_lem :
      (r : Result Error (GroupState × Roster))
      → admitted p nonce session i s r ≡ (i', (s', ok (msg, next)))
      → (i' ≡ record i { state = none; window = close i.window })
        × ((r ≡ ok (s', next)) × (greeting p i nonce session s' ≡ ok msg))
  admitted_lem (ok (u, n)) e =
      let (x, y) = welcomed_lem i i' u s' n next msg (greeting p i nonce session u) e in
      (
        x.0,
        (
          ap (λ (a : GroupState). ok (a, n)) x.1 ∙ ap (λ (b : Roster). ok (s', b)) y.0,
          subst (λ (t : GroupState). greeting p i nonce session t ≡ ok msg) x.1 y.1,
        ),
      )
  admitted_lem (err x) e = absurd cc

  admit_lem :
      (request : JoinRequest) (now : ℤ)
      → admit p i request now s ≡ ok (s', next)
      → add_member p.crates i.identity (member_of request now) now s ≡ ok (s', next)
  unfolding admit
  admit_lem request now e =
      let (live, e1) = >>-eq-ok (guard (is_live now i.window) Error.invitation) _ e in
      let (r, f, e2) = >>=-eq-ok (in_group (current s)) _ e1 in
      let (same, e3) =
        >>-eq-ok (guard (r.group_id == i.group_id) (Error.group Names.roster)) _ e2 in
      in_group-eq-ok _ (s', next) e3

  greeting_lem :
      greeting p i nonce session s' ≡ ok msg
      → (key : GroupKey) × ((sealed : Bytes) × ((current_key p.crates s' ≡ ok (some key))
            × ((msg ≡ welcome sealed)
                × (seal p p.welcome_json nonce session.inviter_to_joiner session.th
                      (welcome_body i session s' key)
                    ≡ ok sealed))))
  unfolding greeting
  greeting_lem e =
      let (held, h, e1) = >>=-eq-ok (in_group (current_key p.crates s')) _ e in
      let (key, k, e2) = >>=-eq-ok (ok_or held (Error.group Names.roster)) _ e1 in
      let (sealed, w, e3) =
        >>=-eq-ok
          (seal p p.welcome_json nonce session.inviter_to_joiner session.th
            (welcome_body i session s' key))
          _ e2 in
      (
        key,
        (
          sealed,
          (
            in_group-eq-ok (current_key p.crates s') held h
                ∙ ap ok (ok_or-eq-ok held (Error.group Names.roster) key k),
            (cc, w),
          ),
        ),
      )

module _ (p : Primitives) (a : Parties) (law : IsLawful p)
    (joiner_pair : IsKeyPair p.crates a.joiner) (inviter_pair : IsKeyPair p.crates a.inviter)
    (other : a.joiner.public ≢ a.inviter.public) (shared : Bytes)
    (meets : p.agree a.random (p.public_of a.joining) ≡ some shared) (nonce : Bytes)
    (sized : length nonce ≡ nonce_len) (nonce' : Bytes) (sized' : length nonce' ≡ nonce_len) where
  on_welcome-met :
      (w : PairingWindow) (g : Bytes) (s s' : GroupState) (decided : ℤ) (i' : Inviter)
      (msg : PairMessage) (next : Roster)
      → validate p.crates s ≡ ok tt
      → approve p nonce' decided (met p a w g shared).inviter s ≡ (i', (s', ok (msg, next)))
      → (i'.window ≡ close w)
        × ((key : GroupKey) × ((current_key p.crates s' ≡ ok (some key))
              × (on_welcome p msg (met p a w g shared).joiner ≡ (
                record (met p a w g shared).joiner { state = none },
                ok (record { me = a.joiner.public; rosters = s'.rosters; keys = key ∷ [] }),
              ))))
  unfolding approve approved
  on_welcome-met w g s s' decided i' msg next loads e =
      let r : Introduced = met p a w g shared in
      let session : Session = agreed p a w shared in
      let (left, (adds, greets)) =
        admitted_lem p nonce' session r.inviter i' s s' next msg
          (admit p r.inviter r.request decided s) e in
      let (key, (sealed, (held, (said, seals')))) =
        greeting_lem p nonce' session r.inviter i' s s' next msg greets in
      let (c, v) = validate→IsValid p.crates s loads in
      let added = admit_lem p nonce' session r.inviter i' s s' next msg r.request decided adds in
      (
        ap (λ (x : Inviter). x.window) left,
        (
          key,
          (
            held,
            ap (λ (m : PairMessage). on_welcome p m r.joiner) said
                ∙ on_welcome_lem p law r.inviter inviter_pair s s' c next v
                    (add_member-IsValid p.crates a.inviter decided (member_of r.request decided) s
                      s' c next v added)
                    r.request decided
                    (add_member-IsAddition p.crates a.inviter decided (member_of r.request decided)
                      s c v.history s' next added)
                    r.joiner session key nonce' sealed refl refl refl refl sized' held seals',
          ),
        ),
      )

  -- Under the same conditions, with an inviter whose key pair signs and a group that `validate`
  -- accepts: if the two are introduced and `approve` succeeds, then the window is closed, the
  -- inviter holds the current key of the new group, and the joiner accepts the welcome and ends
  -- with its own identity, the inviter's rosters and that one key.
  pub on_welcome-approve :
      (w : PairingWindow) (s t t' : GroupState) (now later decided : ℤ) (j : Joiner)
      (i i' : Inviter) (first msg : PairMessage) (r : Introduced) (next : Roster) (sealed : Bytes)
      → start p a.joiner a.device_id a.name w.invitation now a.joining ≡ ok (j, first)
      → new a.inviter s w later ≡ ok i
      → sealed_request p a w nonce shared ≡ ok sealed
      → introduce p a.random nonce first j i ≡ ok r
      → validate p.crates t ≡ ok tt
      → approve p nonce' decided r.inviter t ≡ (i', (t', ok (msg, next)))
      → (i'.window.is_closed ≡ true)
        × ((key : GroupKey) × ((current_key p.crates t' ≡ ok (some key))
              × (on_welcome p msg r.joiner ≡ (
                record r.joiner { state = none },
                ok (record { me = a.joiner.public; rosters = t'.rosters; keys = key ∷ [] }),
              ))))
  unfolding close
  on_welcome-approve w s t t' now later decided j i i' first msg r next sealed b n q e loads done =
      let (g, e') =
        introduce-start-met p a law joiner_pair other shared meets nonce sized sealed w s now later
          j i first b n q in
      let same : r ≡ met p a (counted w) g shared = ok-injective r _ (sym e ∙ e') in
      let (shut, (key, (held, welcomed))) =
        on_welcome-met (counted w) g t t' decided i' msg next loads
          (ap (λ (x : Introduced). approve p nonce' decided x.inviter t) (sym same) ∙ done) in
      (
        ap (λ (x : PairingWindow). x.is_closed) shut,
        (
          key,
          (
            held,
            subst
                (λ (x : Introduced). on_welcome p msg x.joiner ≡ (
                  record x.joiner { state = none },
                  ok (record { me = a.joiner.public; rosters = t'.rosters; keys = key ∷ [] }),
                ))
                (sym same) welcomed,
          ),
        ),
      )
