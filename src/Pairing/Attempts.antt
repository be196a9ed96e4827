-- ===== src/Pairing/Attempts.antt =====
-- invite.rs and pairing.rs: how many devices a window lets try.
use panora.Prelude.{
  ℕ, suc, ◌≤◌, ◌≡◌, ap, true, List, [], ◌∷◌, arith, inl, inr, Result, Result-cases, ok, err,
  if◌then◌else◌, ℤ,
}
use panora.Group.State.{DeviceIdentity, GroupState}
use panora.Pairing.{Error}
use panora.Pairing.Window.{PairingWindow, attempts_left, is_open, is_live}
use panora.Pairing.Inviter.{Inviter, new}
use panora.Pairing.Agreement.{counted, new-fresh}

abbrev tally : Result Error Inviter → (PairingWindow → ℕ) → PairingWindow → ℕ
tally (ok i) rest w = suc (rest i.window)
tally (err e) rest w = rest w

-- The devices that are answered, one after the other: each finds the group in some state, at some
-- time.
unfoldable pub answered : DeviceIdentity → List (GroupState × ℤ) → PairingWindow → ℕ
unfolding new
answered identity [] w = 0
answered identity ((s, now) ∷ visits) w = tally (new identity s w now) (answered identity visits) w

abbrev pub chances : PairingWindow → ℕ
chances w = if w.is_closed then 0 else attempts_left w

open_chances :
    (now : ℤ) (w : PairingWindow) → is_open now w ≡ true → suc (chances (counted w)) ≤ chances w
unfolding is_open is_live attempts_left
open_chances now w h = ground arith

-- However many devices come to a window, whenever they come and whatever the group then is, `new`
-- answers at most as many of them as the window has attempts left, and none when it is closed.
pub answered-bounded :
    (identity : DeviceIdentity) (visits : List (GroupState × ℤ)) (w : PairingWindow)
    → answered identity visits w ≤ chances w
unfolding answered
answered-bounded identity [] w = ground arith
answered-bounded identity ((s, now) ∷ visits) w = elim (Result-cases (new identity s w now)) [
  | inl (i, e) ↦
      let (g, (same, (made, live))) = new-fresh identity s w now i e in
      let window : i.window ≡ counted w = ap (λ (x : Inviter). x.window) same in
      rw e (
        rw window
          (ground (arith, answered-bounded identity visits (counted w), open_chances now w live)))
  | inr (x, e) ↦ rw e (answered-bounded identity visits w)
]
