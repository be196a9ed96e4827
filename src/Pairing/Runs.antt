-- ===== src/Pairing/Runs.antt =====
-- The two sides over a stream that delivers what was written, as `run_joiner` and `run_inviter` of
-- crates/panora-sync/src/wire.rs call them, up to the inviter's question to its user.
use panora.Prelude.{ℕ, Option, Bytes, Result, ok, err, ◌>>=◌, ok_or}
use panora.Rosters.{Identity}
use panora.Pairing.{Error, protocol, PairMessage, JoinRequest, Primitives}
use panora.Pairing.Inviter as Inviter
use panora.Pairing.Inviter.{Inviter, on_commit, on_reveal, on_join}
use panora.Pairing.Joiner as Joiner
use panora.Pairing.Joiner.{Joiner, on_offer, confirm, inviter_of}

-- A method on `&mut self`: its error ends the run.
abbrev pub step {ℓ κ} : {S : Type ℓ} {A : Type κ} → S × Result Error A → Result Error (S × A)
step (s, ok a) = ok (s, a)
step (s, err e) = err e

-- Both sides once the joiner has introduced itself.
pub record Introduced : Type 0 where
  pub joiner : Joiner
  pub inviter : Inviter
  pub known : Identity
  pub joiner_code : Option ℕ
  pub inviter_code : Option ℕ
  pub request : JoinRequest

-- The joiner's user says yes to the code and the inviter that it is shown.
unfoldable pub introduce :
    Primitives → Bytes → Bytes → PairMessage → Joiner → Inviter → Result Error Introduced
unfolding on_commit on_offer on_reveal confirm on_join
introduce p random nonce first j i = do
  (i1, offer) ← step (on_commit p random first i)
  (j1, reveal) ← step (on_offer p offer j)
  (i2, done) ← step (on_reveal p reveal i1)
  inviter ← ok_or (inviter_of j1) protocol
  (j2, join) ← step (confirm p nonce j1)
  (i3, request) ← step (on_join p join i2)
  ok (record {
    joiner = j2;
    inviter = i3;
    known = inviter;
    joiner_code = Joiner.code j1;
    inviter_code = Inviter.code i3;
    request = request;
  })
