-- ===== src/Pairing/Examples.antt =====
-- A phone that joins the laptop's group, and the theorems on pairing at it.
use panora.Prelude.{
  ℕ, ◌+◌, ◌≡◌, ◌≢◌, ◌≤◌, refl, ap, sym, Bool, true, false, ◌&&◌, none, some, List, [], ◌∷◌, ◌++◌,
  Bytes, length, ◌==◌, nat_eq, list_eq, ==→eq, arith, Eq, int_beq, int_beq→eq, int_beq_self, pos, ℤ,
  ok, if◌then◌else◌, Bool-cases, inl, inr, ==-refl,
}
use panora.Crypto.{envelope_magic, seal_with_aad, open_with_aad}
use panora.Crypto.Toy as Cipher
use panora.Crypto.Toy.{repeat, toy-IsAead}
use panora.Rosters.{Member, Roster}
use panora.Ipc.{from_le}
use panora.Group.{member_in, member_beq}
use panora.Group.Successor.{member_beq→eq}
use panora.Group.State.{GroupKey, GroupState, signed, current_key}
use panora.Group.Toy.{toy, laptop, founding, founded, second, joint, founded-validate}
use panora.Pairing.{
  Json, JoinBody, welcome, WelcomeBody, Primitives, PairMessage, seal, derive, signed_context,
  open_body,
}
use panora.Pairing.Window.{PairingWindow, attempts_left}
use panora.Pairing.Sealed.{IsLawful}
use panora.Pairing.Inviter.{Inviter, await_commit, new, approve}
use panora.Pairing.Joiner.{Joiner, start, on_welcome}
use panora.Pairing.Runs.{Introduced, introduce}
use panora.Pairing.Steps.{
  Parties, agreed, first_message, joiner_at, joiner_start, inviter_at, sealed_request,
}
use panora.Pairing.Agreement.{counted}
use panora.Pairing.Meeting.{met, introduce-start}
use panora.Pairing.Admission.{on_welcome-approve}
use panora.Pairing.Attempts.{answered, answered-bounded}

member_beq_self : (m : Member) → member_beq m m ≡ true
member_beq_self m =
    ground (arith, ==-refl m.identity, ==-refl m.device_id, ==-refl m.name, int_beq_self m.added_at)

instance abbrev member_eq : Eq Member
member_eq = record {
  same = member_beq;
  same_iff = λ m n. (member_beq→eq m n, λ e. rw e (member_beq_self n));
}

abbrev roster_beq : Roster → Roster → Bool
roster_beq a b =
    a.group_id == b.group_id
    && a.epoch == b.epoch
    && a.prev == b.prev
    && int_beq a.created_at b.created_at
    && a.members == b.members
    && a.key_epoch == b.key_epoch
    && a.key_check == b.key_check
    && a.signer == b.signer
    && a.signature == b.signature

&&-true : (a b : Bool) → (a && b) ≡ true → (a ≡ true) × (b ≡ true)
&&-true a b e = ground arith

roster_beq→eq : (a b : Roster) → roster_beq a b ≡ true → a ≡ b
roster_beq→eq a b h =
    let (h8, signature) = &&-true _ (a.signature == b.signature) h in
    let (h7, signer) = &&-true _ (a.signer == b.signer) h8 in
    let (h6, key_check) = &&-true _ (a.key_check == b.key_check) h7 in
    let (h5, key_epoch) = &&-true _ (a.key_epoch == b.key_epoch) h6 in
    let (h4, members) = &&-true _ (a.members == b.members) h5 in
    let (h3, created_at) = &&-true _ (int_beq a.created_at b.created_at) h4 in
    let (h2, prev) = &&-true _ (a.prev == b.prev) h3 in
    let (group_id, epoch) = &&-true (a.group_id == b.group_id) (a.epoch == b.epoch) h2 in
    λ i. record {
      group_id = ==→eq a.group_id b.group_id group_id i;
      epoch = ==→eq a.epoch b.epoch epoch i;
      prev = ==→eq a.prev b.prev prev i;
      created_at = int_beq→eq a.created_at b.created_at created_at i;
      members = ==→eq a.members b.members members i;
      key_epoch = ==→eq a.key_epoch b.key_epoch key_epoch i;
      key_check = ==→eq a.key_check b.key_check key_check i;
      signer = ==→eq a.signer b.signer signer i;
      signature = ==→eq a.signature b.signature signature i;
    }

abbrev request_body : JoinBody
request_body = record {
  identity = 2 ∷ [];
  device_id = 50 ∷ [];
  name = 112 ∷ [];
  signature = 9 ∷ [];
}

abbrev is_request : JoinBody → Bool
is_request b =
    b.identity == request_body.identity
    && b.device_id == request_body.device_id
    && b.name == request_body.name
    && b.signature == request_body.signature

is_request→eq : (b : JoinBody) → is_request b ≡ true → b ≡ request_body
is_request→eq b h =
    let (h3, signature) = &&-true _ (b.signature == request_body.signature) h in
    let (h2, name) = &&-true _ (b.name == request_body.name) h3 in
    let (identity, device_id) =
      &&-true (b.identity == request_body.identity) (b.device_id == request_body.device_id) h2 in
    λ i. record {
      identity = ==→eq b.identity request_body.identity identity i;
      device_id = ==→eq b.device_id request_body.device_id device_id i;
      name = ==→eq b.name request_body.name name i;
      signature = ==→eq b.signature request_body.signature signature i;
    }

abbrev group_key : GroupKey
group_key = record { epoch = 0; key = 30 ∷ [] }

abbrev greeting_body : WelcomeBody
greeting_body = record { signature = 9 ∷ []; rosters = founding ∷ second ∷ []; key = group_key }

abbrev are_two : List Roster → Bool
are_two (a ∷ b ∷ []) = roster_beq a founding && roster_beq b second
are_two _ = false

are_two→eq : (rs : List Roster) → are_two rs ≡ true → rs ≡ founding ∷ second ∷ []
are_two→eq [] h = absurd cc
are_two→eq (a ∷ []) h = absurd cc
are_two→eq (a ∷ b ∷ []) h =
    let (x, y) = &&-true (roster_beq a founding) (roster_beq b second) h in
    let first : a ≡ founding = roster_beq→eq a founding x in
    let next : b ≡ second = roster_beq→eq b second y in λ i. first i ∷ next i ∷ []
are_two→eq (a ∷ b ∷ c ∷ rs) h = absurd cc

abbrev is_greeting : WelcomeBody → Bool
is_greeting b =
    b.signature == greeting_body.signature
    && are_two b.rosters
    && b.key.epoch == group_key.epoch
    && b.key.key == group_key.key

is_greeting→eq : (b : WelcomeBody) → is_greeting b ≡ true → b ≡ greeting_body
is_greeting→eq b h =
    let (h3, key) = &&-true _ (b.key.key == group_key.key) h in
    let (h2, epoch) = &&-true _ (b.key.epoch == group_key.epoch) h3 in
    let (signature, rosters) =
      &&-true (b.signature == greeting_body.signature) (are_two b.rosters) h2 in
    λ i. record {
      signature = ==→eq b.signature greeting_body.signature signature i;
      rosters = are_two→eq b.rosters rosters i;
      key = record {
        epoch = ==→eq b.key.epoch group_key.epoch epoch i;
        key = ==→eq b.key.key group_key.key key i;
      };
    }

-- One body can be written, as one byte.
abbrev json_of : {Body : Type 0} → (Body → Bool) → Body → Json Body
json_of test body = record {
  to_vec = λ b. if test b then some (123 ∷ []) else none;
  from_slice = λ text. some body;
}

json_of-reads :
    {Body : Type 0} (test : Body → Bool) (body : Body)
    → ((b : Body) → test b ≡ true → b ≡ body)
    → (b : Body) (text : Bytes) → (json_of test body).to_vec b ≡ some text
    → (json_of test body).from_slice text ≡ some b
json_of-reads test body only b text e = elim (Bool-cases (test b)) [
  | inl h ↦ ap some (sym (only b h))
  | inr h ↦ absurd (ground arith)
]

-- A private key is also the public one, and two agree on their total length.
abbrev device : Primitives
device = record {
  crates = toy;
  public_of = λ k. k;
  agree = λ k l. some ((length k + length l) ∷ []);
  cipher = λ key. Cipher.toy 3;
  join_json = json_of is_request request_body;
  welcome_json = json_of is_greeting greeting_body;
}

device-IsLawful : IsLawful device
device-IsLawful = record {
  agrees = λ a b. ap (λ (n : ℕ). some (n ∷ [])) (omega arith);
  ciphers = λ key. toy-IsAead 3;
  join_reads = json_of-reads is_request request_body is_request→eq;
  welcome_reads = json_of-reads is_greeting greeting_body is_greeting→eq;
}

abbrev parties : Parties
parties = record {
  joiner = record { public = 2 ∷ []; sign = λ text. 9 ∷ [] };
  inviter = laptop;
  device_id = 50 ∷ [];
  name = 112 ∷ [];
  joining = 4 ∷ [];
  random = 5 ∷ 6 ∷ [];
}

abbrev by_code : PairingWindow
by_code = record { invitation = none; expires_at = pos 305; attempts = 0; is_closed = false }

abbrev nonce : Bytes
nonce = repeat 24 9

phone_differs : 2 ∷ [] ≢ laptop.public
phone_differs e = absurd (ground arith)

abbrev phone_side : Joiner
phone_side = joiner_at device parties by_code (joiner_start device parties by_code)

abbrev laptop_side : Inviter
laptop_side = inviter_at device parties (counted by_code) (7 ∷ []) await_commit

abbrev opening : PairMessage
opening = first_message device parties by_code

phone_starts :
    start device parties.joiner (50 ∷ []) (112 ∷ []) none (pos 4) (4 ∷ [])
    ≡ ok (phone_side, opening)
unfolding start
phone_starts = refl

laptop_answers : new laptop founded by_code (pos 6) ≡ ok laptop_side
unfolding new member_in signed
laptop_answers = refl

abbrev sealed : Bytes
sealed =
    envelope_magic
    ++ 1 ∷ nonce
    ++ Cipher.tag 3 nonce (agreed device parties by_code (3 ∷ [])).th
    ++ 123 ∷ []

request_sealed : sealed_request device parties by_code nonce (3 ∷ []) ≡ ok sealed
unfolding seal derive signed_context seal_with_aad
request_sealed = refl

introduce-start_example :
    (r : Introduced) × ((introduce device (5 ∷ 6 ∷ []) nonce opening phone_side laptop_side ≡ ok r)
      × ((r.request ≡ record { identity = 2 ∷ []; device_id = 50 ∷ []; name = 112 ∷ [] })
          × ((r.known ≡ laptop.public) × (r.joiner_code ≡ r.inviter_code))))
introduce-start_example =
    introduce-start device parties device-IsLawful (λ text. refl) phone_differs (3 ∷ []) refl nonce
      refl sealed by_code founded (pos 4) (pos 6) phone_side laptop_side opening phone_starts
      laptop_answers request_sealed

abbrev both_met : Introduced
both_met = met device parties (counted by_code) (7 ∷ []) (3 ∷ [])

test_code : both_met.joiner_code ≡ some 3
unfolding derive from_le
test_code = refl

introduced : introduce device (5 ∷ 6 ∷ []) nonce opening phone_side laptop_side ≡ ok both_met
unfolding introduce derive seal seal_with_aad open_body open_with_aad
introduced = refl

abbrev laptop_done : Inviter
laptop_done = record both_met.inviter {
  state = none;
  window = record both_met.inviter.window { is_closed = true; invitation = none };
}

approved :
    approve device nonce (pos 8) both_met.inviter founded
    ≡ (laptop_done, (joint, ok (welcome sealed, second)))
unfolding approve derive signed seal seal_with_aad
approved = refl

on_welcome-approve_example :
    (laptop_done.window.is_closed ≡ true)
    × ((key : GroupKey) × ((current_key toy joint ≡ ok (some key))
          × (on_welcome device (welcome sealed) both_met.joiner ≡ (
            record both_met.joiner { state = none },
            ok (record { me = 2 ∷ []; rosters = joint.rosters; keys = key ∷ [] }),
          ))))
on_welcome-approve_example =
    on_welcome-approve device parties device-IsLawful (λ text. refl) (λ text. refl) phone_differs
      (3 ∷ []) refl nonce refl nonce refl by_code founded founded joint (pos 4) (pos 6) (pos 8)
      phone_side laptop_side laptop_done opening (welcome sealed) both_met second sealed
      phone_starts laptop_answers request_sealed introduced founded-validate approved

-- The fourth device finds the window used up.
abbrev visits : List (GroupState × ℤ)
visits = (founded, pos 5) ∷ (founded, pos 6) ∷ (founded, pos 7) ∷ (founded, pos 8) ∷ []

answered-bounded_example : answered laptop visits by_code ≤ 3
unfolding attempts_left
answered-bounded_example = answered-bounded laptop visits by_code

test_answered : answered laptop visits by_code ≡ 3
unfolding answered new member_in signed
test_answered = refl
