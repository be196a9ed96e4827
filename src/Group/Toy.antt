-- ===== src/Group/Toy.antt =====
-- A group of two devices, for the tests.
use panora.Prelude.{◌≡◌, refl, true, [], ◌∷◌, ◌++◌, pos, ok}
use panora.Rosters.{Crates, Member, Roster, hash}
use panora.Group.{zeros}
use panora.Group.State.{DeviceIdentity, GroupState, validate, check, signed}
use panora.Group.Loads.{IsKeyPair}

-- A signature is the byte of its device, and a hash is the text or the key itself.
abbrev pub toy : Crates
toy = record {
  derive_key = λ context text. text;
  keyed_hash = λ key text. key;
  verify_signature = λ signer text signature. true;
}

abbrev pub laptop : DeviceIdentity
laptop = record { public = 1 ∷ []; sign = λ text. 9 ∷ [] }

abbrev pub phone : Member
phone = record { identity = 2 ∷ []; device_id = 50 ∷ []; name = 112 ∷ []; added_at = pos 8 }

abbrev pub founding : Roster
founding = signed laptop (record {
  group_id = 7 ∷ [];
  epoch = 0;
  prev = zeros;
  created_at = pos 5;
  members =
      record { identity = 1 ∷ []; device_id = 49 ∷ []; name = 108 ∷ []; added_at = pos 5 } ∷ [];
  key_epoch = 0;
  key_check = check toy (7 ∷ []) (record { epoch = 0; key = 30 ∷ [] });
  signer = 1 ∷ [];
  signature = zeros ++ zeros;
})

abbrev pub founded : GroupState
founded = record {
  me = 1 ∷ [];
  rosters = founding ∷ [];
  keys = record { epoch = 0; key = 30 ∷ [] } ∷ [];
}

pub toy_pair : IsKeyPair toy laptop
toy_pair text = refl

pub founded-validate : validate toy founded ≡ ok tt
unfolding validate signed
founded-validate = refl

-- The phone has joined.
abbrev pub second : Roster
second = signed laptop (record founding {
  epoch = 1;
  prev = hash toy founding;
  created_at = pos 8;
  members =
      record { identity = 1 ∷ []; device_id = 49 ∷ []; name = 108 ∷ []; added_at = pos 5 }
      ∷ phone
      ∷ [];
})

abbrev pub joint : GroupState
joint = record founded { rosters = founding ∷ second ∷ [] }
