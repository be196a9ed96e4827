-- ===== src/Rosters/Names.antt =====
-- crates/panora-sync/src/group.rs: the checks on device ids and names.
use panora.Prelude.{
  ℕ, Bool, false, not, ◌&&◌, ◌||◌, List, [], ◌∷◌, Text, length, any, all, ◌==◌, nat_eq, list_eq,
  leb, Result, ◌>>◌, guard,
}

-- `panicked` stands for an `expect`, an index or a slice that is out of range.
pub data Error : Type 0 where
  device roster signature crypto panicked : Error

abbrev pub max_device_id_len : ℕ
max_device_id_len = 64

abbrev pub max_name_chars : ℕ
max_name_chars = 64

abbrev pub within : ℕ → ℕ → ℕ → Bool
within low high b = leb low b && leb b high

abbrev pub is_id_byte : ℕ → Bool
is_id_byte b = within 48 57 b || within 65 90 b || within 97 122 b || b == 45

unfoldable pub validate_device_id : Text → Result Error (Unit {0})
validate_device_id id =
    guard (not (length id == 0) && leb (length id) max_device_id_len && all is_id_byte id) device

-- `char::is_whitespace`.
abbrev pub is_whitespace : ℕ → Bool
is_whitespace c =
    within 9 13 c
    || c == 32
    || c == 133
    || c == 160
    || c == 5760
    || within 8192 8202 c
    || within 8232 8233 c
    || c == 8239
    || c == 8287
    || c == 12288

-- `char::is_control`.
abbrev pub is_control : ℕ → Bool
is_control c = within 0 31 c || within 127 159 c

unfoldable pub is_format : ℕ → Bool
is_format c =
    c == 173
    || within 1536 1541 c
    || c == 1564
    || c == 1757
    || c == 1807
    || within 2192 2193 c
    || c == 2274
    || c == 6158
    || within 8203 8207 c
    || within 8232 8238 c
    || within 8288 8292 c
    || within 8294 8303 c
    || c == 65279
    || within 65529 65531 c
    || c == 69821
    || c == 69837
    || within 78896 78911 c
    || within 113824 113827 c
    || within 119155 119162 c
    || c == 917505
    || within 917536 917631 c

abbrev pub starts_blank : List ℕ → Bool
starts_blank [] = false
starts_blank (c ∷ cs) = is_whitespace c

abbrev pub ends_blank : List ℕ → Bool
ends_blank [] = false
ends_blank (c ∷ []) = is_whitespace c
ends_blank (c ∷ d ∷ cs) = ends_blank (d ∷ cs)

-- `name.trim() != name`: it starts or ends with white space.
unfoldable pub validate_name : List ℕ → Result Error (Unit {0})
unfolding is_format
validate_name name = do
  guard (not (length name == 0) && not (starts_blank name) && not (ends_blank name)) device
  guard (leb (length name) max_name_chars) device
  guard (not (any (λ c. is_control c || is_format c) name)) device
