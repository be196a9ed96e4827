-- ===== src/Pairing/Link.antt =====
-- crates/panora-sync/src/invite.rs: the text of an invitation link. Texts are lists of code points.
mod Examples
pub mod Trip
pub mod Pieces
pub mod Decimals
use panora.Prelude.{
  ℕ, zero, suc, ◌+◌, ◌-◌, ◌*◌, ◌/◌, ◌%◌, ◌^◌, ◌≤◌, Bool, true, false, not, ◌&&◌, ◌||◌, Option, none,
  some, List, [], ◌∷◌, ◌++◌, Bytes, codes, length, map, take, any, contains, ◌==◌, nat_eq, list_eq,
  ltb, leb, if◌then◌else◌, Result, ok, err, ◌>>=◌, ◌>>◌, guard, ok_or, ℤ, pos, negsuc,
}
use panora.Rosters.{Identity}
use panora.Privacy.{Chars, len, trim}
use panora.Pairing.{Error, invitation}

abbrev pub uri_prefix : Chars
uri_prefix = codes "panora-pair:1?"

abbrev pub max_uri_len : ℕ
max_uri_len = 1024

abbrev pub max_addrs : ℕ
max_addrs = 8

abbrev pub public_key_len : ℕ
public_key_len = 32

-- The crate base64 (URL_SAFE_NO_PAD), and the text of a socket address.
pub record Texts (Addr : Type 0) : Type 0 where
  pub encode : Bytes → Chars
  pub decode : Chars → Option Bytes
  pub show : Addr → Chars
  pub read : Chars → Option Addr

-- An invitation with its addresses.
pub record Link (Addr : Type 0) : Type 0 where
  pub inviter : Identity
  pub secret : Bytes
  pub expires_at : ℤ
  pub addrs : List Addr

-- The decimal digits of a number, at most so many.
abbrev pub digits : ℕ → ℕ → Chars
digits zero n = []
digits (suc fuel) n =
    let rest = digits fuel (n / 10) in
    if ltb n 10 then (48 + n) ∷ [] else rest ++ (48 + n % 10) ∷ []

-- An `i64` has at most 19 digits.
unfoldable pub show_int : ℤ → Chars
show_int (pos n) = digits 19 n
show_int (negsuc n) = 45 ∷ digits 19 (suc n)

abbrev pub read_digits : ℕ → Chars → Option ℕ
read_digits acc [] = some acc
read_digits acc (c ∷ cs) =
    let rest = read_digits (acc * 10 + (c - 48)) cs in if leb 48 c && leb c 57 then rest else none

abbrev pub in_range : ℕ → Option ℕ → Option ℕ
in_range limit none = none
in_range limit (some n) = if leb n limit then some n else none

abbrev pub positive : Option ℕ → Option ℤ
positive none = none
positive (some n) = some (pos n)

abbrev pub negative : Option ℕ → Option ℤ
negative none = none
negative (some zero) = some (pos 0)
negative (some (suc n)) = some (negsuc n)

abbrev pub read_nat : Chars → Option ℕ
read_nat [] = none
read_nat (c ∷ cs) = read_digits 0 (c ∷ cs)

-- `str::parse` of an `i64`.
unfoldable pub read_int : Chars → Option ℤ
read_int [] = none
read_int (c ∷ cs) =
    if c == 45
    then negative (in_range (2 ^ 63) (read_nat cs))
    else if c == 43
    then positive (in_range (2 ^ 63 - 1) (read_nat cs))
    else positive (in_range (2 ^ 63 - 1) (read_nat (c ∷ cs)))

-- `replace('%', "%25")`, and back.
unfoldable pub escape : Chars → Chars
escape [] = []
escape (c ∷ cs) = if c == 37 then 37 ∷ 50 ∷ 53 ∷ escape cs else c ∷ escape cs

unfoldable pub unescape : Chars → Chars
unescape (a ∷ b ∷ c ∷ cs) =
    let rest = unescape cs in
    let next = unescape (b ∷ c ∷ cs) in
    if a == 37 && b == 50 && c == 53 then 37 ∷ rest else a ∷ next
unescape cs = cs

abbrev pub addr_fields : {Addr : Type 0} → Texts Addr → List Addr → Chars
addr_fields t [] = []
addr_fields t (a ∷ as') = codes "&addr=" ++ (escape (t.show a) ++ addr_fields t as')

unfoldable pub to_uri : {Addr : Type 0} → Texts Addr → Link Addr → Chars
unfolding escape show_int
to_uri t l =
    uri_prefix
    ++ (codes "id="
        ++ (t.encode l.inviter
            ++ (codes "&s="
                ++ (t.encode l.secret
                    ++ (codes "&exp=" ++ (show_int l.expires_at ++ addr_fields t l.addrs))))))

abbrev pub before : ℕ → List Chars → List Chars
before c [] = (c ∷ []) ∷ []
before c (part ∷ parts) = (c ∷ part) ∷ parts

-- `str::split`.
unfoldable pub split : ℕ → Chars → List Chars
split sep [] = [] ∷ []
split sep (c ∷ cs) = let rest = split sep cs in if c == sep then [] ∷ rest else before c rest

abbrev pub with_first : ℕ → Option (Chars × Chars) → Option (Chars × Chars)
with_first c none = none
with_first c (some (key, value)) = some (c ∷ key, value)

-- `str::split_once`.
unfoldable pub split_once : ℕ → Chars → Option (Chars × Chars)
split_once sep [] = none
split_once sep (c ∷ cs) =
    let rest = with_first c (split_once sep cs) in if c == sep then some ([], cs) else rest

-- `str::strip_prefix`.
unfoldable pub strip_prefix : Chars → Chars → Option Chars
strip_prefix [] cs = some cs
strip_prefix (p ∷ ps) [] = none
strip_prefix (p ∷ ps) (c ∷ cs) = let rest = strip_prefix ps cs in if p == c then rest else none

pub record Fields (Addr : Type 0) : Type 0 where
  pub id : Option Bytes
  pub secret : Option Bytes
  pub exp : Option ℤ
  pub addrs : List Addr

abbrev pub set_once : {A : Type 0} → Option A → A → Result Error (Option A)
set_once none a = ok (some a)
set_once (some old) a = err invitation

unfoldable pub decode_32 : {Addr : Type 0} → Texts Addr → Chars → Result Error Bytes
decode_32 t value = do
  bytes ← ok_or (t.decode value) invitation
  guard (length bytes == public_key_len) invitation
  ok bytes

abbrev pub is_bracketed : Chars → Bool
is_bracketed [] = false
is_bracketed (c ∷ cs) = c == 91

unfoldable pub take_addr :
    {Addr : Type 0} → Texts Addr → Chars → Fields Addr → Result Error (Fields Addr)
unfolding unescape
take_addr t value f = do
  guard (not (length f.addrs == max_addrs)) invitation
  let text = unescape value
  guard (not (contains text 37 && not (is_bracketed text))) invitation
  a ← ok_or (t.read text) invitation
  ok (record f { addrs = f.addrs ++ a ∷ [] })

unfoldable pub take_field :
    {Addr : Type 0} → Texts Addr → Chars → Chars → Fields Addr → Result Error (Fields Addr)
unfolding decode_32 read_int take_addr
take_field t key value f =
    if key == codes "id"
    then (decode_32 t value >>= λ k. set_once f.id k >>= λ id. ok (record f { id = id }))
    else if key == codes "s"
    then (decode_32 t value >>= λ k.
        set_once f.secret k >>= λ secret. ok (record f { secret = secret }))
    else if key == codes "exp"
    then (ok_or (read_int value) invitation >>= λ n.
        set_once f.exp n >>= λ exp. ok (record f { exp = exp }))
    else if key == codes "addr"
    then take_addr t value f
    else ok f

-- The loop over the fields of the query.
unfoldable pub take_fields :
    {Addr : Type 0} → Texts Addr → List Chars → Fields Addr → Result Error (Fields Addr)
unfolding split_once take_field
take_fields t [] f = ok f
take_fields t (pair ∷ pairs) f = do
  (key, value) ← ok_or (split_once 61 pair) invitation
  f' ← take_field t key value f
  take_fields t pairs f'

abbrev pub no_fields : {Addr : Type 0} → Fields Addr
no_fields = record { id = none; secret = none; exp = none; addrs = [] }

unfoldable pub parse : {Addr : Type 0} → Texts Addr → Chars → Result Error (Link Addr)
unfolding trim len strip_prefix split take_fields
parse t text = do
  let uri = trim text
  guard (leb (len uri) max_uri_len) invitation
  query ← ok_or (strip_prefix uri_prefix uri) invitation
  f ← take_fields t (split 38 query) no_fields
  inviter ← ok_or f.id invitation
  secret ← ok_or f.secret invitation
  exp ← ok_or f.exp invitation
  ok (record { inviter = inviter; secret = secret; expires_at = exp; addrs = f.addrs })
