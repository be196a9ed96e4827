-- ===== src/Pairing/Link/Examples.antt =====
-- The link of an invitation with two addresses.
use panora.Prelude.{
  ◌+◌, ◌-◌, ◌≡◌, refl, ap, Bool, true, false, not, ◌&&◌, none, some, [], ◌∷◌, Bytes, codes, map,
  contains, ◌==◌, nat_eq, list_eq, arith, ok, pos, if◌then◌else◌,
}
use panora.Crypto.Toy.{repeat}
use panora.Privacy.{Chars, len}
use panora.Pairing.Link.{Texts, Link, to_uri, parse, show_int, escape, is_bracketed}
use panora.Pairing.Link.Pieces.{Lacks, Ends}
use panora.Pairing.Link.Trip.{AreTexts, parse-to_uri}

-- Two addresses, one of which has a zone; bytes are written as characters that come after `/`.
abbrev zoned_addr : Chars
zoned_addr = codes "[fe80::1%3]:47100"

abbrev plain_addr : Chars
plain_addr = codes "192.168.1.20:47100"

abbrev toy : Texts Bool
toy = record {
  encode = map (λ b. b + 48);
  decode = λ cs. some (map (λ c. c - 48) cs);
  show = λ a. if a then zoned_addr else plain_addr;
  read =
      λ cs. if cs == zoned_addr then some true else if cs == plain_addr then some false else none;
}

toy_decodes : (bytes : Bytes) → map (λ c. c - 48) (map (λ b. b + 48) bytes) ≡ bytes
toy_decodes [] = refl
toy_decodes (b ∷ bs) = let same : b + 48 - 48 ≡ b = omega arith in rw (same, toy_decodes bs) refl

toy_plain : (bytes : Bytes) → Lacks 38 (map (λ b. b + 48) bytes)
toy_plain [] = refl
toy_plain (b ∷ bs) = ground (arith, toy_plain bs)

toy_reads : (a : Bool) → toy.read (toy.show a) ≡ some a
toy_reads true = refl
toy_reads false = refl

toy_shows : (a : Bool) → Lacks 38 (toy.show a)
toy_shows true = refl
toy_shows false = refl

toy_zoned : (a : Bool) → (contains (toy.show a) 37 && not (is_bracketed (toy.show a))) ≡ false
toy_zoned true = refl
toy_zoned false = refl

toy_visible : (a : Bool) → Ends (toy.show a)
toy_visible true = record { end = 48; is_last = refl; ends = refl }
toy_visible false = record { end = 48; is_last = refl; ends = refl }

toy-AreTexts : AreTexts toy
toy-AreTexts = record {
  decodes = λ bytes. ap some (toy_decodes bytes);
  plain = toy_plain;
  reads = toy_reads;
  shows = toy_shows;
  zoned = toy_zoned;
  visible = toy_visible;
}

abbrev link : Link Bool
link = record {
  inviter = repeat 32 1;
  secret = repeat 32 2;
  expires_at = pos 1700000600;
  addrs = true ∷ false ∷ [];
}

parse-to_uri_example : parse toy (to_uri toy link) ≡ ok link
unfolding to_uri len show_int escape
parse-to_uri_example =
    parse-to_uri toy toy-AreTexts link refl refl (omega arith) (omega arith) (omega arith)

test_expiry : show_int (pos 1700000600) ≡ codes "1700000600"
unfolding show_int
test_expiry = refl
