-- ===== src/Pairing/Link/Trip.antt =====
-- invite.rs: a link is read back as the invitation that it was made of.
use panora.Prelude.{
  ◌+◌, ◌≤◌, ◌≡◌, refl, sym, subst, ap, ◌∙◌, true, false, not, ◌&&◌, Option, none, some, List, [],
  ◌∷◌, ◌++◌, append-nil, append_assoc, Bytes, codes, length, length-append, contains, leb, ◌==◌,
  nat_eq, list_eq, arith, ok, ℤ,
}
use panora.Privacy.{Chars, len, trim}
use panora.Privacy.Parts.{IsSolid}
use panora.Pairing.Link.{
  Texts, Link, Fields, uri_prefix, max_uri_len, max_addrs, public_key_len, addr_fields, to_uri,
  escape, split, split_once, strip_prefix, decode_32, is_bracketed, take_addr, take_field,
  take_fields, no_fields, parse, show_int,
}
use panora.Pairing.Link.Pieces.{
  Lacks, Lacks-append, Lacks-escape, Ends, Ends-append, Ends-escape, split_last, split-append,
  split_once-append, strip_prefix-append, trim_solid, unescape-escape,
}
use panora.Pairing.Link.Decimals.{IsI64, read_int-show_int, show_int-Ends, show_int-Lacks}

-- What base64 and the standard library document: both texts read back, hold no `&`, and a socket
-- address with a `%` is one in brackets and ends in no space.
pub record AreTexts {Addr : Type 0} (t : Texts Addr) : Type 0 where
  pub decodes : (bytes : Bytes) → t.decode (t.encode bytes) ≡ some bytes
  pub plain : (bytes : Bytes) → Lacks 38 (t.encode bytes)
  pub reads : (a : Addr) → t.read (t.show a) ≡ some a
  pub shows : (a : Addr) → Lacks 38 (t.show a)
  pub zoned : (a : Addr) → (contains (t.show a) 37 && not (is_bracketed (t.show a))) ≡ false
  pub visible : (a : Addr) → Ends (t.show a)

module _ {Addr : Type 0} (t : Texts Addr) (law : AreTexts t) where
  abbrev parts_of : List Addr → List Chars
  parts_of [] = []
  parts_of (a ∷ rest) = (codes "addr=" ++ escape (t.show a)) ∷ parts_of rest

  split-addr_fields :
      (xs : Chars) (addrs : List Addr)
      → Lacks 38 xs
      → split 38 (xs ++ addr_fields t addrs) ≡ xs ∷ parts_of addrs
  split-addr_fields xs [] h = ap (split 38) (append-nil xs) ∙ split_last 38 xs h
  split-addr_fields xs (a ∷ rest) h =
      let field : Chars = codes "addr=" ++ escape (t.show a) in
      split-append 38 xs (field ++ addr_fields t rest) h
      ∙ ap (λ (x : List Chars). xs ∷ x)
          (split-addr_fields field rest (
            Lacks-append 38 (codes "addr=") (escape (t.show a)) refl
              (Lacks-escape (t.show a) (law.shows a))))

  take_addr-escape :
      (a : Addr) (f : Fields Addr)
      → (length f.addrs == max_addrs) ≡ false
      → take_addr t (escape (t.show a)) f ≡ ok (record f { addrs = f.addrs ++ a ∷ [] })
  unfolding take_addr
  take_addr-escape a f room = rw (room, unescape-escape (t.show a), law.zoned a, law.reads a) refl

  take_fields-cons :
      (pair key value : Chars) (pairs : List Chars) (f f' : Fields Addr)
      → split_once 61 pair ≡ some (key, value)
      → take_field t key value f ≡ ok f'
      → take_fields t (pair ∷ pairs) f ≡ take_fields t pairs f'
  unfolding take_fields
  take_fields-cons pair key value pairs f f' s e = rw (s, e) refl

  take_fields-addrs :
      (addrs : List Addr) (f : Fields Addr)
      → length f.addrs + length addrs ≤ max_addrs
      → take_fields t (parts_of addrs) f ≡ ok (record f { addrs = f.addrs ++ addrs })
  unfolding take_fields take_field
  take_fields-addrs [] f h =
      ap (λ (x : List Addr). ok (record f { addrs = x })) (sym (append-nil f.addrs))
  take_fields-addrs (a ∷ rest) f h =
      let room : (length f.addrs == max_addrs) ≡ false = ground (arith, h) in
      let grown : Fields Addr = record f { addrs = f.addrs ++ a ∷ [] } in
      take_fields-cons (codes "addr=" ++ escape (t.show a)) (codes "addr") (escape (t.show a))
        (parts_of rest) f grown (split_once-append 61 (codes "addr") (escape (t.show a)) refl)
        (take_addr-escape a f room)
      ∙ (take_fields-addrs rest grown (omega (arith, h, length-append f.addrs (a ∷ [])))
          ∙ ap (λ (x : List Addr). ok (record f { addrs = x }))
              (append_assoc f.addrs (a ∷ []) rest))

  decode_32-encode :
      (bytes : Bytes) → length bytes ≡ public_key_len → decode_32 t (t.encode bytes) ≡ ok bytes
  unfolding decode_32
  decode_32-encode bytes h = rw (law.decodes bytes, h) refl

  parse_lem :
      (text uri query : Chars) (l : Link Addr)
      → trim text ≡ uri
      → leb (len uri) max_uri_len ≡ true
      → strip_prefix uri_prefix uri ≡ some query
      → take_fields t (split 38 query) no_fields
        ≡ ok (record {
          id = some l.inviter;
          secret = some l.secret;
          exp = some l.expires_at;
          addrs = l.addrs;
        })
      → parse t text ≡ ok l
  unfolding parse
  parse_lem text uri query l e fits s fields = rw (e, fits, s, fields) refl

  module _ (l : Link Addr) where
    abbrev tail_of : Chars
    tail_of = show_int l.expires_at ++ addr_fields t l.addrs

    abbrev query_of : Chars
    query_of =
        codes "id="
        ++ (t.encode l.inviter
            ++ (codes "&s=" ++ (t.encode l.secret ++ (codes "&exp=" ++ tail_of))))

    split-query :
        split 38 query_of
        ≡ (codes "id=" ++ t.encode l.inviter)
          ∷ (codes "s=" ++ t.encode l.secret)
          ∷ (codes "exp=" ++ show_int l.expires_at)
          ∷ parts_of l.addrs
    split-query =
        split-append 38 (codes "id=" ++ t.encode l.inviter)
          (codes "s=" ++ (t.encode l.secret ++ (codes "&exp=" ++ tail_of)))
          (Lacks-append 38 (codes "id=") (t.encode l.inviter) refl (law.plain l.inviter))
        ∙ ap (λ (x : List Chars). (codes "id=" ++ t.encode l.inviter) ∷ x)
            (split-append 38 (codes "s=" ++ t.encode l.secret) (codes "exp=" ++ tail_of)
                (Lacks-append 38 (codes "s=") (t.encode l.secret) refl (law.plain l.secret))
              ∙ ap (λ (x : List Chars). (codes "s=" ++ t.encode l.secret) ∷ x)
                  (split-addr_fields (codes "exp=" ++ show_int l.expires_at) l.addrs (
                    Lacks-append 38 (codes "exp=") (show_int l.expires_at) refl
                      (show_int-Lacks l.expires_at))))

    abbrev read_so_far : Option Bytes → Option Bytes → Option ℤ → Fields Addr
    read_so_far id secret exp = record { id = id; secret = secret; exp = exp; addrs = [] }

    take_id :
        length l.inviter ≡ public_key_len
        → take_field t (codes "id") (t.encode l.inviter) no_fields
          ≡ ok (read_so_far (some l.inviter) none none)
    unfolding take_field
    take_id h = rw (decode_32-encode l.inviter h) refl

    take_secret :
        length l.secret ≡ public_key_len
        → take_field t (codes "s") (t.encode l.secret) (read_so_far (some l.inviter) none none)
          ≡ ok (read_so_far (some l.inviter) (some l.secret) none)
    unfolding take_field
    take_secret h = rw (decode_32-encode l.secret h) refl

    take_exp :
        IsI64 l.expires_at
        → take_field t
            (codes "exp")
            (show_int l.expires_at)
            (read_so_far (some l.inviter) (some l.secret) none)
          ≡ ok (read_so_far (some l.inviter) (some l.secret) (some l.expires_at))
    unfolding take_field
    take_exp h = rw (read_int-show_int l.expires_at h) refl

    take_fields-query :
        length l.inviter ≡ public_key_len
        → length l.secret ≡ public_key_len
        → IsI64 l.expires_at
        → length l.addrs ≤ max_addrs
        → take_fields t (split 38 query_of) no_fields
          ≡ ok (record {
            id = some l.inviter;
            secret = some l.secret;
            exp = some l.expires_at;
            addrs = l.addrs;
          })
    take_fields-query a b c d =
        ap (λ (x : List Chars). take_fields t x no_fields) split-query
        ∙ (take_fields-cons (codes "id=" ++ t.encode l.inviter) (codes "id") (t.encode l.inviter) _
              no_fields (read_so_far (some l.inviter) none none)
              (split_once-append 61 (codes "id") (t.encode l.inviter) refl) (take_id a)
            ∙ (take_fields-cons (codes "s=" ++ t.encode l.secret) (codes "s") (t.encode l.secret) _
                  (read_so_far (some l.inviter) none none)
                  (read_so_far (some l.inviter) (some l.secret) none)
                  (split_once-append 61 (codes "s") (t.encode l.secret) refl) (take_secret b)
                ∙ (take_fields-cons (codes "exp=" ++ show_int l.expires_at) (codes "exp")
                      (show_int l.expires_at) (parts_of l.addrs)
                      (read_so_far (some l.inviter) (some l.secret) none)
                      (read_so_far (some l.inviter) (some l.secret) (some l.expires_at))
                      (split_once-append 61 (codes "exp") (show_int l.expires_at) refl) (take_exp c)
                    ∙ take_fields-addrs l.addrs
                        (read_so_far (some l.inviter) (some l.secret) (some l.expires_at))
                        (omega (arith, d)))))

    Ends-addr_fields : (xs : Chars) (addrs : List Addr) → Ends xs → Ends (xs ++ addr_fields t addrs)
    Ends-addr_fields xs [] h = subst Ends (sym (append-nil xs)) h
    Ends-addr_fields xs (a ∷ rest) h =
        Ends-append xs (codes "&addr=" ++ (escape (t.show a) ++ addr_fields t rest)) (
          Ends-append (codes "&addr=") (escape (t.show a) ++ addr_fields t rest)
            (Ends-addr_fields (escape (t.show a)) rest (Ends-escape (t.show a) (law.visible a))))

    uri-IsSolid : IsSolid (uri_prefix ++ query_of)
    uri-IsSolid =
        let ending : Ends (uri_prefix ++ query_of) = Ends-append uri_prefix query_of (
          Ends-append (codes "id=") _ (
            Ends-append (t.encode l.inviter) _ (
              Ends-append (codes "&s=") _ (
                Ends-append (t.encode l.secret) _ (
                  Ends-append (codes "&exp=") tail_of (
                    Ends-addr_fields (show_int l.expires_at) l.addrs
                      (show_int-Ends l.expires_at))))))) in
        record {
          head = 112;
          tail = _;
          cons = refl;
          starts = refl;
          end = ending.end;
          is_last = ending.is_last;
          ends = ending.ends;
        }

    -- If base64 and socket addresses read back as they were written, an invitation with keys of 32
    -- bytes, an expiry that fits an `i64`, at most eight addresses and a link of at most 1024
    -- bytes is parsed back from its link.
    pub parse-to_uri :
        length l.inviter ≡ public_key_len
        → length l.secret ≡ public_key_len
        → IsI64 l.expires_at
        → length l.addrs ≤ max_addrs
        → len (to_uri t l) ≤ max_uri_len
        → parse t (to_uri t l) ≡ ok l
    unfolding to_uri
    parse-to_uri a b c d short =
        parse_lem (to_uri t l) (uri_prefix ++ query_of) query_of l
          (trim_solid (uri_prefix ++ query_of) uri-IsSolid) (ground (arith, short))
          (strip_prefix-append uri_prefix query_of) (take_fields-query a b c d)
