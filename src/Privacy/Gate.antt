-- ===== src/Privacy/Gate.antt =====
-- privacy.rs, `evaluate`: which copies are refused, however their names are written.
use panora.Prelude.{
  ℕ, ◌≡◌, ◌≢◌, refl, sym, ◌∙◌, ap, subst, Bool, true, false, ◌||◌, Option, none, some, List, [],
  ◌∷◌, codes, length, map, any, contains, ◌==◌, ==→eq, nat_eq, list_eq, Bool-cases, inl, inr, arith,
  ltb,
}
use panora.Privacy.{
  Chars, PrivacyEngine, allow, secret_mime_markers, secret_flag_mimes, is_flag, max_mime_len,
  lowercase, len, trim, has_part, is_secret, has_secret_flag, evaluate, is_long_app, is_excluded,
}
use panora.Privacy.Letters.{lowercase-lowercase, len-lowercase, length-lowercase, trim-lowercase}
use panora.Privacy.Parts.{Holds, Holds→has_part, IsSolid, trim-Holds, any-contains}

abbrev pub lowercase_app : Option Chars → Option Chars
lowercase_app none = none
lowercase_app (some app) = some (lowercase app)

any-lowercase :
    (f : Chars → Bool)
    → ((cs : Chars) → f (lowercase cs) ≡ f cs)
    → (ms : List Chars) → any f (map lowercase ms) ≡ any f ms
any-lowercase f same [] = refl
any-lowercase f same (m ∷ ms) = rw (same m, any-lowercase f same ms) refl

length-map-lowercase : (ms : List Chars) → length (map lowercase ms) ≡ length ms
length-map-lowercase [] = refl
length-map-lowercase (m ∷ ms) = omega (arith, length-map-lowercase ms)

is_secret-lowercase : (m : Chars) → is_secret (lowercase m) ≡ is_secret m
unfolding is_secret
is_secret-lowercase m = rw (trim-lowercase m, lowercase-lowercase (trim m)) refl

is_long_app-lowercase : (app : Option Chars) → is_long_app (lowercase_app app) ≡ is_long_app app
is_long_app-lowercase none = refl
is_long_app-lowercase (some app) = rw (length-lowercase app) refl

is_excluded-lowercase :
    (e : PrivacyEngine) (app : Option Chars) → is_excluded e (lowercase_app app) ≡ is_excluded e app
is_excluded-lowercase e none = refl
is_excluded-lowercase e (some app) = rw (lowercase-lowercase app) refl

-- The verdict on a copy is the one on the same copy with the ASCII letters of its MIME types and
-- of its source application in lower case.
pub evaluate-lowercase :
    (e : PrivacyEngine) (offered_mimes : List Chars) (source_app : Option Chars)
    → evaluate e (map lowercase offered_mimes) (lowercase_app source_app)
      ≡ evaluate e offered_mimes source_app
unfolding evaluate has_secret_flag
evaluate-lowercase e offered_mimes source_app =
    rw
      (
        length-map-lowercase offered_mimes,
        any-lowercase (λ m. ltb max_mime_len (len m))
            (λ m. ap (λ (n : ℕ). ltb max_mime_len n) (len-lowercase m)) offered_mimes,
        is_long_app-lowercase source_app,
        any-lowercase is_secret is_secret-lowercase offered_mimes,
        is_excluded-lowercase e source_app,
      )
      refl

marker-IsSolid : (marker : Chars) → contains secret_mime_markers marker ≡ true → IsSolid marker
marker-IsSolid marker h = elim (Bool-cases (codes "passwordmanagerhint" == marker)) [
  | inl a ↦ subst IsSolid (==→eq (codes "passwordmanagerhint") marker a) (record {
    head = 112;
    tail = _;
    cons = refl;
    starts = refl;
    end = 116;
    is_last = refl;
    ends = refl;
  })
  | inr a ↦ elim (Bool-cases (codes "concealedtype" == marker)) [
    | inl b ↦ subst IsSolid (==→eq (codes "concealedtype") marker b) (record {
      head = 99;
      tail = _;
      cons = refl;
      starts = refl;
      end = 101;
      is_last = refl;
      ends = refl;
    })
    | inr b ↦ elim (Bool-cases (codes "clipboard viewer ignore" == marker)) [
      | inl c ↦ subst IsSolid (==→eq (codes "clipboard viewer ignore") marker c) (record {
        head = 99;
        tail = _;
        cons = refl;
        starts = refl;
        end = 101;
        is_last = refl;
        ends = refl;
      })
      | inr c ↦ absurd (ground arith)
    ]
  ]
]

marked-is_secret :
    (m marker : Chars)
    → contains secret_mime_markers marker ≡ true
    → Holds marker (lowercase m)
    → is_secret m ≡ true
unfolding is_secret
marked-is_secret m marker k h =
    let inside : has_part (lowercase (trim m)) marker ≡ true =
      ap (λ (x : Chars). has_part x marker) (sym (trim-lowercase m))
      ∙ Holds→has_part marker (trim (lowercase m))
          (trim-Holds marker (lowercase m) (marker-IsSolid marker k) h) in
    let found : any (has_part (lowercase (trim m))) secret_mime_markers ≡ true =
      any-contains (has_part (lowercase (trim m))) secret_mime_markers marker k inside in
    or-true (any (is_flag (lowercase (trim m))) secret_flag_mimes) _ found
  where
    or-true : (a b : Bool) → b ≡ true → (a || b) ≡ true
    or-true true b h = refl
    or-true false b h = h

secret-refused :
    (e : PrivacyEngine) (ms : List Chars) (app : Option Chars)
    → has_secret_flag ms ≡ true
    → evaluate e ms app ≢ allow
unfolding evaluate
secret-refused e ms app h v = absurd (ground arith)

-- Whatever the engine, a copy that offers a MIME type with one of the password managers' markers
-- anywhere in it, in any case of its ASCII letters, is never allowed.
pub evaluate-marked :
    (e : PrivacyEngine) (offered_mimes : List Chars) (source_app : Option Chars) (m marker : Chars)
    → contains offered_mimes m ≡ true
    → contains secret_mime_markers marker ≡ true
    → Holds marker (lowercase m)
    → evaluate e offered_mimes source_app ≢ allow
unfolding has_secret_flag
evaluate-marked e offered_mimes source_app m marker i k h =
    secret-refused e offered_mimes source_app
      (any-contains is_secret offered_mimes m i (marked-is_secret m marker k h))
