-- ===== src/Privacy/Exclusions.antt =====
-- privacy.rs, `new`: the user's entries add to the excluded applications.
use panora.Prelude.{
  ◌≡◌, ◌≢◌, refl, ◌∙◌, ap, Bool, true, false, not, ◌&&◌, some, List, [], ◌∷◌, ◌++◌, map, any,
  contains, ◌==◌, ==-refl, ==→eq, nat_eq, list_eq, Eq, Bool-cases, inl, inr, arith, if◌then◌else◌,
}
use panora.Privacy.{
  Chars, PrivacyEngine, allow, default_excluded_apps, lowercase, trim, has_part, is_empty, exclude,
  new, set_private_mode, evaluate,
}
use panora.Privacy.Parts.{Holds, Holds→has_part, any-contains}

contains-append_left :
    {A : Type 0} ⦃e : Eq A⦄ (xs ys : List A) (x : A)
    → contains xs x ≡ true
    → contains (xs ++ ys) x ≡ true
contains-append_left [] ys x h = absurd cc
contains-append_left (z ∷ xs) ys x h = ground (arith, contains-append_left xs ys x)

contains-append_right :
    {A : Type 0} ⦃e : Eq A⦄ (xs : List A) (x : A) → contains (xs ++ x ∷ []) x ≡ true
contains-append_right [] x = rw (==-refl x) refl
contains-append_right (z ∷ xs) x = ground (arith, contains-append_right xs x)

-- One step of the loop.
abbrev add : List Chars → Chars → List Chars
add excluded a =
    if not (is_empty a) && not (contains excluded a) then excluded ++ a ∷ [] else excluded

contains-add :
    (excluded : List Chars) (a x : Chars)
    → contains excluded x ≡ true
    → contains (add excluded a) x ≡ true
contains-add excluded a x h = elim (Bool-cases (not (is_empty a) && not (contains excluded a))) [
  | inl e ↦ rw e (contains-append_left excluded (a ∷ []) x h)
  | inr e ↦ rw e h
]

add-contains :
    (excluded : List Chars) (a : Chars) → is_empty a ≡ false → contains (add excluded a) a ≡ true
add-contains excluded a e = elim (Bool-cases (contains excluded a)) [
  | inl h ↦ contains-add excluded a a h
  | inr h ↦ rw (e, h) (contains-append_right excluded a)
]

exclude-keeps :
    (apps excluded : List Chars) (x : Chars)
    → contains excluded x ≡ true
    → contains (exclude excluded apps) x ≡ true
unfolding exclude
exclude-keeps [] excluded x h = h
exclude-keeps (app ∷ apps) excluded x h =
    exclude-keeps apps (add excluded (lowercase (trim app))) x
      (contains-add excluded (lowercase (trim app)) x h)

exclude-adds :
    (apps excluded : List Chars) (app : Chars)
    → contains apps app ≡ true
    → is_empty (lowercase (trim app)) ≡ false
    → contains (exclude excluded apps) (lowercase (trim app)) ≡ true
unfolding exclude
exclude-adds [] excluded app h e = absurd cc
exclude-adds (x ∷ apps) excluded app h e = elim (Bool-cases (x == app)) [
  | inl same ↦
      let eq : x ≡ app = ==→eq x app same in
      let a = lowercase (trim app) in
      exclude-keeps apps (add excluded (lowercase (trim x))) a (
        ap (λ (y : Chars). contains (add excluded (lowercase (trim y))) a) eq
        ∙ add-contains excluded a e)
  | inr other ↦ exclude-adds apps (add excluded (lowercase (trim x))) app (ground arith) e
]

-- What an engine with the user's entries looks for in the name of an application.
pub data Excludes (user_excluded : List Chars) : Chars → Type 0 where
  by_default :
      (a : Chars)
      → contains (map lowercase default_excluded_apps) a ≡ true
      → Excludes user_excluded a
  by_user :
      (app : Chars)
      → contains user_excluded app ≡ true
      → is_empty (lowercase (trim app)) ≡ false
      → Excludes user_excluded (lowercase (trim app))

excluded_apps-contains :
    (user_excluded : List Chars) (part : Chars)
    → Excludes user_excluded part
    → contains (new user_excluded).excluded_apps part ≡ true
unfolding new
excluded_apps-contains user_excluded part (by_default a h) =
    exclude-keeps user_excluded (map lowercase default_excluded_apps) a h
excluded_apps-contains user_excluded part (by_user app h e) =
    exclude-adds user_excluded (map lowercase default_excluded_apps) app h e

excluded-refused :
    (e : PrivacyEngine) (ms : List Chars) (app : Chars)
    → any (has_part (lowercase app)) e.excluded_apps ≡ true
    → evaluate e ms (some app) ≢ allow
unfolding evaluate
excluded-refused e ms app h v = absurd (ground arith)

-- An engine made with the user's entries, in private mode or not, never allows a copy from an
-- application whose name holds a default entry, or a trimmed entry of the user that is not empty,
-- in any case of the ASCII letters of both.
pub evaluate-new :
    (user_excluded offered_mimes : List Chars) (on : Bool) (app part : Chars)
    → Excludes user_excluded part
    → Holds part (lowercase app)
    → evaluate (set_private_mode on (new user_excluded)) offered_mimes (some app) ≢ allow
unfolding set_private_mode
evaluate-new user_excluded offered_mimes on app part x h =
    excluded-refused (set_private_mode on (new user_excluded)) offered_mimes app (
      any-contains (has_part (lowercase app)) (new user_excluded).excluded_apps part
        (excluded_apps-contains user_excluded part x) (Holds→has_part part (lowercase app) h))
