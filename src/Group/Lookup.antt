-- ===== src/Group/Lookup.antt =====
-- group.rs, `Roster::member`: `binary_search_by` on a sorted list finds what `member_in` finds.
use panora.Prelude.{
  ℕ, zero, suc, ◌≡◌, refl, sym, ◌∙◌, ap, subst, true, false, Option, none, some, List, [], ◌∷◌, map,
  contains, get_elem?, ◌==◌, ==-refl, ==→eq, nat_eq, list_eq, text_lt, text_lt_irrefl,
  text_lt_trans, Bool-cases, Option-cases, inl, inr, arith,
}
use panora.Rosters.{Identity, Member}
use panora.Group.{member_in, is_sorted}

-- What the standard library documents of the search by identity, on sorted members.
pub record IsBinarySearch (search : Identity → List Member → Option Member) : Type 0 where
  pub found :
      (identity : Identity) (ms : List Member) (m : Member)
      → is_sorted ms ≡ true
      → search identity ms ≡ some m
      → (n : ℕ) × ((get_elem? ms n ≡ some m) × (m.identity ≡ identity))
  pub absent :
      (identity : Identity) (ms : List Member)
      → is_sorted ms ≡ true
      → search identity ms ≡ none
      → contains (map (λ m. m.identity) ms) identity ≡ false

sorted_tail : (x : Member) (ms : List Member) → is_sorted (x ∷ ms) ≡ true → is_sorted ms ≡ true
unfolding is_sorted
sorted_tail x [] h = refl
sorted_tail x (y ∷ ms) h = ground arith

sorted_below :
    (x : Member) (ms : List Member) (n : ℕ) (m : Member)
    → is_sorted (x ∷ ms) ≡ true
    → get_elem? ms n ≡ some m
    → text_lt x.identity m.identity ≡ true
unfolding is_sorted
sorted_below x [] n m h e = absurd (ground arith)
sorted_below x (y ∷ ms) zero m h e =
    let same : y ≡ m = ground arith in
    subst (λ (z : Member). text_lt x.identity z.identity ≡ true) same (ground arith)
sorted_below x (y ∷ ms) (suc n) m h e =
    text_lt_trans x.identity y.identity m.identity (ground arith)
      (sorted_below y ms n m (ground arith) e)

member_in-get_elem? :
    (ms : List Member) (n : ℕ) (m : Member)
    → is_sorted ms ≡ true
    → get_elem? ms n ≡ some m
    → member_in m.identity ms ≡ some m
unfolding member_in
member_in-get_elem? [] n m h e = absurd (ground arith)
member_in-get_elem? (x ∷ ms) zero m h e =
    let same : x ≡ m = ground arith in
    rw (ap (λ (z : Member). z.identity == m.identity) same ∙ ==-refl m.identity) (ap some same)
member_in-get_elem? (x ∷ ms) (suc n) m h e =
    let below : text_lt x.identity m.identity ≡ true = sorted_below x ms n m h e in
    elim (Bool-cases (x.identity == m.identity)) [
      | inl same ↦
          let loop : text_lt m.identity m.identity ≡ true =
            subst (λ (z : Identity). text_lt z m.identity ≡ true) (==→eq x.identity m.identity same)
              below in
          absurd (ground (arith, text_lt_irrefl m.identity))
      | inr other ↦ rw other (member_in-get_elem? ms n m (sorted_tail x ms h) e)
    ]

member_in_absent :
    (identity : Identity) (ms : List Member)
    → contains (map (λ m. m.identity) ms) identity ≡ false
    → member_in identity ms ≡ none
unfolding member_in
member_in_absent identity [] h = refl
member_in_absent identity (x ∷ ms) h = ground (arith, member_in_absent identity ms)

-- Whatever search the standard library makes, on the sorted members of a roster that `verify`
-- accepts it gives what `member_in` gives.
search-member_in :
    (search : Identity → List Member → Option Member)
    → IsBinarySearch search
    → (identity : Identity) (ms : List Member) → is_sorted ms ≡ true
    → search identity ms ≡ member_in identity ms
search-member_in search law identity ms h = elim (Option-cases (search identity ms)) [
  | inl e ↦ e ∙ sym (member_in_absent identity ms (law.absent identity ms h e))
  | inr (m, e) ↦
      let (n, (there, same)) = law.found identity ms m h e in
      e
      ∙ sym (ap (λ (i : Identity). member_in i ms) (sym same) ∙ member_in-get_elem? ms n m h there)
]
