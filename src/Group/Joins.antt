-- ===== src/Group/Joins.antt =====
-- group.rs, `joined`: a device joins with the rosters of a state that loads and its current key.
use panora.Prelude.{
  ◌≡◌, refl, sym, ◌∙◌, ap, Bool, true, some, List, [], ◌∷◌, any, find, last, nat_eq, list_eq,
  Bool-cases, arith, inl, inr, ok,
}
use panora.Rosters.{Identity, Member, Roster, Crates}
use panora.Group.{member_in}
use panora.Group.State.{GroupKey, GroupState, joined, current_key, is_under, validate}
use panora.Group.Linked.{IsValid}
use panora.Group.Valid.{IsValid→validate}

any-last :
    {A : Type 0} (f : A → Bool) (xs : List A) (x : A)
    → last xs ≡ some x
    → f x ≡ true
    → any f xs ≡ true
any-last f [] x e h = absurd cc
any-last f (y ∷ []) x e h = let same : y ≡ x = cc in rw (ap f same ∙ h) refl
any-last f (y ∷ z ∷ xs) x e h = ground (arith, any-last f (z ∷ xs) x e h)

found : {A : Type 0} (f : A → Bool) (xs : List A) (x : A) → find f xs ≡ some x → f x ≡ true
found f [] x e = absurd cc
found f (y ∷ xs) x e = elim (Bool-cases (f y)) [
  | inl h ↦ let same : y ≡ x = ground arith in ap f (sym same) ∙ h
  | inr h ↦ found f xs x (ground arith)
]

module _ (crates : Crates) (s : GroupState) (c : Roster) (v : IsValid crates s c) where
  pub joined-current_key :
      (m : Member) (me : Identity) (key : GroupKey)
      → member_in me c.members ≡ some m
      → current_key crates s ≡ ok (some key)
      → joined crates me s.rosters key
        ≡ ok (record { me = me; rosters = s.rosters; keys = key ∷ [] })
  unfolding joined current_key
  joined-current_key m me key listed held =
      let under : is_under crates c.group_id key c ≡ true =
        found (λ k. is_under crates c.group_id k c) s.keys key (ground (arith, v.history.ends)) in
      let state : GroupState = record { me = me; rosters = s.rosters; keys = key ∷ [] } in
      let loads : validate crates state ≡ ok tt = IsValid→validate crates state c (record {
        history = v.history;
        known =
            rw (any-last (is_under crates c.group_id key) s.rosters c v.history.ends under) refl;
      }) in
      rw (loads, v.history.ends, listed, under) refl
