-- ===== src/Group/Arrivals.antt =====
-- group.rs, `apply_chain`: a chain that a peer sends.
use panora.Prelude.{
  ℕ, zero, suc, ◌+◌, ◌-◌, ◌≤◌, ◌<◌, ◌≡◌, ◌≢◌, refl, sym, ◌∙◌, ap, subst, Bool, true, false, not,
  ◌&&◌, none, some, List, [], ◌∷◌, length, length-take, contains, last, take, drop, take-all,
  last-take, get_elem?, get_elem?-some, drop_while, ◌==◌, nat_eq, list_eq, ltb, leb, arith,
  Bool-cases, inl, inr, guard, Result, ok, err, Result-cases, >>-eq-ok,
}
use panora.Rosters.{Roster, Crates, hash}
use panora.Rosters.Names.{Error, roster, panicked}
use panora.Group.{is_member, removed_along, verify, check_successor, follows_epoch, fork_winner}
use panora.Group.State.{GroupState, kept_rosters}
use panora.Group.Chains.{
  RosterUpdate, advanced, replaced, push_all, settle, branch, apply_incoming, roster_before,
  apply_rest, apply_chain, check_chain, is_held,
}
use panora.Group.Reapply.{changes_to_reapply}
use panora.Group.Linked.{Linked, IsHistory, IsValid, verify_first, Linked-take, Linked-tail}
use panora.Group.Valid.{pushed, push-pushed, pushed-IsHistory, pushed-IsValid}
use panora.Group.Checks.{
  NeverPanics-err, check_chain-NeverPanics, check_chain-Linked, check_successor-NeverPanics,
}

-- A state that loads, or an error that the caller sees.
abbrev pub Lands : Crates → Result Error (GroupState × RosterUpdate) → Type 0
Lands crates (ok (s, u)) = (c : Roster) × IsValid crates s c
Lands crates (err e) = e ≢ panicked

module _ (crates : Crates) where
  Linked-drop_while :
      (p : Roster → Bool) (rs : List Roster) → Linked crates rs → Linked crates (drop_while p rs)
  Linked-drop_while p [] h = h
  Linked-drop_while p (r ∷ rs) h = elim (Bool-cases (p r)) [
    | inl e ↦ rw e (Linked-drop_while p rs (Linked-tail crates r rs h))
    | inr e ↦ rw e h
  ]

  Linked-last :
      (rs : List Roster) (c : Roster)
      → Linked crates rs
      → last rs ≡ some c
      → verify crates c ≡ ok tt
  Linked-last [] c h e = absurd cc
  Linked-last (r ∷ []) c h e =
      let same : r ≡ c = cc in subst (λ (x : Roster). verify crates x ≡ ok tt) same h
  Linked-last (r ∷ n ∷ rs) c h e = Linked-last (n ∷ rs) c h.2 e

  pub check_successor-epoch :
      (r n : Roster) → check_successor crates r n ≡ ok tt → n.epoch ≡ r.epoch + 1
  unfolding check_successor
  check_successor-epoch r n e =
      let (g, e1) = >>-eq-ok (guard (n.group_id == r.group_id) roster) _ e in
      let (f, e2) =
        >>-eq-ok (guard (follows_epoch r.epoch n.epoch && n.prev == hash crates r) roster) _ e1 in
      let follows : follows_epoch r.epoch n.epoch ≡ true = ground (arith, f) in
      ground (arith, follows)

  last-epoch :
      (r : Roster) (rs : List Roster) (c : Roster)
      → Linked crates (r ∷ rs)
      → last (r ∷ rs) ≡ some c
      → c.epoch ≡ r.epoch + length rs
  last-epoch r [] c h e =
      let same : r ≡ c = cc in subst (λ (x : Roster). x.epoch ≡ r.epoch + 0) same (omega arith)
  last-epoch r (n ∷ rs) c h e =
      omega (arith, last-epoch n rs c h.2 e, check_successor-epoch r n h.1)

  -- Pushing rosters that follow the last one cannot fail.
  push_all-IsValid :
      (c x : Roster) (xs : List Roster) (s : GroupState)
      → IsHistory crates s.rosters c
      → Linked crates (c ∷ x ∷ xs)
      → (s' : GroupState) × (d : Roster) × (push_all crates (x ∷ xs) s ≡ ok s')
        × IsValid crates s' d
  unfolding push_all
  push_all-IsValid c x [] s h l = (
    pushed crates x s,
    x,
    rw (push-pushed crates x s) refl,
    pushed-IsValid crates x c s h (verify_first crates x [] l.2) l.1,
  )
  push_all-IsValid c x (y ∷ xs) s h l =
      let v = verify_first crates x (y ∷ xs) l.2 in
      let (s', d, e, w) =
        push_all-IsValid x y xs (pushed crates x s) (pushed-IsHistory crates x c s.rosters h v l.1)
          l.2 in
      (s', d, rw (push-pushed crates x s) e, w)

  settle-Lands :
      (parent c x : Roster) (xs : List Roster) (u : RosterUpdate) (s : GroupState)
      → IsHistory crates s.rosters c
      → Linked crates (c ∷ x ∷ xs)
      → Lands crates (settle crates parent (x ∷ xs) u s)
  unfolding settle
  settle-Lands parent c x xs u s h l =
      let (s', d, e, w) = push_all-IsValid c x xs s h l in
      elim (Bool-cases
        (not (is_member s'.me d) && contains (removed_along parent.members (x ∷ xs)) s'.me)) [
          | inl gone ↦
              rw e (rw w.history.ends (rw gone (d, record { history = w.history; known = refl })))
          | inr stays ↦ rw e (rw w.history.ends (rw stays (d, w)))
        ]

  branch-Lands :
      (n : ℕ) (parent head : Roster) (more : List Roster) (s : GroupState) (c : Roster)
      → IsValid crates s c
      → suc n ≤ length s.rosters
      → get_elem? s.rosters n ≡ some parent
      → Linked crates (head ∷ more)
      → check_successor crates parent head ≡ ok tt
      → Lands crates (branch crates (suc n) parent (head ∷ more) s)
  unfolding branch
  branch-Lands n parent head more s c v small at l k =
      let cut : GroupState = record s { rosters = take (suc n) s.rosters } in
      let held : List Roster = drop (suc n) s.rosters in
      let ends : last (take (suc n) s.rosters) ≡ some parent = last-take n s.rosters parent at in
      let linked : Linked crates (take (suc n) s.rosters) =
        Linked-take crates (suc n) s.rosters v.history.linked in
      let h : IsHistory crates (take (suc n) s.rosters) parent = record {
        ends = ends;
        few = omega (arith, v.history.few, length-take (suc n) s.rosters);
        linked = linked;
      } in
      let chain : Linked crates (parent ∷ head ∷ more) =
        (Linked-last (take (suc n) s.rosters) parent linked ends, k, l) in
      elim (Bool-cases (suc n == length s.rosters)) [
        | inl top ↦
            let whole : take (suc n) s.rosters ≡ s.rosters =
              take-all (suc n) s.rosters (ground (arith, top)) in
            rw top (
              settle-Lands parent parent head more advanced s
                (subst (λ (rs : List Roster). IsHistory crates rs parent) whole h) chain)
        | inr below ↦
            let within : ltb (length s.rosters) (suc n) ≡ false = ground (arith, small) in
            elim (Bool-cases (fork_winner crates parent (head ∷ more) held)) [
              | inl won ↦ rw below (
                  rw within (
                    rw won (
                      settle-Lands parent parent head more
                        (replaced (changes_to_reapply parent held s.me)) cut h chain)))
              | inr lost ↦ rw below (rw within (rw lost (c, v)))
            ]
      ]

  branch-Lands_at :
      (idx : ℕ) (parent head : Roster) (more : List Roster) (s : GroupState) (c : Roster)
      → IsValid crates s c
      → idx ≤ length s.rosters
      → roster_before idx s.rosters ≡ some parent
      → Linked crates (head ∷ more)
      → check_successor crates parent head ≡ ok tt
      → Lands crates (branch crates idx parent (head ∷ more) s)
  branch-Lands_at zero parent head more s c v small at l k = absurd cc
  branch-Lands_at (suc n) parent head more s c v small at l k =
      branch-Lands n parent head more s c v small at l k

  roster_before-some :
      (idx : ℕ) (rosters : List Roster)
      → 0 < idx
      → idx ≤ length rosters
      → (r : Roster) × (roster_before idx rosters ≡ some r)
  roster_before-some zero rosters p h = absurd (omega arith)
  roster_before-some (suc n) rosters p h = get_elem?-some n rosters h

  apply_incoming-Lands :
      (oldest : Roster) (rest : List Roster) (head : Roster) (more : List Roster) (s : GroupState)
      (c : Roster)
      → IsValid crates s c
      → s.rosters ≡ oldest ∷ rest
      → Linked crates (head ∷ more)
      → Lands crates (apply_incoming crates oldest.epoch c.epoch head more s)
  unfolding apply_incoming
  apply_incoming-Lands oldest rest head more s c v w l =
      let linked : Linked crates (oldest ∷ rest) =
        subst (λ (rs : List Roster). Linked crates rs) w v.history.linked in
      let ends : last (oldest ∷ rest) ≡ some c =
        subst (λ (rs : List Roster). last rs ≡ some c) w v.history.ends in
      let newest : c.epoch ≡ oldest.epoch + length rest = last-epoch oldest rest c linked ends in
      let size : length s.rosters ≡ suc (length rest) = ap length w in
      elim (Bool-cases (ltb (c.epoch + 1) head.epoch)) [
        | inl gap ↦ rw gap (λ e. cc)
        | inr near ↦ elim (Bool-cases (leb head.epoch oldest.epoch)) [
          | inl before ↦ rw near (rw before (λ e. cc))
          | inr after ↦
              let pos : 0 < head.epoch - oldest.epoch = ground (arith, after) in
              let small : head.epoch - oldest.epoch ≤ length s.rosters =
                ground (arith, near, newest, size) in
              let (parent, at) =
                roster_before-some (head.epoch - oldest.epoch) s.rosters pos small in
              rw near (
                rw after (
                  rw at (elim (Result-cases (check_successor crates parent head)) [
                    | inl (u, k) ↦ rw k (
                        branch-Lands_at (head.epoch - oldest.epoch) parent head more s c v small at
                          l k)
                    | inr (x, k) ↦ rw k (
                        NeverPanics-err (check_successor crates parent head) x
                          (check_successor-NeverPanics crates parent head) k)
                  ])))
        ]
      ]

  apply_rest-Lands :
      (oldest : Roster) (rest : List Roster) (s : GroupState) (c : Roster) (incoming : List Roster)
      → IsValid crates s c
      → s.rosters ≡ oldest ∷ rest
      → Linked crates incoming
      → Lands crates (apply_rest crates oldest.epoch c.epoch s incoming)
  unfolding apply_rest
  apply_rest-Lands oldest rest s c [] v w l = (c, v)
  apply_rest-Lands oldest rest s c (head ∷ more) v w l =
      apply_incoming-Lands oldest rest head more s c v w l

  apply_chain-Lands_at :
      (rosters : List Roster) (chain : List Roster) (s : GroupState) (c : Roster)
      → s.rosters ≡ rosters
      → IsValid crates s c
      → Lands crates (apply_chain crates chain s)
  unfolding apply_chain
  apply_chain-Lands_at [] chain s c w v =
      absurd (let e : none ≡ some c = sym (ap last w) ∙ v.history.ends in cc)
  apply_chain-Lands_at (oldest ∷ rest) chain s c w v =
      elim (Bool-cases (not (length chain == 0) && leb (length chain) kept_rosters)) [
        | inr odd ↦ rw odd (λ e. cc)
        | inl fits ↦ elim (Result-cases (check_chain crates c chain)) [
          | inr (x, k) ↦ rw fits (
              rw v.history.ends (
                rw k (
                  NeverPanics-err (check_chain crates c chain) x
                    (check_chain-NeverPanics crates c chain) k)))
          | inl (u, k) ↦
              let ours : List Roster = drop_while (λ r. ltb r.epoch oldest.epoch) chain in
              let incoming : List Roster =
                drop_while (is_held crates oldest.epoch s.rosters) ours in
              let l : Linked crates incoming =
                Linked-drop_while (is_held crates oldest.epoch s.rosters) ours (
                  Linked-drop_while (λ r. ltb r.epoch oldest.epoch) chain
                    (check_chain-Linked crates c chain k)) in
              let first : get_elem? s.rosters 0 ≡ some oldest =
                ap (λ (rs : List Roster). get_elem? rs 0) w in
              rw fits (
                rw v.history.ends
                  (rw k (rw first (apply_rest-Lands oldest rest s c incoming v w l))))
        ]
      ]

  pub apply_chain-Lands :
      (chain : List Roster) (s : GroupState) (c : Roster)
      → IsValid crates s c
      → Lands crates (apply_chain crates chain s)
  apply_chain-Lands chain s c v = apply_chain-Lands_at s.rosters chain s c refl v
