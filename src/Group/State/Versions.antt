-- ===== src/Group/State/Versions.antt =====
-- group.rs: the order of updates, by clock, suffix, actor and action.
use post_urbit.Prelude.{
  Chains, Chains-then, Chains-compare, Chains-compare_bytes, ◌≡◌, ◌⊎◌, refl, sym, ap, true, false,
  none, some, arith, inl, inr, Option, Ordering, compare_bytes_refl, subst, ℕ, Bytes, ◌<◌, ◌∙◌, ok,
  then_with, compare, compare_bytes, compare_bytes_eq, List, [], ◌∷◌, Result, nat_eq, list_eq,
}
use post_urbit.Group.State.{
  GroupState, GroupStateUpdateInternal, apply_update, compare_updates, is_stale, as_str,
  parse_group_version,
}
use post_urbit.Group.State.Cases.{committed, apply_update_cases, apply_update_stale}

compare_updates_refl : (u : GroupStateUpdateInternal) → compare_updates u u ≡ Ordering.eq
unfolding compare_updates
compare_updates_refl u = grind (arith, compare_bytes_refl)

compare_updates_trans :
    (a b c : GroupStateUpdateInternal)
    → Chains (compare_updates a b) (compare_updates b c) (compare_updates a c)
unfolding compare_updates
compare_updates_trans a b c = Chains-then _ _ _ _ _ _ (Chains-compare _ _ _) (
    Chains-then _ _ _ _ _ _ (Chains-compare_bytes _ _ _)
      (Chains-then _ _ _ _ _ _ (Chains-compare_bytes _ _ _) (Chains-compare_bytes _ _ _)))

is_stale_itself : (u : GroupStateUpdateInternal) → is_stale u (some u) ≡ true
unfolding is_stale
is_stale_itself u = rw (compare_updates_refl u) refl

-- Receiving an update once more changes nothing, whether it was accepted, stale or refused.
pub apply_update_twice :
    (u : GroupStateUpdateInternal) (s : GroupState)
    → (apply_update u (apply_update u s).1).1 ≡ (apply_update u s).1
apply_update_twice u s =
    apply_update_cases u s (λ p. p ≡ apply_update u s → (apply_update u p.1).1 ≡ p.1)
      (λ r h. ap (λ (p : Result (Unit {0}) × GroupState). p.1) (sym h))
      (λ members g v f d h.
        ap (λ (p : Result (Unit {0}) × GroupState). p.1)
          (apply_update_stale u (committed u s members) g v (is_stale_itself u)))
      refl

-- the last update is the one before or one that is greater
abbrev pub Advances : Option GroupStateUpdateInternal → Option GroupStateUpdateInternal → Type 0
Advances none after = Unit {0}
Advances (some before) none = ⊥
Advances (some before) (some after) =
    (after ≡ before) ⊎ (compare_updates after before ≡ Ordering.gt)

Advances_refl : (o : Option GroupStateUpdateInternal) → Advances o o
Advances_refl none = tt
Advances_refl (some u) = inl refl

Advances_trans :
    (a b c : Option GroupStateUpdateInternal) → Advances a b → Advances b c → Advances a c
Advances_trans none b none p q = tt
Advances_trans none b (some _) p q = tt
Advances_trans (some a) none c p q = elim p [ ]
Advances_trans (some a) (some b) none p q = elim q [ ]
Advances_trans (some a) (some b) (some c) (inl p) q =
    subst (λ x. (c ≡ x) ⊎ (compare_updates c x ≡ Ordering.gt)) p q
Advances_trans (some a) (some b) (some c) (inr p) (inl q) = inr (rw q p)
Advances_trans (some a) (some b) (some c) (inr p) (inr q) =
    inr ((compare_updates_trans c b a).above q p)

advance :
    (o : Option GroupStateUpdateInternal) (u : GroupStateUpdateInternal)
    → is_stale u o ≡ false
    → Advances o (some u)
unfolding is_stale
advance none u f = tt
advance (some current) u f = inr ground arith

apply_update-Advances :
    (u : GroupStateUpdateInternal) (s : GroupState)
    → Advances s.last_update (apply_update u s).1.last_update
apply_update-Advances u s =
    apply_update_cases u s (λ p. Advances s.last_update p.1.last_update)
      (λ r. Advances_refl s.last_update) (λ members g v f d. advance s.last_update u f)

unfoldable pub run : GroupState → List GroupStateUpdateInternal → GroupState
run s [] = s
run s (u ∷ us) = run (apply_update u s).1 us

run_advances :
    (s : GroupState) (us : List GroupStateUpdateInternal)
    → Advances s.last_update (run s us).last_update
unfolding run
run_advances s [] = Advances_refl s.last_update
run_advances s (u ∷ us) =
    Advances_trans s.last_update (apply_update u s).1.last_update _ (apply_update-Advances u s)
      (run_advances (apply_update u s).1 us)

-- the first text stands before the second in a dictionary
abbrev pub IsBefore : Bytes → Bytes → Type 0
IsBefore [] [] = ⊥
IsBefore [] (y ∷ ys) = Unit {0}
IsBefore (x ∷ xs) [] = ⊥
IsBefore (x ∷ xs) (y ∷ ys) = (x < y) ⊎ ((x ≡ y) × IsBefore xs ys)

compare_bytes-IsBefore : (xs ys : Bytes) → compare_bytes xs ys ≡ Ordering.gt → IsBefore ys xs
unfolding compare_bytes
compare_bytes-IsBefore [] [] h = ground (arith, h)
compare_bytes-IsBefore [] (y ∷ ys) h = ground (arith, h)
compare_bytes-IsBefore (x ∷ xs) [] h = tt
compare_bytes-IsBefore (x ∷ xs) (y ∷ ys) h = ground (arith, h, compare_bytes-IsBefore xs ys)

-- a version that is read as a clock and a suffix
abbrev pub HasVersion : GroupStateUpdateInternal → ℕ → Bytes → Type 0
HasVersion u clock suffix = parse_group_version u.version ≡ ok (clock, suffix)

-- the first update is below the second: by clocks as numbers, then by the suffixes, the actors and
-- the names of the actions as texts
abbrev pub IsBelow :
    GroupStateUpdateInternal → ℕ → Bytes → GroupStateUpdateInternal → ℕ → Bytes → Type 0
IsBelow u m x v n y =
    (m < n)
    ⊎ ((m ≡ n)
        × (IsBefore x y
            ⊎ ((x ≡ y)
                × (IsBefore u.actor_iid v.actor_iid
                    ⊎ ((u.actor_iid ≡ v.actor_iid)
                        × IsBefore (as_str u.action) (as_str v.action))))))

then_with-gt :
    (a b : Ordering)
    → then_with a b ≡ Ordering.gt
    → (a ≡ Ordering.gt) ⊎ ((a ≡ Ordering.eq) × (b ≡ Ordering.gt))
then_with-gt Ordering.lt b h = ground (arith, h)
then_with-gt Ordering.eq b h = inr (refl, h)
then_with-gt Ordering.gt b h = inl refl

-- one stage of a lexicographic order, of which the first part compares texts
IsBefore-or :
    (x y : Bytes) (b : Ordering) {P : Type 0}
    → (b ≡ Ordering.gt → P)
    → then_with (compare_bytes y x) b ≡ Ordering.gt
    → IsBefore x y ⊎ ((x ≡ y) × P)
IsBefore-or x y b next h = elim (then_with-gt (compare_bytes y x) b h) [
  | inl above ↦ inl (compare_bytes-IsBefore y x above)
  | inr (same, k) ↦ inr (sym (compare_bytes_eq y x same), next k)
]

compare_updates-versions :
    (u v : GroupStateUpdateInternal) (m n : ℕ) (x y : Bytes)
    → HasVersion u m x
    → HasVersion v n y
    → compare_updates v u
      ≡ then_with (compare n m) (
          then_with (compare_bytes y x) (
            then_with
              (compare_bytes v.actor_iid u.actor_iid)
              (compare_bytes (as_str v.action) (as_str u.action))))
unfolding compare_updates
compare_updates-versions u v m n x y p q = rw (p, q) refl

compare_updates-IsBelow :
    (u v : GroupStateUpdateInternal) (m n : ℕ) (x y : Bytes)
    → HasVersion u m x
    → HasVersion v n y
    → compare_updates v u ≡ Ordering.gt
    → IsBelow u m x v n y
compare_updates-IsBelow u v m n x y p q h =
    elim (then_with-gt (compare n m) _ (sym (compare_updates-versions u v m n x y p q) ∙ h)) [
      | inl above ↦ inl ground arith
      | inr (same, k) ↦ inr (
        ground arith,
        IsBefore-or x y _
            (IsBefore-or u.actor_iid v.actor_iid _
              (compare_bytes-IsBefore (as_str v.action) (as_str u.action)))
            k,
      )
    ]

run-advanced :
    (s : GroupState) (us : List GroupStateUpdateInternal) (u v : GroupStateUpdateInternal)
    → s.last_update ≡ some u
    → (run s us).last_update ≡ some v
    → (v ≡ u) ⊎ (compare_updates v u ≡ Ordering.gt)
run-advanced s us u v before after =
    subst (λ o. Advances o (some v)) before
      (subst (λ o. Advances s.last_update o) after (run_advances s us))

-- Whatever updates arrive, in whatever order: where the group stood at an update before and stands
-- at one in the end, and both versions are read, the latter is the former or is above it. It has the
-- greater clock; or, with the same clock, the suffix that stands later in a dictionary; or, with the
-- same version, the later actor; or, with the same actor, the later action.
pub run-IsBelow :
    (s : GroupState) (us : List GroupStateUpdateInternal) (u v : GroupStateUpdateInternal) (m n : ℕ)
    (x y : Bytes)
    → s.last_update ≡ some u
    → (run s us).last_update ≡ some v
    → HasVersion u m x
    → HasVersion v n y
    → (v ≡ u) ⊎ IsBelow u m x v n y
run-IsBelow s us u v m n x y before after p q = elim (run-advanced s us u v before after) [
  | inl same ↦ inl same
  | inr greater ↦ inr (compare_updates-IsBelow u v m n x y p q greater)
]
