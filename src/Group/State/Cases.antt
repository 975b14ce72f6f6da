-- ===== src/Group/State/Cases.antt =====
-- group.rs: `apply_update` with its checks decided.
use post_urbit.Prelude.{
  ◌≡◌, refl, true, false, Bool-cases, Result-cases, inl, inr, ok, err, ◌==◌, nat_eq, list_eq, some,
  Result, PostUrbitError, invalid_input,
}
use post_urbit.Group.State.{
  GroupState, GroupStateUpdateInternal, Members, apply_update, validate_group_version, decide,
  is_stale,
}

abbrev pub committed : GroupStateUpdateInternal → GroupState → Members → GroupState
committed u s members = record s { members = members; version = u.version; last_update = some u }

module _ (u : GroupStateUpdateInternal) (s : GroupState) where
  -- an update that is accepted and new replaces the members by those that it decides
  pub apply_update_accepted :
      (members : Members)
      → (u.group_id == s.group_id) ≡ true
      → validate_group_version u.version u.actor_iid ≡ ok tt
      → is_stale u s.last_update ≡ false
      → decide u s.members ≡ ok members
      → apply_update u s ≡ (ok tt, committed u s members)
  unfolding apply_update
  apply_update_accepted members g v f d = rw (g, v, apply_update) (rw (f, d) refl)

  pub apply_update_stale :
      (u.group_id == s.group_id) ≡ true
      → validate_group_version u.version u.actor_iid ≡ ok tt
      → is_stale u s.last_update ≡ true
      → apply_update u s ≡ (ok tt, s)
  unfolding apply_update
  apply_update_stale g v f = rw (g, v, apply_update) (rw f refl)

  apply_update_other_group :
      (u.group_id == s.group_id) ≡ false
      → apply_update u s ≡ (err (invalid_input "group id mismatch"), s)
  unfolding apply_update
  apply_update_other_group g = rw (g, apply_update) refl

  apply_update_bad_version :
      (e : PostUrbitError)
      → (u.group_id == s.group_id) ≡ true
      → validate_group_version u.version u.actor_iid ≡ err e
      → apply_update u s ≡ (err e, s)
  unfolding apply_update
  apply_update_bad_version e g v = rw (g, v, apply_update) refl

  apply_update_undecided :
      (e : PostUrbitError)
      → (u.group_id == s.group_id) ≡ true
      → validate_group_version u.version u.actor_iid ≡ ok tt
      → is_stale u s.last_update ≡ false
      → decide u s.members ≡ err e
      → apply_update u s ≡ (err e, s)
  unfolding apply_update
  apply_update_undecided e g v f d = rw (g, v, apply_update) (rw (f, d) refl)

  -- in every other case the state is as before
  pub apply_update_cases {ℓ} :
      (P : Result (Unit {0}) × GroupState → Type ℓ)
      → ((r : Result (Unit {0})) → P (r, s))
      → ((members : Members)
          → (u.group_id == s.group_id) ≡ true
          → validate_group_version u.version u.actor_iid ≡ ok tt
          → is_stale u s.last_update ≡ false
          → decide u s.members ≡ ok members
          → P (ok tt, committed u s members))
      → P (apply_update u s)
  apply_update_cases P same changed = elim (Bool-cases (u.group_id == s.group_id)) [
    | inr g ↦ rw (apply_update_other_group g) (same _)
    | inl g ↦ elim (Result-cases (validate_group_version u.version u.actor_iid)) [
      | inr (e, v) ↦ rw (apply_update_bad_version e g v) (same _)
      | inl (_, v) ↦ elim (Bool-cases (is_stale u s.last_update)) [
        | inl f ↦ rw (apply_update_stale g v f) (same _)
        | inr f ↦ elim (Result-cases (decide u s.members)) [
          | inr (e, d) ↦ rw (apply_update_undecided e g v f d) (same _)
          | inl (members, d) ↦ rw (apply_update_accepted members g v f d) (changed members g v f d)
        ]
      ]
    ]
  ]
