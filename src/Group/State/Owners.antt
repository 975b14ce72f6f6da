-- ===== src/Group/State/Owners.antt =====
-- group.rs: a group without an owner.
use post_urbit.Prelude.{
  Bytes, ◌≡◌, ◌≢◌, ◌∙◌, sym, ap, some, arith, inl, inr, Option-cases, List, [], ◌∷◌, if◌then◌else◌,
  ◌==◌, nat_eq, list_eq, list_beq_iff,
}
use post_urbit.Prelude.Dict
use post_urbit.Group.State.{
  GroupState, GroupStateUpdateInternal, GroupAction, Members, owner, add_member, remove_member,
  promote_admin, demote_admin, update_info, rotate_sender_key, role_of, apply_update,
}
use post_urbit.Group.State.Authority.{effect, apply_update-IsAuthorized}
use post_urbit.Group.State.Versions.{run}

abbrev pub NoOwner : GroupState → Type 0
NoOwner s = (k : Bytes) → role_of s.members (some k) ≢ some owner

no_new_owner :
    (a : GroupAction) (t k : Bytes) (ms ms' : Members)
    → Dict.get ms' k ≡ (if t == k then effect a t (Dict.get ms t) else Dict.get ms k)
    → role_of ms (some k) ≢ some owner
    → role_of ms' (some k) ≢ some owner
unfolding role_of
no_new_owner add_member t k ms ms' e n = ground (arith, list_beq_iff t k)
no_new_owner remove_member t k ms ms' e n = ground (arith, list_beq_iff t k)
no_new_owner promote_admin t k ms ms' e n = ground (arith, list_beq_iff t k)
no_new_owner demote_admin t k ms ms' e n = ground (arith, list_beq_iff t k)
no_new_owner update_info t k ms ms' e n = ground (arith, list_beq_iff t k)
no_new_owner rotate_sender_key t k ms ms' e n = ground (arith, list_beq_iff t k)

-- No update makes an owner: who is not one before is not one after.
pub apply_update-NoOwner :
    (u : GroupStateUpdateInternal) (s : GroupState) → NoOwner s → NoOwner (apply_update u s).1
apply_update-NoOwner u s n k = elim (apply_update-IsAuthorized u s) [
  | inl same ↦ λ h. n k (ap (λ (x : GroupState). role_of x.members (some k)) (sym same) ∙ h)
  | inr a ↦ elim (Option-cases u.target_iid) [
    | inl e ↦ λ h. n k (ap (λ (x : Members). role_of x (some k)) (sym (a.untargeted e)) ∙ h)
    | inr (t, e) ↦ no_new_owner u.action t k s.members _ (a.entries t k e) (n k)
  ]
]

-- A group that has lost its owner never has one again.
pub run-NoOwner :
    (s : GroupState) (us : List GroupStateUpdateInternal) → NoOwner s → NoOwner (run s us)
unfolding run
run-NoOwner s [] n = n
run-NoOwner s (u ∷ us) n = run-NoOwner (apply_update u s).1 us (apply_update-NoOwner u s n)
