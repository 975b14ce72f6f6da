-- ===== src/Group/State/Authority.antt =====
-- group.rs: who may change the members of a group, and what an update leaves alone.
use post_urbit.Prelude.{
  Bytes, Bool, ◌≡◌, ◌≢◌, ◌⊎◌, ◌∙◌, refl, sym, ap, true, false, none, some, ok, err, arith, inl, inr,
  Option, Result-cases, Option-cases, ◌==◌, nat_eq, list_eq, list_beq_iff, if◌then◌else◌, >>=-eq-ok,
  ◌>>◌, PostUrbitError, invalid_input, ok_or,
}
use post_urbit.Prelude.Dict
use post_urbit.Encoding.{validate_crockford_base32_lower}
use post_urbit.Group.State.{
  GroupState, GroupStateUpdateInternal, GroupRole, GroupMember, GroupAction, Members, owner, admin,
  moderator, member, add_member, remove_member, promote_admin, demote_admin, update_info,
  rotate_sender_key, authorize, perform, role_of, decide, apply_update, set_role, add,
}
use post_urbit.Group.State.Cases.{apply_update_cases}

-- The table of roles of the specification (group-messaging.md), with the removal of oneself.
abbrev pub Permits : GroupAction → (self : Bool) → GroupRole → Option GroupRole → Type 0
Permits add_member self role target = role ≢ member
Permits remove_member self role target =
    (self ≡ true) ⊎ (role ≡ owner) ⊎ (role ≡ admin) ⊎ ((role ≡ moderator) × (target ≡ some member))
Permits promote_admin self role target = role ≡ owner
Permits demote_admin self role target = role ≡ owner
Permits update_info self role target = (role ≡ owner) ⊎ (role ≡ admin)
Permits rotate_sender_key self role target = (role ≡ owner) ⊎ (role ≡ admin)

abbrev pub is_self : GroupStateUpdateInternal → Bool
is_self u = elim u.target_iid [ none ↦ false | some t ↦ t == u.actor_iid ]

authorize-Permits :
    (u : GroupStateUpdateInternal) (a : GroupAction) (role : GroupRole) (target : Option GroupRole)
    → authorize u a role target ≡ ok tt
    → Permits a (is_self u) role target
unfolding authorize
authorize-Permits u add_member role target h = ground arith
authorize-Permits u remove_member role target h = ground arith
authorize-Permits u promote_admin role target h = ground arith
authorize-Permits u demote_admin role target h = ground arith
authorize-Permits u update_info role target h = ground arith
authorize-Permits u rotate_sender_key role target h = ground arith

ok_injective {ℓ} : {A : Type ℓ} {a b : A} → ok a ≡ ok b → a ≡ b
ok_injective h = cc

some_of_ok_or {ℓ} :
    {A : Type ℓ} (o : Option A) (e : PostUrbitError) (a : A) → ok_or o e ≡ ok a → o ≡ some a
some_of_ok_or none e a h = cc
some_of_ok_or (some b) e a h = cc

module _ (u : GroupStateUpdateInternal) (ms : Members) where
  -- what an accepted decision rests on
  pub decide-inverts :
      (ms' : Members)
      → decide u ms ≡ ok ms'
      → (actor : GroupMember) × (Dict.get ms u.actor_iid ≡ some actor)
        × Permits u.action (is_self u) actor.role (role_of ms u.target_iid)
        × (perform u.action u.target_iid ms ≡ ok ms')
  unfolding decide
  decide-inverts ms' h =
      let (actor, found, rest) =
        >>=-eq-ok (ok_or (Dict.get ms u.actor_iid) (invalid_input "actor not member"))
          (λ a.
            authorize u u.action a.role (role_of ms u.target_iid)
            >> perform u.action u.target_iid ms)
          h in
      let (_, allowed, done) =
        >>=-eq-ok (authorize u u.action actor.role (role_of ms u.target_iid))
          (λ _. perform u.action u.target_iid ms) rest in
      (
        actor,
        some_of_ok_or (Dict.get ms u.actor_iid) (invalid_input "actor not member") actor found,
        authorize-Permits u u.action actor.role (role_of ms u.target_iid) allowed,
        done,
      )

-- What each action makes of the entry of its target.
abbrev pub with_role : Option GroupMember → GroupRole → Option GroupMember
with_role none role = none
with_role (some m) role = some (record m { role = role })

abbrev pub or_new : Option GroupMember → Bytes → Option GroupMember
or_new none target = some (record { iid = target; role = member })
or_new (some m) target = some m

abbrev pub effect : GroupAction → Bytes → Option GroupMember → Option GroupMember
effect add_member target entry = or_new entry target
effect remove_member target entry = none
effect promote_admin target entry = with_role entry admin
effect demote_admin target entry = with_role entry member
effect update_info target entry = entry
effect rotate_sender_key target entry = entry

get-add :
    (ms : Members) (t k : Bytes)
    → Dict.get (add ms t) k ≡ (if t == k then or_new (Dict.get ms t) t else Dict.get ms k)
unfolding add
get-add ms t k =
    ground (arith, Dict.get-insert ms t k (record { iid = t; role = member }), list_beq_iff t k)

get-set_role :
    (ms : Members) (t k : Bytes) (role : GroupRole)
    → Dict.get (set_role ms t role) k
      ≡ (if t == k then with_role (Dict.get ms t) role else Dict.get ms k)
unfolding set_role
get-set_role ms t k role = elim (Option-cases (Dict.get ms t)) [
  | inl e ↦ rw (e, set_role) (ground (arith, e, list_beq_iff t k))
  | inr (m, e) ↦ rw (e, set_role) (Dict.get-insert ms t k (record m { role = role }))
]

added_of_perform :
    (t : Bytes) (ms ms' : Members) → perform add_member (some t) ms ≡ ok ms' → ms' ≡ add ms t
unfolding perform
added_of_perform t ms ms' h = elim (Result-cases (validate_crockford_base32_lower t)) [
  | inl (_, v) ↦ ok_injective (sym h ∙ rw v refl)
  | inr (e, v) ↦ absurd (cc (v, h))
]

-- An action that is carried out on a target changes the entry of the target, as stated, and no
-- other.
pub get-perform :
    (a : GroupAction) (t : Bytes) (ms ms' : Members) (k : Bytes)
    → perform a (some t) ms ≡ ok ms'
    → Dict.get ms' k ≡ (if t == k then effect a t (Dict.get ms t) else Dict.get ms k)
get-perform add_member t ms ms' k h = ground (arith, added_of_perform t ms ms' h, get-add ms t k)
get-perform remove_member t ms ms' k h = unfold perform in ground (arith, Dict.get-remove ms t k)
get-perform promote_admin t ms ms' k h = unfold perform in ground (arith, get-set_role ms t k admin)
get-perform demote_admin t ms ms' k h = unfold perform in ground (arith, get-set_role ms t k member)
get-perform update_info t ms ms' k h = unfold perform in ground (arith, list_beq_iff t k)
get-perform rotate_sender_key t ms ms' k h = unfold perform in ground (arith, list_beq_iff t k)

perform-none : (a : GroupAction) (ms ms' : Members) → perform a none ms ≡ ok ms' → ms' ≡ ms
unfolding perform
perform-none update_info ms ms' h = ground arith
perform-none rotate_sender_key ms ms' h = ground arith
perform-none _ ms ms' h = absurd (cc)

-- What an update may do to the members: an actor whose role permits the action, and an effect on
-- the entry of the target alone.
pub record IsAuthorized (u : GroupStateUpdateInternal) (ms ms' : Members) : Type 0 where
  pub actor : GroupMember
  pub present : Dict.get ms u.actor_iid ≡ some actor
  pub permitted : Permits u.action (is_self u) actor.role (role_of ms u.target_iid)
  pub entries :
      (t k : Bytes)
      → u.target_iid ≡ some t
      → Dict.get ms' k ≡ (if t == k then effect u.action t (Dict.get ms t) else Dict.get ms k)
  pub untargeted : u.target_iid ≡ none → ms' ≡ ms

decide-IsAuthorized :
    (u : GroupStateUpdateInternal) (ms ms' : Members) → decide u ms ≡ ok ms' → IsAuthorized u ms ms'
decide-IsAuthorized u ms ms' h =
    let (actor, found, allowed, done) = decide-inverts u ms ms' h in
    record {
      actor = actor;
      present = found;
      permitted = allowed;
      entries =
          λ t k e. get-perform u.action t ms ms' k (ap (λ o. perform u.action o ms) (sym e) ∙ done);
      untargeted =
          λ e. perform-none u.action ms ms' (ap (λ o. perform u.action o ms) (sym e) ∙ done);
    }

-- Every update leaves the state as it was, or its actor is a member whose role permits the action,
-- and it changes no entry but that of its target, as the action says.
pub apply_update-IsAuthorized :
    (u : GroupStateUpdateInternal) (s : GroupState)
    → ((apply_update u s).1 ≡ s) ⊎ IsAuthorized u s.members (apply_update u s).1.members
apply_update-IsAuthorized u s =
    apply_update_cases u s (λ p. (p.1 ≡ s) ⊎ IsAuthorized u s.members p.1.members) (λ r. inl refl)
      (λ ms' g v f d. inr (decide-IsAuthorized u s.members ms' d))

-- An update that is refused has changed nothing.
pub apply_update_refused :
    (u : GroupStateUpdateInternal) (s : GroupState) (e : PostUrbitError)
    → (apply_update u s).0 ≡ err e
    → (apply_update u s).1 ≡ s
apply_update_refused u s e =
    apply_update_cases u s (λ p. p.0 ≡ err e → p.1 ≡ s) (λ r h. refl) (λ ms' g v f d h. absurd (cc))

pub role_of_present :
    (ms : Members) (k : Bytes) (m : GroupMember) (role : GroupRole)
    → Dict.get ms k ≡ some m
    → m.role ≡ role
    → role_of ms (some k) ≡ some role
unfolding role_of
role_of_present ms k m role e r = ground arith

became_admin :
    (a : GroupAction) (t k : Bytes) (self : Bool) (role : GroupRole) (target : Option GroupRole)
    (ms ms' : Members)
    → Permits a self role target
    → Dict.get ms' k ≡ (if t == k then effect a t (Dict.get ms t) else Dict.get ms k)
    → role_of ms (some k) ≢ some admin
    → role_of ms' (some k) ≡ some admin
    → (a ≡ promote_admin) × (t ≡ k) × (role ≡ owner)
unfolding role_of
became_admin add_member t k self role target ms ms' p e before after =
    ground (arith, list_beq_iff t k)
became_admin remove_member t k self role target ms ms' p e before after =
    ground (arith, list_beq_iff t k)
became_admin promote_admin t k self role target ms ms' p e before after =
    ground (arith, list_beq_iff t k)
became_admin demote_admin t k self role target ms ms' p e before after =
    ground (arith, list_beq_iff t k)
became_admin update_info t k self role target ms ms' p e before after =
    ground (arith, list_beq_iff t k)
became_admin rotate_sender_key t k self role target ms ms' p e before after =
    ground (arith, list_beq_iff t k)

-- Whoever becomes an admin was made one by an owner, in an update that names them.
pub admin_made_by_owner :
    (u : GroupStateUpdateInternal) (s : GroupState) (k : Bytes)
    → role_of s.members (some k) ≢ some admin
    → role_of (apply_update u s).1.members (some k) ≡ some admin
    → (u.action ≡ promote_admin)
      × (u.target_iid ≡ some k)
      × (role_of s.members (some u.actor_iid) ≡ some owner)
admin_made_by_owner u s k before after = elim (apply_update-IsAuthorized u s) [
  | inl same ↦
      absurd (before (ap (λ (x : GroupState). role_of x.members (some k)) (sym same) ∙ after))
  | inr a ↦ elim (Option-cases u.target_iid) [
    | inl e ↦
        absurd (before (ap (λ (x : Members). role_of x (some k)) (sym (a.untargeted e)) ∙ after))
    | inr (t, e) ↦
        let (action, same, role) =
          became_admin u.action t k (is_self u) a.actor.role (role_of s.members u.target_iid)
            s.members (apply_update u s).1.members a.permitted (a.entries t k e) before after in
        (
          action,
          e ∙ ap some same,
          role_of_present s.members u.actor_iid a.actor owner a.present role,
        )
  ]
]
