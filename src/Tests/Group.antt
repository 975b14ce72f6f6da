-- ===== src/Tests/Group.antt =====
-- A group of an owner, an admin and a member.
use post_urbit.Prelude.{
  ℕ, Bytes, List, [], ◌∷◌, ◌++◌, ◌≡◌, ◌≢◌, ◌⊎◌, refl, ok, err, Option, none, some, arith, ascii,
  take, true, false, invalid_input, PostUrbitError,
}
use post_urbit.Prelude.Dict
use post_urbit.Group.State.{
  GroupState, GroupStateUpdateInternal, GroupRole, owner, admin, member, promote_admin,
  demote_admin, parse_group_version, apply_update, role_of,
}
use post_urbit.Group.State.Authority.{
  IsAuthorized, apply_update-IsAuthorized, apply_update_refused, admin_made_by_owner,
}
use post_urbit.Group.State.Versions.{apply_update_twice, run, HasVersion, IsBelow, run-IsBelow}

abbrev olga : Bytes
olga = ascii "0000000a"

abbrev adam : Bytes
adam = ascii "0000000b"

abbrev mary : Bytes
mary = ascii "0000000c"

abbrev group : GroupState
group = record {
  group_id = ascii "g";
  version = ascii "0.0000000a";
  members =
      (olga, record { iid = olga; role = owner })
      ∷ (adam, record { iid = adam; role = admin })
      ∷ (mary, record { iid = mary; role = member })
      ∷ [];
  last_update = none;
}

abbrev promotion : GroupStateUpdateInternal
promotion = record {
  action = promote_admin;
  group_id = ascii "g";
  target_iid = some mary;
  version = ascii "1.0000000a";
  actor_iid = olga;
}

-- the member may not promote
abbrev refused : GroupStateUpdateInternal
refused = record promotion { version = ascii "1.0000000c"; actor_iid = mary }

apply_update-IsAuthorized_example :
    ((apply_update promotion group).1 ≡ group)
    ⊎ IsAuthorized promotion group.members (apply_update promotion group).1.members
apply_update-IsAuthorized_example = apply_update-IsAuthorized promotion group

is_refused : (apply_update refused group).0 ≡ err (invalid_input "role not allowed")
unfolding apply_update post_urbit.Prelude.list_beq ascii post_urbit.Prelude.split
    post_urbit.Prelude.parse_u64 post_urbit.Prelude.starts_with Dict.get
is_refused = refl

apply_update_refused_example : (apply_update refused group).1 ≡ group
apply_update_refused_example =
    apply_update_refused refused group (invalid_input "role not allowed") is_refused

member_is_not_admin : ◌≢◌ {A = Option GroupRole} (some member) (some admin)
member_is_not_admin = ground arith

mary_before : role_of group.members (some mary) ≢ some admin
unfolding role_of Dict.get post_urbit.Prelude.list_beq ascii
mary_before = member_is_not_admin

mary_after : role_of (apply_update promotion group).1.members (some mary) ≡ some admin
unfolding apply_update Dict.get post_urbit.Prelude.list_beq ascii post_urbit.Prelude.split
    post_urbit.Prelude.parse_u64 post_urbit.Prelude.starts_with Dict.insert
mary_after = refl

admin_made_by_owner_example :
    (promotion.action ≡ promote_admin)
    × (promotion.target_iid ≡ some mary)
    × (role_of group.members (some promotion.actor_iid) ≡ some owner)
admin_made_by_owner_example = admin_made_by_owner promotion group mary mary_before mary_after

apply_update_twice_example :
    (apply_update promotion (apply_update promotion group).1).1 ≡ (apply_update promotion group).1
apply_update_twice_example = apply_update_twice promotion group

abbrev demotion : GroupStateUpdateInternal
demotion = record promotion { action = demote_admin; version = ascii "2.0000000a" }

promoted_last : (apply_update promotion group).1.last_update ≡ some promotion
unfolding apply_update Dict.get post_urbit.Prelude.list_beq ascii post_urbit.Prelude.split
    post_urbit.Prelude.parse_u64 post_urbit.Prelude.starts_with Dict.insert
promoted_last = refl

demoted_last :
    (run (apply_update promotion group).1 (demotion ∷ promotion ∷ [])).last_update ≡ some demotion
unfolding run apply_update Dict.get post_urbit.Prelude.list_beq ascii post_urbit.Prelude.split
    post_urbit.Prelude.parse_u64 post_urbit.Prelude.starts_with Dict.insert
    post_urbit.Prelude.compare_bytes
demoted_last = refl

promotion-HasVersion : HasVersion promotion 1 olga
unfolding parse_group_version ascii post_urbit.Prelude.split post_urbit.Prelude.parse_u64
promotion-HasVersion = refl

demotion-HasVersion : HasVersion demotion 2 olga
unfolding parse_group_version ascii post_urbit.Prelude.split post_urbit.Prelude.parse_u64
demotion-HasVersion = refl

run-IsBelow_example : (demotion ≡ promotion) ⊎ IsBelow promotion 1 olga demotion 2 olga
run-IsBelow_example =
    run-IsBelow (apply_update promotion group).1 (demotion ∷ promotion ∷ []) promotion demotion 1 2
      olga olga promoted_last demoted_last promotion-HasVersion demotion-HasVersion
