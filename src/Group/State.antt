-- ===== src/Group/State.antt =====
-- group.rs: the members of a group, their roles, and the updates that change them.
-- `new` slices the creator's identifier, which panics on a short one: `none` is that panic.
mod Cases
pub mod Authority
pub mod Versions
pub mod Owners
use post_urbit.Prelude.{
  ℕ, Bytes, Bool, true, false, not, ◌&&◌, Option, none, some, List, [], ◌∷◌, ◌++◌, ltb,
  if◌then◌else◌, length, take, nat_eq, list_eq, ◌==◌, Result, ok, err, ◌>>=◌, ◌>>◌, ok_or, guard,
  invalid_input, compare, compare_bytes, then_with, is_gt, Ordering, ascii, starts_with, split,
  parse_u64, is_some, and_then,
}
use post_urbit.Prelude.Dict
use post_urbit.Prelude.Dict.{Dict}
use post_urbit.Encoding.{validate_crockford_base32_lower}

pub data GroupRole : Type 0 where
  owner admin moderator member : GroupRole

pub record GroupMember : Type 0 where
  pub iid : Bytes
  pub role : GroupRole

pub data GroupAction : Type 0 where
  add_member remove_member promote_admin demote_admin update_info rotate_sender_key : GroupAction

unfoldable pub as_str : GroupAction → Bytes
unfolding ascii
as_str add_member = ascii "add_member"
as_str remove_member = ascii "remove_member"
as_str promote_admin = ascii "promote_admin"
as_str demote_admin = ascii "demote_admin"
as_str update_info = ascii "update_info"
as_str rotate_sender_key = ascii "rotate_sender_key"

pub record GroupStateUpdateInternal : Type 0 where
  pub action : GroupAction
  pub group_id : Bytes
  pub target_iid : Option Bytes
  pub version : Bytes
  pub actor_iid : Bytes

abbrev pub Members : Type 0
Members = Dict Bytes GroupMember

pub record GroupState : Type 0 where
  pub group_id : Bytes
  pub version : Bytes
  pub members : Members
  pub last_update : Option GroupStateUpdateInternal

abbrev two_parts : List Bytes → Option (Bytes × Bytes)
two_parts (a ∷ b ∷ []) = some (a, b)
two_parts _ = none

unfoldable pub parse_group_version : Bytes → Result (ℕ × Bytes)
parse_group_version version = do
  (first, suffix) ← ok_or (two_parts (split b'.' version)) (invalid_input "version format")
  clock ← ok_or (parse_u64 first) (invalid_input "version clock")
  guard (length suffix == 8) (invalid_input "version suffix")
  ok (clock, suffix)

unfoldable pub validate_group_version : Bytes → Bytes → Result (Unit {0})
unfolding parse_group_version
validate_group_version version actor_iid = do
  (clock, suffix) ← parse_group_version version
  guard (not (clock == 0 && not (starts_with version (ascii "0."))))
      (invalid_input "version format")
  guard (starts_with actor_iid suffix) (invalid_input "version actor mismatch")

abbrev unwrap_or : Result (ℕ × Bytes) → ℕ × Bytes
unwrap_or (ok v) = v
unwrap_or (err e) = (0, [])

unfoldable pub compare_updates : GroupStateUpdateInternal → GroupStateUpdateInternal → Ordering
unfolding parse_group_version
compare_updates a b =
    let (a_clock, a_suffix) = unwrap_or (parse_group_version a.version) in
    let (b_clock, b_suffix) = unwrap_or (parse_group_version b.version) in
    then_with (compare a_clock b_clock) (
      then_with (compare_bytes a_suffix b_suffix) (
        then_with (compare_bytes a.actor_iid b.actor_iid)
          (compare_bytes (as_str a.action) (as_str b.action))))

unfoldable pub new : Bytes → Bytes → Option (Result GroupState)
new group_id creator_iid =
    elim (do
      validate_crockford_base32_lower group_id
      validate_crockford_base32_lower creator_iid) [
        | err e ↦ some (err e)
        | ok _ ↦
            if ltb (length creator_iid) 8
            then none
            else some (
                ok (record {
                  group_id = group_id;
                  version = ascii "0." ++ take 8 creator_iid;
                  members = Dict.insert [] creator_iid (record { iid = creator_iid; role = owner });
                  last_update = none;
                }))
      ]

not_allowed : Result (Unit {0})
not_allowed = err (invalid_input "role not allowed")

-- `_ => return Err(...)` arms of the first `match update.action`
unfoldable pub may_add : GroupRole → Result (Unit {0})
unfolding not_allowed
may_add member = not_allowed
may_add _ = ok tt

unfoldable pub may_remove_other : GroupRole → Option GroupRole → Result (Unit {0})
unfolding not_allowed
may_remove_other owner target_role = ok tt
may_remove_other admin target_role = ok tt
may_remove_other moderator (some member) = ok tt
may_remove_other moderator _ = not_allowed
may_remove_other member target_role = not_allowed

unfoldable pub may_remove : Bytes → GroupRole → Option Bytes → Option GroupRole → Result (Unit {0})
unfolding may_remove_other
may_remove actor_iid role none target_role = err (invalid_input "missing target")
may_remove actor_iid role (some target) target_role =
    if target == actor_iid then ok tt else may_remove_other role target_role

unfoldable pub may_change_admins : GroupRole → Result (Unit {0})
unfolding not_allowed
may_change_admins owner = ok tt
may_change_admins _ = not_allowed

unfoldable pub may_change_group : GroupRole → Result (Unit {0})
unfolding not_allowed
may_change_group owner = ok tt
may_change_group admin = ok tt
may_change_group _ = not_allowed

-- the first `match update.action`
unfoldable pub authorize :
    GroupStateUpdateInternal → GroupAction → GroupRole → Option GroupRole → Result (Unit {0})
unfolding may_add may_remove may_change_admins may_change_group
authorize u add_member role target_role = may_add role
authorize u remove_member role target_role = may_remove u.actor_iid role u.target_iid target_role
authorize u promote_admin role target_role = may_change_admins role
authorize u demote_admin role target_role = may_change_admins role
authorize u update_info role target_role = may_change_group role
authorize u rotate_sender_key role target_role = may_change_group role

-- `if let Some(member) = self.members.get_mut(&target) { member.role = role; }`
unfoldable pub set_role : Members → Bytes → GroupRole → Members
set_role members target role = elim (Dict.get members target) [
  | none ↦ members
  | some m ↦ Dict.insert members target (record m { role = role })
]

unfoldable pub add : Members → Bytes → Members
add members target =
    if is_some (Dict.get members target)
    then members
    else Dict.insert members target (record { iid = target; role = member })

-- the second `match update.action`, on the members
unfoldable pub perform : GroupAction → Option Bytes → Members → Result Members
unfolding set_role add
perform add_member target_iid members = do
  target ← ok_or target_iid (invalid_input "missing target")
  validate_crockford_base32_lower target
  ok (add members target)
perform remove_member target_iid members = do
  target ← ok_or target_iid (invalid_input "missing target")
  ok (Dict.remove members target)
perform promote_admin target_iid members = do
  target ← ok_or target_iid (invalid_input "missing target")
  ok (set_role members target admin)
perform demote_admin target_iid members = do
  target ← ok_or target_iid (invalid_input "missing target")
  ok (set_role members target member)
perform update_info target_iid members = ok members
perform rotate_sender_key target_iid members = ok members

unfoldable pub role_of : Members → Option Bytes → Option GroupRole
role_of members none = none
role_of members (some iid) = elim (Dict.get members iid) [ none ↦ none | some m ↦ some m.role ]

-- both matches, after the checks of group, version and order: the members that result
unfoldable pub decide : GroupStateUpdateInternal → Members → Result Members
unfolding authorize perform role_of
decide u members = do
  actor ← ok_or (Dict.get members u.actor_iid) (invalid_input "actor not member")
  authorize u u.action actor.role (role_of members u.target_iid)
  perform u.action u.target_iid members

-- `compare_updates(&update, current) != Greater`
unfoldable pub is_stale : GroupStateUpdateInternal → Option GroupStateUpdateInternal → Bool
unfolding compare_updates
is_stale u none = false
is_stale u (some current) = not (is_gt (compare_updates u current))

unfoldable pub commit :
    GroupStateUpdateInternal → GroupState → Result Members → Result (Unit {0}) × GroupState
commit u s (err e) = (err e, s)
commit u s (ok members) =
    (ok tt, record s { members = members; version = u.version; last_update = some u })

-- an update of another group or with a bad version is refused, and a stale one has no effect
unfoldable pub apply_update : GroupStateUpdateInternal → GroupState → Result (Unit {0}) × GroupState
unfolding validate_group_version decide commit is_stale
apply_update u s =
    if not (u.group_id == s.group_id)
    then (err (invalid_input "group id mismatch"), s)
    else elim (validate_group_version u.version u.actor_iid) [
      | err e ↦ (err e, s)
      | ok _ ↦ if is_stale u s.last_update then (ok tt, s) else commit u s (decide u s.members)
    ]
