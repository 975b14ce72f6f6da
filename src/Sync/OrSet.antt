-- ===== src/Sync/OrSet.antt =====
-- sync.rs: `ReplicationFilter`, and `ORSet`, a set that replicas add to, remove from and merge.
-- A `HashSet` is a list of its elements, whose order and repetitions no theorem here depends on.
use post_urbit.Prelude.{
  ℕ, Bool, true, false, not, ◌&&◌, ◌||◌, Option, none, some, List, [], ◌∷◌, ◌++◌, if◌then◌else◌,
  nat_eq, ◌==◌, any, contains, Eq, list_eq, Bytes,
}
use post_urbit.Prelude.Dict
use post_urbit.Prelude.Dict.{Dict}
pub mod Replicas
pub mod Removal

pub record ReplicationFilter : Type 0 where
  pub allowlist : Option (List Bytes)
  pub denylist : List Bytes

unfoldable pub allows : ReplicationFilter → Bytes → Bool
allows f dataset =
    if contains f.denylist dataset
    then false
    else elim f.allowlist [ some list ↦ contains list dataset | none ↦ true ]

pub record OrSet (T : Type 0) : Type 0 where
  pub adds : Dict T (List ℕ)
  pub removes : Dict T (List ℕ)

module _ {T : Type 0} ⦃e : Eq T⦄ where
  abbrev pub tags_of : Dict T (List ℕ) → T → List ℕ
  tags_of m value = elim (Dict.get m value) [ none ↦ [] | some tags ↦ tags ]

  -- `entry(value).or_default().extend(tags)`
  abbrev pub extend : Dict T (List ℕ) → T → List ℕ → Dict T (List ℕ)
  extend m value tags = Dict.insert m value (tags_of m value ++ tags)

  unfoldable pub add : OrSet T → T → ℕ → OrSet T
  add s value tag = record s { adds = extend s.adds value (tag ∷ []) }

  unfoldable pub remove : OrSet T → T → List ℕ → OrSet T
  remove s value [] = s
  remove s value (t ∷ tags) = record s { removes = extend s.removes value (t ∷ tags) }

  unfoldable pub extend_all : Dict T (List ℕ) → Dict T (List ℕ) → Dict T (List ℕ)
  extend_all m [] = m
  extend_all m ((value, tags) ∷ other) = extend_all (extend m value tags) other

  unfoldable pub merge : OrSet T → OrSet T → OrSet T
  unfolding extend_all
  merge s other = record {
    adds = extend_all s.adds other.adds;
    removes = extend_all s.removes other.removes;
  }

  unfoldable pub values_loop : Dict T (List ℕ) → Dict T (List ℕ) → List T
  values_loop [] removes = []
  values_loop ((value, add_tags) ∷ adds) removes =
      let out = values_loop adds removes in
      if any (λ tag. not (contains (tags_of removes value) tag)) add_tags then value ∷ out else out

  unfoldable pub values : OrSet T → List T
  unfolding values_loop
  values s = values_loop s.adds s.removes
