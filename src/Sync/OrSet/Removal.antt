-- ===== src/Sync/OrSet/Removal.antt =====
-- sync.rs: removing a value of an `ORSet` against an addition that the removal has not seen.
use post_urbit.Prelude.{
  ℕ, true, false, not, ◌||◌, List, [], ◌∷◌, ◌++◌, nat_eq, any, contains, Eq, ◌≡◌, refl, ap, ◌∙◌,
  arith, ==_refl,
}
use post_urbit.Prelude.Dict
use post_urbit.Prelude.Dict.{Dict}
use post_urbit.Sync.OrSet.{OrSet, tags_of, add, remove, merge, values}
use post_urbit.Sync.OrSet.Replicas.{
  IsMap, values-is_present, any_at, contains-append, merge_adds, merge_removes, merge-IsMap,
}

module _ {T : Type 0} ⦃e : Eq T⦄ (s : OrSet T) (v : T) where
  removed_tags :
      (tags : List ℕ) (t : ℕ)
      → contains (tags_of (remove s v tags).removes v) t
        ≡ (contains (tags_of s.removes v) t || contains tags t)
  unfolding remove contains
  removed_tags [] t = ground arith
  removed_tags (u ∷ tags) t = ground (
    arith,
    Dict.get-insert s.removes v v (tags_of s.removes v ++ u ∷ tags),
    contains-append (tags_of s.removes v) (u ∷ tags) t,
    ==_refl v,
  )

  kept_adds : (tags : List ℕ) → (remove s v tags).adds ≡ s.adds
  unfolding remove
  kept_adds [] = refl
  kept_adds (t ∷ tags) = refl

  remove-IsMap : (tags : List ℕ) → IsMap s → IsMap (remove s v tags)
  unfolding remove
  remove-IsMap [] d = d
  remove-IsMap (t ∷ tags) d = (d.0, Dict.insert-IsDistinct s.removes v _ d.1)

  add-IsMap : (tag : ℕ) → IsMap s → IsMap (add s v tag)
  unfolding add
  add-IsMap tag d = (Dict.insert-IsDistinct s.adds v _ d.0, d.1)

  added_tag : (tag : ℕ) → contains (tags_of (add s v tag).adds v) tag ≡ true
  unfolding add contains
  added_tag tag = ground (
    arith,
    Dict.get-insert s.adds v v (tags_of s.adds v ++ tag ∷ []),
    contains-append (tags_of s.adds v) (tag ∷ []) tag,
    ==_refl v,
    ==_refl tag,
  )

  kept_removes : (tag : ℕ) → (add s v tag).removes ≡ s.removes
  unfolding add
  kept_removes tag = refl

  none_left :
      (removed tags : List ℕ)
      → ((t : ℕ) → contains tags t ≡ true → contains removed t ≡ true)
      → any (λ t. not (contains removed t)) tags ≡ false
  unfolding any contains
  none_left removed [] h = refl
  none_left removed (t ∷ tags) h =
      ground (arith, h t (rw (==_refl t) refl), none_left removed tags (λ u c. h u ground arith))

  -- A value is gone once the tags that it was added with are removed.
  pub remove_observed : IsMap s → contains (values (remove s v (tags_of s.adds v))) v ≡ false
  remove_observed d =
      let tags = tags_of s.adds v in
      values-is_present (remove s v tags) v (remove-IsMap tags d).0
      ∙ ap (λ x. any (λ t. not (contains (tags_of (remove s v tags).removes v) t)) (tags_of x v))
          (kept_adds tags)
      ∙ none_left (tags_of (remove s v tags).removes v) tags
          (λ t c. removed_tags tags t ∙ ground arith)

  -- An addition with a new tag is kept against the removal, on another replica, of all tags that the
  -- value had before.
  pub add_wins :
      (tag : ℕ)
      → IsMap s
      → contains (tags_of s.adds v) tag ≡ false
      → contains (tags_of s.removes v) tag ≡ false
      → contains (values (merge (remove s v (tags_of s.adds v)) (add s v tag))) v ≡ true
  add_wins tag d fresh kept =
      let r = remove s v (tags_of s.adds v) in
      values-is_present (merge r (add s v tag)) v
        (merge-IsMap r (add s v tag) (remove-IsMap (tags_of s.adds v) d)).0
      ∙ any_at _ _ tag
          (merge_adds r (add s v tag) v tag (add-IsMap tag d) ∙ ground (arith, added_tag tag))
          (ground (
            arith,
            merge_removes r (add s v tag) v tag (add-IsMap tag d),
            removed_tags (tags_of s.adds v) tag,
            ap (λ x. contains (tags_of x v) tag) (kept_removes tag),
          ))
