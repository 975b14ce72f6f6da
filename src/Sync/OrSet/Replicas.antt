-- ===== src/Sync/OrSet/Replicas.antt =====
-- sync.rs: what `ORSet::values` holds, and that merging forgets order and repetition.
use post_urbit.Prelude.{
  ℕ, Bool, true, not, ◌||◌, List, [], ◌∷◌, ◌++◌, nat_eq, ◌==◌, any, contains, Eq, ◌≡◌, refl, sym,
  ap, ap₂, ◌∙◌, arith, ==_refl, Bool-cases, inl, inr, subst, eq_of_==,
}
use post_urbit.Prelude.Dict
use post_urbit.Prelude.Dict.{Dict}
use post_urbit.Sync.OrSet.{OrSet, tags_of, extend, extend_all, merge, values, values_loop}

pub contains-append :
    (xs ys : List ℕ) (t : ℕ) → contains (xs ++ ys) t ≡ (contains xs t || contains ys t)
unfolding contains
contains-append [] ys t = refl
contains-append (x ∷ xs) ys t = ground (arith, contains-append xs ys t)

any_ext : (p q : ℕ → Bool) (xs : List ℕ) → ((t : ℕ) → p t ≡ q t) → any p xs ≡ any q xs
unfolding any
any_ext p q [] h = refl
any_ext p q (x ∷ xs) h = ap₂ (λ a b. a || b) (h x) (any_ext p q xs h)

pub any_at :
    (p : ℕ → Bool) (xs : List ℕ) (t : ℕ) → contains xs t ≡ true → p t ≡ true → any p xs ≡ true
unfolding any contains
any_at p [] t c h = cc
any_at p (x ∷ xs) t c h = elim (Bool-cases (x == t)) [
  | inl e ↦ ground (arith, ap p (eq_of_== e))
  | inr e ↦ ground (arith, any_at p xs t)
]

any_mono :
    (p : ℕ → Bool) (xs ys : List ℕ)
    → ((t : ℕ) → contains xs t ≡ true → contains ys t ≡ true)
    → any p xs ≡ true
    → any p ys ≡ true
unfolding any contains
any_mono p [] ys h a = cc
any_mono p (x ∷ xs) ys h a = elim (Bool-cases (p x)) [
  | inl e ↦ any_at p ys x (h x (rw (==_refl x) refl)) e
  | inr e ↦ any_mono p xs ys (λ t c. h t (ground arith)) (ground arith)
]

any_same :
    (p q : ℕ → Bool) (xs ys : List ℕ)
    → ((t : ℕ) → p t ≡ q t)
    → ((t : ℕ) → contains xs t ≡ contains ys t)
    → any p xs ≡ any q ys
any_same p q xs ys h k = ground (
  arith,
  any_ext p q ys h,
  any_mono p xs ys (λ t c. sym (k t) ∙ c),
  any_mono p ys xs (λ t c. k t ∙ c),
)

module _ {T : Type 0} ⦃e : Eq T⦄ where
  -- a value is in the set if one of the tags it was added with has not been removed
  abbrev pub is_present : OrSet T → T → Bool
  is_present s value =
      any (λ tag. not (contains (tags_of s.removes value) tag)) (tags_of s.adds value)

  contains-values_loop :
      (adds removes : Dict T (List ℕ)) (value : T)
      → Dict.IsDistinct adds
      → contains (values_loop adds removes) value
        ≡ any (λ tag. not (contains (tags_of removes value) tag)) (tags_of adds value)
  unfolding values_loop contains any Dict.get
  contains-values_loop [] removes value d = refl
  contains-values_loop ((v, tags) ∷ adds) removes value d = elim (Bool-cases (v == value)) [
    | inl e' ↦
        subst
          (λ x.
            contains (values_loop ((v, tags) ∷ adds) removes) x
            ≡ any (λ tag. not (contains (tags_of removes x) tag)) (tags_of ((v, tags) ∷ adds) x))
          (eq_of_== e') (ground (arith, ==_refl v, d.0, contains-values_loop adds removes v d.1))
    | inr e' ↦ ground (arith, contains-values_loop adds removes value d.1)
  ]

  tags_of-extend_all :
      (m other : Dict T (List ℕ)) (value : T) (t : ℕ)
      → Dict.IsDistinct other
      → contains (tags_of (extend_all m other) value) t
        ≡ (contains (tags_of m value) t || contains (tags_of other value) t)
  unfolding extend_all Dict.get contains
  tags_of-extend_all m [] value t d = ground arith
  tags_of-extend_all m ((v, tags) ∷ other) value t d =
      tags_of-extend_all (extend m v tags) other value t d.1
      ∙ ground (
        arith,
        Dict.get-insert m v value (tags_of m v ++ tags),
        contains-append (tags_of m v) tags t,
        e.beq_iff v value,
        d.0,
      )

  -- no key stands twice in either map
  abbrev pub IsMap : OrSet T → Type 0
  IsMap s = Dict.IsDistinct s.adds × Dict.IsDistinct s.removes

  -- The values of a set are those of which a tag was added and has not been removed.
  pub values-is_present :
      (s : OrSet T) (value : T)
      → Dict.IsDistinct s.adds
      → contains (values s) value ≡ is_present s value
  unfolding values
  values-is_present s value d = contains-values_loop s.adds s.removes value d

  -- the tags of two sets are the same
  record SameTags (s s' : OrSet T) : Type 0 where
    added : (v : T) (t : ℕ) → contains (tags_of s.adds v) t ≡ contains (tags_of s'.adds v) t
    removed : (v : T) (t : ℕ) → contains (tags_of s.removes v) t ≡ contains (tags_of s'.removes v) t

  is_present_same : (s s' : OrSet T) (v : T) → SameTags s s' → is_present s v ≡ is_present s' v
  is_present_same s s' v h = any_same _ _ _ _ (λ t. ap not (h.removed v t)) (λ t. h.added v t)

  pub merge_adds :
      (a b : OrSet T) (v : T) (t : ℕ)
      → IsMap b
      → contains (tags_of (merge a b).adds v) t
        ≡ (contains (tags_of a.adds v) t || contains (tags_of b.adds v) t)
  unfolding merge
  merge_adds a b v t d = tags_of-extend_all a.adds b.adds v t d.0

  pub merge_removes :
      (a b : OrSet T) (v : T) (t : ℕ)
      → IsMap b
      → contains (tags_of (merge a b).removes v) t
        ≡ (contains (tags_of a.removes v) t || contains (tags_of b.removes v) t)
  unfolding merge
  merge_removes a b v t d = tags_of-extend_all a.removes b.removes v t d.1

  extend_all-IsDistinct :
      (m other : Dict T (List ℕ)) → Dict.IsDistinct m → Dict.IsDistinct (extend_all m other)
  unfolding extend_all
  extend_all-IsDistinct m [] d = d
  extend_all-IsDistinct m ((v, tags) ∷ other) d =
      extend_all-IsDistinct (extend m v tags) other
        (Dict.insert-IsDistinct m v (tags_of m v ++ tags) d)

  pub merge-IsMap : (a b : OrSet T) → IsMap a → IsMap (merge a b)
  unfolding merge
  merge-IsMap a b d =
      (extend_all-IsDistinct a.adds b.adds d.0, extend_all-IsDistinct a.removes b.removes d.1)

  same_values :
      (a b : OrSet T) (v : T)
      → IsMap a
      → IsMap b
      → SameTags a b
      → contains (values a) v ≡ contains (values b) v
  same_values a b v d d' h =
      values-is_present a v d.0 ∙ is_present_same a b v h ∙ sym (values-is_present b v d'.0)

  -- Replicas that merge each other's sets agree on the values: the order of two sets, the grouping of
  -- three and a repeated merge make no difference to the values of the result.
  pub merge_agrees :
      (a b c : OrSet T) (v : T)
      → IsMap a
      → IsMap b
      → IsMap c
      → (contains (values (merge a b)) v ≡ contains (values (merge b a)) v)
        × (contains (values (merge (merge a b) c)) v ≡ contains (values (merge a (merge b c))) v)
        × (contains (values (merge (merge a b) b)) v ≡ contains (values (merge a b)) v)
  merge_agrees a b c v da db dc = (
    same_values (merge a b) (merge b a) v (merge-IsMap a b da) (merge-IsMap b a db) (record {
      added = λ v t. ground (arith, merge_adds a b v t db, merge_adds b a v t da);
      removed = λ v t. ground (arith, merge_removes a b v t db, merge_removes b a v t da);
    }),
    same_values (merge (merge a b) c) (merge a (merge b c)) v
        (merge-IsMap (merge a b) c (merge-IsMap a b da)) (merge-IsMap a (merge b c) da)
        (record {
          added = λ v t. ground (
            arith,
            merge_adds (merge a b) c v t dc,
            merge_adds a b v t db,
            merge_adds a (merge b c) v t (merge-IsMap b c db),
            merge_adds b c v t dc,
          );
          removed = λ v t. ground (
            arith,
            merge_removes (merge a b) c v t dc,
            merge_removes a b v t db,
            merge_removes a (merge b c) v t (merge-IsMap b c db),
            merge_removes b c v t dc,
          );
        }),
    same_values (merge (merge a b) b) (merge a b) v (merge-IsMap (merge a b) b (merge-IsMap a b da))
        (merge-IsMap a b da)
        (record {
          added = λ v t. ground (arith, merge_adds (merge a b) b v t db, merge_adds a b v t db);
          removed =
              λ v t. ground (arith, merge_removes (merge a b) b v t db, merge_removes a b v t db);
        }),
  )
