-- ===== src/Mailbox/Store/Reads.antt =====
-- mailbox_store.rs: the orders, the senders and the sizes that are read, said for lists of messages.
use post_urbit.Prelude.{
  Bytes, true, not, List, [], ◌∷◌, ◌+◌, ◌==◌, ◌≡◌, refl, sym, ap, ◌∙◌, list_eq, nat_eq, Bool-cases,
  inl, inr, arith, list_beq_iff, map, retain, contains, is_gt, compare_bytes_eq, compare_bytes_refl,
  sort_by, insert_by,
}
use post_urbit.Mailbox.Store.{StoredMessage, unseen, total, compare_messages}
use post_urbit.Mailbox.Store.Log.{is_later, place, by_time, distinct, sum}

is_later-compare : (a b : StoredMessage) → is_gt (compare_messages a b) ≡ is_later a b
unfolding is_later
is_later-compare a b = ground (
  arith,
  compare_bytes_eq a.stored_at b.stored_at,
  compare_bytes_refl a.stored_at,
  list_beq_iff a.stored_at b.stored_at,
)

insert_by-place :
    (a : StoredMessage) (ms : List StoredMessage) → insert_by compare_messages a ms ≡ place a ms
unfolding insert_by place
insert_by-place a [] = refl
insert_by-place a (b ∷ ms) = rw (is_later-compare a b, insert_by-place a ms) refl

pub sort_by-by_time : (ms : List StoredMessage) → sort_by compare_messages ms ≡ by_time ms
unfolding sort_by by_time
sort_by-by_time [] = refl
sort_by-by_time (m ∷ ms) =
    ap (insert_by compare_messages m) (sort_by-by_time ms) ∙ insert_by-place m (by_time ms)

pub total-sum : (ms : List StoredMessage) → total ms ≡ sum (map (λ m. m.size) ms)
unfolding total sum
total-sum [] = refl
total-sum (m ∷ ms) = ap (λ n. m.size + n) (total-sum ms)

without : List Bytes → List Bytes → List Bytes
without seen xs = retain (λ x. not (contains seen x)) xs

without_known :
    (seen : List Bytes) (s : Bytes) (xs : List Bytes)
    → contains seen s ≡ true
    → without seen (retain (λ x. not (x == s)) xs) ≡ without seen xs
unfolding without retain
without_known seen s [] h = refl
without_known seen s (x ∷ xs) h = ground (
  arith,
  without_known seen s xs h,
  λ (e : (x == s) ≡ true). ap (contains seen) ((list_beq_iff x s).0 e) ∙ h,
)

without_more :
    (seen : List Bytes) (s : Bytes) (xs : List Bytes)
    → without seen (retain (λ x. not (x == s)) xs) ≡ without (s ∷ seen) xs
unfolding without retain contains
without_more seen s [] = refl
without_more seen s (x ∷ xs) =
    ground (arith, without_more seen s xs, list_beq_iff x s, list_beq_iff s x)

unseen-without :
    (seen : List Bytes) (ms : List StoredMessage)
    → unseen seen ms ≡ without seen (distinct (map (λ m. m.sender_iid) ms))
unfolding unseen distinct without retain
unseen-without seen [] = refl
unseen-without seen (m ∷ ms) =
    let senders = distinct (map (λ m. m.sender_iid) ms) in
    elim (Bool-cases (contains seen m.sender_iid)) [
      | inl k ↦ rw k (unseen-without seen ms ∙ sym (without_known seen m.sender_iid senders k))
      | inr k ↦ rw k (
          ap (◌∷◌ m.sender_iid) (
            unseen-without (m.sender_iid ∷ seen) ms ∙ sym (without_more seen m.sender_iid senders)))
    ]

without_nothing : (xs : List Bytes) → without [] xs ≡ xs
unfolding without retain contains
without_nothing [] = refl
without_nothing (x ∷ xs) = ap (◌∷◌ x) (without_nothing xs)

pub unseen-distinct :
    (ms : List StoredMessage) → unseen [] ms ≡ distinct (map (λ m. m.sender_iid) ms)
unseen-distinct ms = unseen-without [] ms ∙ without_nothing (distinct (map (λ m. m.sender_iid) ms))
