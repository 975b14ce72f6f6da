-- ===== src/Mailbox/Store/Log.antt =====
-- mailbox_store.rs: the nested maps behave as one list of messages with their owners, in the order in
-- which they came.
use post_urbit.Prelude.{
  ℕ, suc, Bytes, Bool, false, not, ◌&&◌, ◌||◌, Option, none, some, List, [], ◌∷◌, ◌++◌, ◌+◌, ◌==◌,
  ◌≡◌, refl, sym, ap, ◌∙◌, list_eq, nat_eq, if◌then◌else◌, Option-cases, Bool-cases, inl, inr,
  arith, list_beq_iff, map, length, retain, Result-cases, is_ok, is_gt, compare_bytes, subst,
}
use post_urbit.Prelude.Dict.{get, insert, remove, values}
use post_urbit.Encoding.{validate_crockford_base32_lower}
use post_urbit.Mailbox.Store.{
  StoredMessage, Inbox, MailboxStore, inbox_of, keep, delete_loop, fan_out,
}
use post_urbit.Mailbox.Store.Admission.{to_option}
use post_urbit.Mailbox.Store.View.{inbox_of-insert}

abbrev pub Log : Type 0
Log = List (Bytes × StoredMessage)

-- the messages of an owner
unfoldable pub mine : Bytes → Log → List StoredMessage
mine owner [] = []
mine owner ((o, m) ∷ log) = let rest = mine owner log in if o == owner then m ∷ rest else rest

unfoldable pub find : Bytes → List StoredMessage → Option StoredMessage
find id [] = none
find id (m ∷ ms) = if m.message_id == id then some m else find id ms

-- a message comes last, unless its owner has one by its name
unfoldable pub append_new : Log → Bytes → StoredMessage → Log
append_new log owner m = elim (find m.message_id (mine owner log)) [
  | none ↦ log ++ (owner, m) ∷ []
  | some existing ↦ log
]

unfoldable pub drop_one : Log → Bytes → Bytes → Log
drop_one log owner id = retain (λ e. not (e.0 == owner && e.1.message_id == id)) log

-- one identifier after the other, and the count of those that were there
unfoldable pub drop_all : Bytes → List Bytes → Log → ℕ → ℕ × Log
drop_all owner [] log dropped = (dropped, log)
drop_all owner (id ∷ ids) log dropped =
    drop_all owner ids (drop_one log owner id)
      (elim (find id (mine owner log)) [ none ↦ dropped | some m ↦ dropped + 1 ])

-- a message for each member up to one that is refused
unfoldable pub append_each :
    (Bytes → StoredMessage) → List (Bytes × Bytes) → List Bytes → Log → Option (List Bytes) × Log
append_each message [] ids log = (some ids, log)
append_each message ((owner, stored_at) ∷ members) ids log =
    let m = message stored_at in
    let rest = append_each message members (ids ++ m.message_id ∷ []) (append_new log owner m) in
    if is_ok (validate_crockford_base32_lower owner) then rest else (none, log)

-- by the time, and by the identifier where the time is the same
unfoldable pub is_later : StoredMessage → StoredMessage → Bool
is_later a b =
    is_gt (compare_bytes a.stored_at b.stored_at)
    || (a.stored_at == b.stored_at && is_gt (compare_bytes a.message_id b.message_id))

unfoldable pub place : StoredMessage → List StoredMessage → List StoredMessage
place a [] = a ∷ []
place a (b ∷ ms) = let rest = place a ms in if is_later a b then b ∷ rest else a ∷ b ∷ ms

unfoldable pub by_time : List StoredMessage → List StoredMessage
by_time [] = []
by_time (m ∷ ms) = place m (by_time ms)

unfoldable pub distinct : List Bytes → List Bytes
distinct [] = []
distinct (x ∷ xs) = x ∷ retain (λ y. not (y == x)) (distinct xs)

unfoldable pub sum : List ℕ → ℕ
sum [] = 0
sum (n ∷ ns) = n + sum ns

abbrev pub entries : List StoredMessage → Inbox
entries = map (λ m. (m.message_id, m))

pub values-entries : (ms : List StoredMessage) → values (entries ms) ≡ ms
values-entries [] = refl
values-entries (m ∷ ms) = ap (◌∷◌ m) (values-entries ms)

pub length-entries : (ms : List StoredMessage) → length (entries ms) ≡ length ms
length-entries [] = refl
length-entries (m ∷ ms) = ap suc (length-entries ms)

pub get-entries : (ms : List StoredMessage) (id : Bytes) → get (entries ms) id ≡ find id ms
unfolding get find
get-entries [] id = refl
get-entries (m ∷ ms) id = ground (arith, get-entries ms id)

insert-entries :
    (ms : List StoredMessage) (m : StoredMessage)
    → find m.message_id ms ≡ none
    → insert (entries ms) m.message_id m ≡ entries (ms ++ m ∷ [])
unfolding insert find
insert-entries [] m h = refl
insert-entries (n ∷ ms) m h = ground (arith, h, insert-entries ms m)

remove-entries :
    (ms : List StoredMessage) (id : Bytes)
    → remove (entries ms) id ≡ entries (retain (λ m. not (m.message_id == id)) ms)
unfolding remove retain
remove-entries [] id = refl
remove-entries (m ∷ ms) id = ground (arith, remove-entries ms id)

mine-append :
    (log : Log) (owner o : Bytes) (m : StoredMessage)
    → mine o (log ++ (owner, m) ∷ []) ≡ (if owner == o then mine o log ++ m ∷ [] else mine o log)
unfolding mine
mine-append [] owner o m = ground arith
mine-append ((p, n) ∷ log) owner o m = ground (arith, mine-append log owner o m)

mine-drop_one :
    (log : Log) (owner id o : Bytes)
    → mine o (drop_one log owner id)
      ≡ (if owner == o then retain (λ m. not (m.message_id == id)) (mine o log) else mine o log)
unfolding mine drop_one retain
mine-drop_one [] owner id o = ground arith
mine-drop_one ((p, n) ∷ log) owner id o = ground (
  arith,
  mine-drop_one log owner id o,
  list_beq_iff p o,
  list_beq_iff p owner,
  list_beq_iff owner o,
)

-- the store holds the messages of the list
abbrev pub IsLogOf : Log → MailboxStore → Type 0
IsLogOf log messages = (o : Bytes) → inbox_of messages o ≡ entries (mine o log)

insert-IsLogOf :
    (log next : Log) (messages : MailboxStore) (owner : Bytes) (inbox : Inbox)
    → IsLogOf log messages
    → inbox ≡ entries (mine owner next)
    → ((o : Bytes) → (owner == o) ≡ false → mine o next ≡ mine o log)
    → IsLogOf next (insert messages owner inbox)
insert-IsLogOf log next messages owner inbox h k l o = elim (Bool-cases (owner == o)) [
  | inl e ↦
      inbox_of-insert messages owner o inbox
      ∙ (rw e (k ∙ ap (λ x. entries (mine x next)) ((list_beq_iff owner o).0 e)))
  | inr e ↦ inbox_of-insert messages owner o inbox ∙ (rw e (h o ∙ ap entries (sym (l o e))))
]

pub keep-IsLogOf :
    (log : Log) (messages : MailboxStore) (owner : Bytes) (m : StoredMessage)
    → IsLogOf log messages
    → IsLogOf (append_new log owner m) (keep messages owner m)
unfolding keep append_new
keep-IsLogOf log messages owner m h =
    let found =
      ap (λ b. get b m.message_id) (h owner) ∙ get-entries (mine owner log) m.message_id in
    elim (Option-cases (find m.message_id (mine owner log))) [
      | inl e ↦
          rw (found, e, keep, append_new)
            (insert-IsLogOf log (log ++ (owner, m) ∷ []) messages owner
              (insert (inbox_of messages owner) m.message_id m) h
              (ap (λ b. insert b m.message_id m) (h owner)
                ∙ (insert-entries (mine owner log) m e
                    ∙ ap entries (
                        sym (
                          mine-append log owner owner m
                          ∙ rw ((list_beq_iff owner owner).1 refl) refl))))
              (λ o k. mine-append log owner o m ∙ rw k refl))
      | inr (x, e) ↦
          rw (found, e, keep, append_new)
            (insert-IsLogOf log log messages owner (inbox_of messages owner) h (h owner)
              (λ o k. refl))
    ]

pub insert-IsLogOf_same :
    (log : Log) (messages : MailboxStore) (owner : Bytes) (inbox : Inbox)
    → IsLogOf log messages
    → inbox ≡ entries (mine owner log)
    → IsLogOf log (insert messages owner inbox)
insert-IsLogOf_same log messages owner inbox h k =
    insert-IsLogOf log log messages owner inbox h k (λ o e. refl)

pub delete_loop-entries :
    (owner : Bytes) (ids : List Bytes) (inbox : Inbox) (log : Log) (deleted : ℕ)
    → inbox ≡ entries (mine owner log)
    → ((delete_loop ids inbox deleted).1 ≡ (drop_all owner ids log deleted).0)
      × ((delete_loop ids inbox deleted).0
          ≡ entries (mine owner (drop_all owner ids log deleted).1))
unfolding delete_loop drop_all
delete_loop-entries owner [] inbox log deleted h = (refl, h)
delete_loop-entries owner (id ∷ ids) inbox log deleted h =
    let found : get inbox id ≡ find id (mine owner log) =
      ap (λ b. get b id) h ∙ get-entries (mine owner log) id in
    let left : remove inbox id ≡ entries (mine owner (drop_one log owner id)) =
      ap (λ b. remove b id) h
      ∙ (remove-entries (mine owner log) id
          ∙ ap entries (
              sym (
                mine-drop_one log owner id owner ∙ rw ((list_beq_iff owner owner).1 refl) refl))) in
    rw (found, delete_loop)
      (delete_loop-entries owner ids (remove inbox id) (drop_one log owner id) _ left)

pub delete_loop_empty :
    (ids : List Bytes) (deleted : ℕ) → delete_loop ids [] deleted ≡ ([], deleted)
unfolding delete_loop remove get
delete_loop_empty [] deleted = refl
delete_loop_empty (id ∷ ids) deleted = delete_loop_empty ids deleted

pub mine-drop_all :
    (owner : Bytes) (ids : List Bytes) (log : Log) (dropped : ℕ) (o : Bytes)
    → (owner == o) ≡ false
    → mine o (drop_all owner ids log dropped).1 ≡ mine o log
unfolding drop_all
mine-drop_all owner [] log dropped o e = refl
mine-drop_all owner (id ∷ ids) log dropped o e =
    mine-drop_all owner ids (drop_one log owner id) _ o e
    ∙ (mine-drop_one log owner id o ∙ rw e refl)

pub delete-IsLogOf :
    (owner : Bytes) (ids : List Bytes) (messages : MailboxStore) (log : Log)
    → IsLogOf log messages
    → IsLogOf
        (drop_all owner ids log 0).1
        (insert messages owner (delete_loop ids (inbox_of messages owner) 0).0)
delete-IsLogOf owner ids messages log h =
    insert-IsLogOf log (drop_all owner ids log 0).1 messages owner
      (delete_loop ids (inbox_of messages owner) 0).0 h
      (delete_loop-entries owner ids (inbox_of messages owner) log 0 (h owner)).1
      (mine-drop_all owner ids log 0)

-- of an owner without messages nothing is dropped
pub drop_all_empty :
    (owner : Bytes) (ids : List Bytes) (messages : MailboxStore) (log : Log)
    → IsLogOf log messages
    → inbox_of messages owner ≡ []
    → IsLogOf (drop_all owner ids log 0).1 messages
drop_all_empty owner ids messages log h empty o = elim (Bool-cases (owner == o)) [
  | inl e ↦
      let here : inbox_of messages owner ≡ entries (mine owner (drop_all owner ids log 0).1) =
        empty
        ∙ (sym (ap (λ (x : Inbox × ℕ). x.0) (delete_loop_empty ids 0))
            ∙ (ap (λ b. (delete_loop ids b 0).0) (sym empty)
                ∙ (delete_loop-entries owner ids (inbox_of messages owner) log 0 (h owner)).1)) in
      subst (λ x. inbox_of messages x ≡ entries (mine x (drop_all owner ids log 0).1))
        ((list_beq_iff owner o).0 e) here
  | inr e ↦ h o ∙ ap entries (sym (mine-drop_all owner ids log 0 o e))
]

pub fan_out-append_each :
    (message : Bytes → StoredMessage) (members : List (Bytes × Bytes)) (ids : List Bytes)
    (log : Log) (messages : MailboxStore)
    → IsLogOf log messages
    → (to_option (fan_out message members ids messages).0 ≡ (append_each message members ids log).0)
      × IsLogOf (append_each message members ids log).1 (fan_out message members ids messages).1
unfolding fan_out append_each
fan_out-append_each message [] ids log messages h = (refl, h)
fan_out-append_each message ((owner, stored_at) ∷ members) ids log messages h =
    elim (Result-cases (validate_crockford_base32_lower owner)) [
      | inl (x, e) ↦
          rw (e, fan_out, append_each)
            (fan_out-append_each message members _ _ _
              (keep-IsLogOf log messages owner (message stored_at) h))
      | inr (x, e) ↦ rw (e, fan_out, append_each) (refl, h)
    ]
