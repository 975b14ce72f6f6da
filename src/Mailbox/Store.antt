-- ===== src/Mailbox/Store.antt =====
-- mailbox_store.rs: the messages that wait in the inboxes of their owners.
-- `Uuid::to_string` is the parameter `uuid`. The clock's text is an argument of `store`, and stands
-- beside each member in `store_group_message`, which reads the clock once for each.
pub mod View
pub mod Reads
pub mod Log
pub mod Admission
pub mod Calls
pub mod Fanout
use post_urbit.Prelude.{
  ℕ, Bytes, Bool, true, false, not, Option, none, some, List, [], ◌∷◌, ◌++◌, ◌+◌, ◌==◌, nat_eq,
  list_eq, leb, if◌then◌else◌, length, map, contains, retain, Ordering, compare_bytes, then_with,
  sort_by, bit_xor, bit_or, Result, ok, err, ◌>>=◌, ◌>>◌, guard, invalid_input,
}
use post_urbit.Prelude.Dict.{Dict, get, insert, remove, values}
use post_urbit.Encoding.{crockford_base32_decode, validate_crockford_base32_lower}
use post_urbit.Messaging.{decode_puse_envelope}

pub record StoredMessage : Type 0 where
  pub message_id : Bytes
  pub stored_at : Bytes
  pub sender_iid : Bytes
  pub size : ℕ
  pub envelope : Bytes

abbrev pub Inbox : Type 0
Inbox = Dict Bytes StoredMessage

abbrev pub MailboxStore : Type 0
MailboxStore = Dict Bytes Inbox

-- `self.messages.get(owner)`, and empty where there is none, as `entry(owner).or_default()`
unfoldable pub inbox_of : MailboxStore → Bytes → Inbox
inbox_of messages owner = elim (get messages owner) [ none ↦ [] | some inbox ↦ inbox ]

-- `diff |= x ^ y` over the pairs
unfoldable pub diff_loop : ℕ → Bytes → Bytes → ℕ
diff_loop diff [] ys = diff
diff_loop diff (x ∷ xs) [] = diff
diff_loop diff (x ∷ xs) (y ∷ ys) = diff_loop (bit_or diff (bit_xor x y)) xs ys

unfoldable pub constant_time_eq : Bytes → Bytes → Bool
constant_time_eq a b = if not (length b == 20) then false else diff_loop 0 a b == 0

-- the order of `sort_by` in both `retrieve` methods
abbrev pub compare_messages : StoredMessage → StoredMessage → Ordering
compare_messages a b =
    then_with (compare_bytes a.stored_at b.stored_at) (compare_bytes a.message_id b.message_id)

-- the messages kept by `store` and `store_group_message`, unless the inbox has one by that name
unfoldable pub keep : MailboxStore → Bytes → StoredMessage → MailboxStore
keep messages owner stored =
    let inbox = inbox_of messages owner in
    elim (get inbox stored.message_id) [
      | some existing ↦ insert messages owner inbox
      | none ↦ insert messages owner (insert inbox stored.message_id stored)
    ]

unfoldable pub retrieve : MailboxStore → Bytes → Result (List StoredMessage)
retrieve messages inbox_owner_iid = do
  validate_crockford_base32_lower inbox_owner_iid
  ok (sort_by compare_messages (values (inbox_of messages inbox_owner_iid)))

unfoldable pub retrieve_by_sender : MailboxStore → Bytes → Bytes → Result (List StoredMessage)
retrieve_by_sender messages inbox_owner_iid sender_iid = do
  validate_crockford_base32_lower inbox_owner_iid
  validate_crockford_base32_lower sender_iid
  ok (
      sort_by compare_messages (
        retain (λ (m : StoredMessage). m.sender_iid == sender_iid)
          (values (inbox_of messages inbox_owner_iid))))

-- the filter with `seen`
unfoldable pub unseen : List Bytes → List StoredMessage → List Bytes
unseen seen [] = []
unseen seen (m ∷ ms) =
    let known = contains seen m.sender_iid in
    let rest = unseen (if known then seen else m.sender_iid ∷ seen) ms in
    if known then rest else m.sender_iid ∷ rest

unfoldable pub get_senders : MailboxStore → Bytes → Result (List Bytes)
get_senders messages inbox_owner_iid = do
  validate_crockford_base32_lower inbox_owner_iid
  ok (sort_by compare_bytes (unseen [] (values (inbox_of messages inbox_owner_iid))))

-- the loop of `delete`: the inbox and the count
unfoldable pub delete_loop : List Bytes → Inbox → ℕ → Inbox × ℕ
delete_loop [] inbox deleted = (inbox, deleted)
delete_loop (id ∷ ids) inbox deleted =
    delete_loop ids (remove inbox id)
      (elim (get inbox id) [ none ↦ deleted | some m ↦ deleted + 1 ])

unfoldable pub delete : MailboxStore → Bytes → List Bytes → Result ℕ × MailboxStore
delete messages inbox_owner_iid ids = elim (validate_crockford_base32_lower inbox_owner_iid) [
  | err e ↦ (err e, messages)
  | ok valid ↦ elim (get messages inbox_owner_iid) [
    | none ↦ (ok 0, messages)
    | some inbox ↦
        let (rest, deleted) = delete_loop ids inbox 0 in
        (ok deleted, insert messages inbox_owner_iid rest)
  ]
]

-- the loop over the members, each with the time at its turn
unfoldable pub fan_out :
    (Bytes → StoredMessage)
    → List (Bytes × Bytes)
    → List Bytes
    → MailboxStore
    → Result (List Bytes) × MailboxStore
fan_out message [] message_ids messages = (ok message_ids, messages)
fan_out message ((member_iid, stored_at) ∷ members) message_ids messages =
    let stored = message stored_at in
    elim (validate_crockford_base32_lower member_iid) [
      | err e ↦ (err e, messages)
      | ok valid ↦
          fan_out message members (message_ids ++ stored.message_id ∷ [])
            (keep messages member_iid stored)
    ]

pub record InboxStats : Type 0 where
  pub message_count : ℕ
  pub total_size : ℕ
  pub unique_senders : ℕ

unfoldable pub total : List StoredMessage → ℕ
total [] = 0
total (m ∷ ms) = m.size + total ms

unfoldable pub get_inbox_stats : MailboxStore → Bytes → Result InboxStats
get_inbox_stats messages inbox_owner_iid = do
  validate_crockford_base32_lower inbox_owner_iid
  let inbox = inbox_of messages inbox_owner_iid in
      ok (record {
        message_count = length inbox;
        total_size = total (values inbox);
        unique_senders = length (unseen [] (values inbox));
      })

module _ (uuid : Bytes → Bytes) where
  -- the checks of `store`, and the message that it makes
  unfoldable pub accept : Bytes → Bytes → Bytes → Bytes → Result StoredMessage
  accept inbox_owner_iid token_iid envelope stored_at = do
    validate_crockford_base32_lower inbox_owner_iid
    validate_crockford_base32_lower token_iid
    guard (leb (length envelope) 1048576) (invalid_input "envelope too large")
    parsed ← decode_puse_envelope envelope
    token_raw ← crockford_base32_decode token_iid
    guard (length token_raw == 20) (invalid_input "token iid length")
    guard (constant_time_eq parsed.header.sender_iid token_raw)
        (invalid_input "sender iid mismatch")
    ok (record {
      message_id = uuid parsed.header.message_id;
      stored_at = stored_at;
      sender_iid = token_iid;
      size = length envelope;
      envelope = envelope;
    })

  unfoldable pub store :
      MailboxStore → Bytes → Bytes → Bytes → Bytes → Result StoredMessage × MailboxStore
  store messages inbox_owner_iid token_iid envelope stored_at =
      elim (accept inbox_owner_iid token_iid envelope stored_at) [
        | err e ↦ (err e, messages)
        | ok stored ↦ (
          elim (get (inbox_of messages inbox_owner_iid) stored.message_id) [
            | some existing ↦ ok existing
            | none ↦ ok stored
          ],
          keep messages inbox_owner_iid stored,
        )
      ]

  -- the checks of `store_group_message` before its loop, and the message without its time
  unfoldable pub accept_group : Bytes → Bytes → Result (Bytes → StoredMessage)
  accept_group sender_iid envelope = do
    validate_crockford_base32_lower sender_iid
    guard (leb (length envelope) 1048576) (invalid_input "envelope too large")
    parsed ← decode_puse_envelope envelope
    sender_raw ← crockford_base32_decode sender_iid
    guard (length sender_raw == 20) (invalid_input "sender iid length")
    guard (constant_time_eq parsed.header.sender_iid sender_raw)
        (invalid_input "sender iid mismatch")
    ok (λ stored_at. record {
      message_id = uuid parsed.header.message_id;
      stored_at = stored_at;
      sender_iid = sender_iid;
      size = length envelope;
      envelope = envelope;
    })

  unfoldable pub store_group_message :
      MailboxStore → List (Bytes × Bytes) → Bytes → Bytes → Result (List Bytes) × MailboxStore
  store_group_message messages members sender_iid envelope =
      elim (accept_group sender_iid envelope) [
        | err e ↦ (err e, messages)
        | ok message ↦ fan_out message members [] messages
      ]
