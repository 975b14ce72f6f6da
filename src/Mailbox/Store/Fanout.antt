-- ===== src/Mailbox/Store/Fanout.antt =====
-- mailbox_store.rs: what a fan-out that ends in an error has stored.
use post_urbit.Prelude.{
  Bytes, Option, none, some, ◌&&◌, All, List, [], ◌∷◌, ◌++◌, ◌==◌, ◌≡◌, refl, ◌∙◌, ok, err, list_eq,
  nat_eq, arith, PostUrbitError, if◌then◌else◌,
}
use post_urbit.Prelude.Dict.{get}
use post_urbit.Encoding.{validate_crockford_base32_lower}
use post_urbit.Mailbox.Store.{
  StoredMessage, MailboxStore, inbox_of, keep, fan_out, accept_group, store_group_message,
}
use post_urbit.Mailbox.Store.Admission.{letter, accepted, accept_group-letter}
use post_urbit.Mailbox.Store.View.{with_message, keep-IsViewOf}

-- the first message in a list of members with times that is for the owner and has the identifier
unfoldable pub delivered :
    (Bytes → StoredMessage) → List (Bytes × Bytes) → Bytes → Bytes → Option StoredMessage
delivered message [] owner id = none
delivered message ((member_iid, stored_at) ∷ members) owner id =
    if member_iid == owner && (message stored_at).message_id == id
    then some (message stored_at)
    else delivered message members owner id

-- what stood in an inbox stays, and else the message that is delivered
abbrev pub or_else : Option StoredMessage → Option StoredMessage → Option StoredMessage
or_else none new = new
or_else (some existing) new = some existing

abbrev pub IsValid : Bytes × Bytes → Type 0
IsValid member = validate_crockford_base32_lower member.0 ≡ ok tt

or_else-none : (found : Option StoredMessage) → found ≡ or_else found none
or_else-none none = refl
or_else-none (some existing) = refl

module _ (message : Bytes → StoredMessage) where
  abbrev pub HasDelivered : List (Bytes × Bytes) → MailboxStore → MailboxStore → Type 0
  HasDelivered members before after =
      (o i : Bytes)
      → get (inbox_of after o) i
        ≡ or_else (get (inbox_of before o) i) (delivered message members o i)

  delivered_step :
      (messages last : MailboxStore) (member time : Bytes) (members : List (Bytes × Bytes))
      → HasDelivered members (keep messages member (message time)) last
      → HasDelivered ((member, time) ∷ members) messages last
  unfolding delivered with_message
  delivered_step messages last member time members h o i = ground (
    arith,
    h o i,
    keep-IsViewOf (λ o i. get (inbox_of messages o) i) messages member (message time) (λ o i. refl)
        o i,
  )

  fan_out_through :
      (before rest : List (Bytes × Bytes)) (ids : List Bytes) (messages : MailboxStore)
      → All IsValid before
      → (ids_then : List Bytes) × (messages_then : MailboxStore) × (fan_out message
            (before ++ rest)
            ids
            messages
          ≡ fan_out message rest ids_then messages_then)
        × HasDelivered before messages messages_then
  unfolding fan_out
  fan_out_through [] rest ids messages h =
      (ids, messages, refl, λ o i. unfold delivered in or_else-none (get (inbox_of messages o) i))
  fan_out_through ((member, time) ∷ before) rest ids messages (valid, h) =
      let m = message time in
      let (ids_then, messages_then, same, have) =
        fan_out_through before rest (ids ++ m.message_id ∷ []) (keep messages member m) h in
      (
        ids_then,
        messages_then,
        rw (valid, fan_out) same,
        delivered_step messages messages_then member time before have,
      )

-- A letter is fanned out to members of whom one has an identifier that is refused. The call ends in
-- that error, and yet the members before that one have the letter, at the time of their first turn,
-- unless they had a message by its name; no other message has changed.
pub store_group_message-partial :
    (uuid : Bytes → Bytes) (messages : MailboxStore) (before after : List (Bytes × Bytes))
    (member time sender envelope : Bytes) (message : Bytes → StoredMessage) (e : PostUrbitError)
    → letter uuid sender envelope ≡ some message
    → All (IsValid) before
    → validate_crockford_base32_lower member ≡ err e
    → let s =
        store_group_message uuid messages (before ++ ((member, time) ∷ after)) sender envelope in
      (s.0 ≡ err e) × HasDelivered message before messages s.1
unfolding store_group_message
store_group_message-partial uuid messages before after member time sender envelope message e taken
      valid bad =
    let (ids, then_messages, same, have) =
      fan_out_through message before ((member, time) ∷ after) [] messages valid in
    let ready =
      accepted (accept_group uuid sender envelope) message
        (accept_group-letter uuid sender envelope ∙ taken) in
    rw (ready, store_group_message) (rw same (unfold fan_out in rw (bad, fan_out) (refl, have)))
