-- ===== src/Mailbox/Store/View.antt =====
-- mailbox_store.rs: what the nested maps hold after a message is kept, by owner and identifier.
use post_urbit.Prelude.{
  Bytes, false, Option, none, some, [], ◌==◌, ◌≡◌, refl, sym, ap, ◌∙◌, list_eq, nat_eq,
  if◌then◌else◌, Option-cases, Bool-cases, inl, inr, arith, list_beq_iff,
}
use post_urbit.Prelude.Dict.{get, insert, get-insert}
use post_urbit.Mailbox.Store.{StoredMessage, Inbox, MailboxStore, inbox_of, keep}

-- the message of an identifier in the inbox of an owner
abbrev pub View : Type 0
View = Bytes → Bytes → Option StoredMessage

-- a message that is kept unless there is one by its name
unfoldable pub with_message : View → Bytes → StoredMessage → View
with_message v owner m o i =
    if owner == o
    then (if m.message_id == i
        then elim (v o i) [ none ↦ some m | some existing ↦ some existing ]
        else v o i)
    else v o i

abbrev pub IsViewOf : View → MailboxStore → Type 0
IsViewOf v messages = (o i : Bytes) → get (inbox_of messages o) i ≡ v o i

pub inbox_of-insert :
    (messages : MailboxStore) (owner o : Bytes) (inbox : Inbox)
    → inbox_of (insert messages owner inbox) o ≡ (if owner == o then inbox else inbox_of messages o)
unfolding inbox_of
inbox_of-insert messages owner o inbox = ground (arith, get-insert messages owner o inbox)

pub inbox_of-none :
    (messages : MailboxStore) (owner : Bytes)
    → get messages owner ≡ none
    → inbox_of messages owner ≡ []
unfolding inbox_of
inbox_of-none messages owner e = rw (e, inbox_of) refl

pub inbox_of-some :
    (messages : MailboxStore) (owner : Bytes) (inbox : Inbox)
    → get messages owner ≡ some inbox
    → inbox_of messages owner ≡ inbox
unfolding inbox_of
inbox_of-some messages owner inbox e = rw (e, inbox_of) refl

pub insert-IsViewOf :
    (v : View) (messages : MailboxStore) (owner : Bytes) (inbox : Inbox) (u : View)
    → IsViewOf v messages
    → ((i : Bytes) → get inbox i ≡ u owner i)
    → ((o i : Bytes) → (owner == o) ≡ false → u o i ≡ v o i)
    → IsViewOf u (insert messages owner inbox)
insert-IsViewOf v messages owner inbox u h k l o i = elim (Bool-cases (owner == o)) [
  | inl e ↦
      ap (λ b. get b i) (inbox_of-insert messages owner o inbox ∙ rw e refl)
      ∙ (k i ∙ ap (λ x. u x i) ((list_beq_iff owner o).0 e))
  | inr e ↦
      ap (λ b. get b i) (inbox_of-insert messages owner o inbox ∙ rw e refl)
      ∙ (h o i ∙ sym (l o i e))
]

pub keep-IsViewOf :
    (v : View) (messages : MailboxStore) (owner : Bytes) (m : StoredMessage)
    → IsViewOf v messages
    → IsViewOf (with_message v owner m) (keep messages owner m)
unfolding keep with_message
keep-IsViewOf v messages owner m h =
    let inbox = inbox_of messages owner in
    elim (Option-cases (get inbox m.message_id)) [
      | inl e ↦
          rw (e, keep)
            (insert-IsViewOf v messages owner (insert inbox m.message_id m) (with_message v owner m)
              h
              (λ i. ground (
                arith,
                get-insert inbox m.message_id i m,
                h owner i,
                h owner m.message_id,
                e,
                list_beq_iff owner owner,
                list_beq_iff m.message_id i,
              ))
              (λ o i k. rw k refl))
      | inr (x, e) ↦
          rw (e, keep)
            (insert-IsViewOf v messages owner inbox (with_message v owner m) h
              (λ i. ground (
                arith,
                h owner i,
                h owner m.message_id,
                e,
                list_beq_iff owner owner,
                list_beq_iff m.message_id i,
              ))
              (λ o i k. rw k refl))
    ]
