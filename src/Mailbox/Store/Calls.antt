-- ===== src/Mailbox/Store/Calls.antt =====
-- mailbox_store.rs: any sequence of calls behaves as on one list of messages with their owners.
use post_urbit.Prelude.{
  ℕ, Bytes, Bool, true, false, ◌&&◌, Option, none, some, List, [], ◌∷◌, ◌≡◌, refl, sym, ap, ◌∙◌,
  ◌==◌, list_eq, nat_eq, Result, ok, is_ok, subst, Result-cases, Option-cases, inl, inr,
  if◌then◌else◌, map, retain, length, sort_by, compare_bytes,
}
use post_urbit.Prelude.Dict.{get, insert, values}
use post_urbit.Encoding.{validate_crockford_base32_lower}
use post_urbit.Mailbox.Store.{
  StoredMessage, Inbox, InboxStats, MailboxStore, inbox_of, accept, store, delete_loop, delete,
  accept_group, store_group_message, retrieve, retrieve_by_sender, get_senders, get_inbox_stats,
}
use post_urbit.Mailbox.Store.Admission.{
  to_option, accepted, refused, letter, accept-letter, accept_group-letter,
}
use post_urbit.Mailbox.Store.View.{inbox_of-none, inbox_of-some}
use post_urbit.Mailbox.Store.Log.{
  Log, mine, find, append_new, drop_all, append_each, by_time, distinct, sum, IsLogOf,
  values-entries, length-entries, get-entries, keep-IsLogOf, delete_loop-entries, delete-IsLogOf,
  fan_out-append_each, delete_loop_empty, drop_all_empty,
}
use post_urbit.Mailbox.Store.Reads.{sort_by-by_time, total-sum, unseen-distinct}

-- one call of the store
pub data Call : Type 0 where
  stores : (inbox_owner_iid token_iid envelope stored_at : Bytes) → Call
  stores_group : (members : List (Bytes × Bytes)) (sender_iid envelope : Bytes) → Call
  deletes : (inbox_owner_iid : Bytes) (ids : List Bytes) → Call
  retrieves : (inbox_owner_iid : Bytes) → Call
  retrieves_from : (inbox_owner_iid sender_iid : Bytes) → Call
  lists_senders : (inbox_owner_iid : Bytes) → Call
  counts : (inbox_owner_iid : Bytes) → Call

-- what it answers, and `none` for an error
pub data Answer : Type 0 where
  stored : Option StoredMessage → Answer
  fanned_out : Option (List Bytes) → Answer
  deleted : Option ℕ → Answer
  retrieved : Option (List StoredMessage) → Answer
  senders : Option (List Bytes) → Answer
  stats : Option InboxStats → Answer

abbrev pub is_valid : Bytes → Bool
is_valid iid = is_ok (validate_crockford_base32_lower iid)

abbrev pub when {ℓ} : {A : Type ℓ} → Bool → A → Option A
when b a = if b then some a else none

never {ℓ} : {A : Type ℓ} (b : Bool) → ◌≡◌ {A = Option A} (if b then none else none) none
never true = refl
never false = refl

abbrev or_found : Option StoredMessage → StoredMessage → Result StoredMessage
or_found found m = elim found [ some existing ↦ ok existing | none ↦ ok m ]

stored_answer :
    (found : Option StoredMessage) (m : StoredMessage)
    → stored (to_option (or_found found m))
      ≡ (elim found [ none ↦ stored (some m) | some existing ↦ stored (some existing) ])
stored_answer none m = refl
stored_answer (some existing) m = refl

module _ (uuid : Bytes → Bytes) where
  unfoldable pub step : MailboxStore → Call → Answer × MailboxStore
  step messages (stores owner token envelope time) =
      let (r, next) = store uuid messages owner token envelope time in (stored (to_option r), next)
  step messages (stores_group members sender envelope) =
      let (r, next) = store_group_message uuid messages members sender envelope in
      (fanned_out (to_option r), next)
  step messages (deletes owner ids) =
      let (r, next) = delete messages owner ids in (deleted (to_option r), next)
  step messages (retrieves owner) = (retrieved (to_option (retrieve messages owner)), messages)
  step messages (retrieves_from owner sender) =
      (retrieved (to_option (retrieve_by_sender messages owner sender)), messages)
  step messages (lists_senders owner) = (senders (to_option (get_senders messages owner)), messages)
  step messages (counts owner) = (stats (to_option (get_inbox_stats messages owner)), messages)

  -- what a letter does to the list: the first message by a name stays, and is the answer
  unfoldable pub store_letter : Log → Bytes → Bytes → Option (Bytes → StoredMessage) → Answer × Log
  store_letter log owner time none = (stored none, log)
  store_letter log owner time (some message) =
      let m = message time in
      if is_valid owner
      then (
        elim (find m.message_id (mine owner log)) [
          | none ↦ stored (some m)
          | some existing ↦ stored (some existing)
        ],
        append_new log owner m,
      )
      else (stored none, log)

  unfoldable pub fan_out_letter :
      Log → List (Bytes × Bytes) → Option (Bytes → StoredMessage) → Answer × Log
  fan_out_letter log members none = (fanned_out none, log)
  fan_out_letter log members (some message) =
      let (r, next) = append_each message members [] log in (fanned_out r, next)

  unfoldable pub log_step : Log → Call → Answer × Log
  log_step log (stores owner token envelope time) =
      store_letter log owner time (letter uuid token envelope)
  log_step log (stores_group members sender envelope) =
      fan_out_letter log members (letter uuid sender envelope)
  log_step log (deletes owner ids) =
      let (count, next) = drop_all owner ids log 0 in
      if is_valid owner then (deleted (some count), next) else (deleted none, log)
  log_step log (retrieves owner) =
      (retrieved (when (is_valid owner) (by_time (mine owner log))), log)
  log_step log (retrieves_from owner sender) = (
    retrieved (
        when (is_valid owner && is_valid sender)
          (by_time (retain (λ (m : StoredMessage). m.sender_iid == sender) (mine owner log)))),
    log,
  )
  log_step log (lists_senders owner) = (
    senders (
        when (is_valid owner)
          (sort_by compare_bytes (distinct (map (λ m. m.sender_iid) (mine owner log))))),
    log,
  )
  log_step log (counts owner) = (
    stats (
        when (is_valid owner) (record {
          message_count = length (mine owner log);
          total_size = sum (map (λ m. m.size) (mine owner log));
          unique_senders = length (distinct (map (λ m. m.sender_iid) (mine owner log)));
        })),
    log,
  )

  unfoldable pub run : MailboxStore → List Call → List Answer × MailboxStore
  run messages [] = ([], messages)
  run messages (c ∷ cs) =
      let (a, next) = step messages c in let (rest, last) = run next cs in (a ∷ rest, last)

  unfoldable pub log_run : Log → List Call → List Answer × Log
  log_run log [] = ([], log)
  log_run log (c ∷ cs) =
      let (a, next) = log_step log c in let (rest, last) = log_run next cs in (a ∷ rest, last)

  -- the answer of a call is that of the list, and so is what it leaves
  abbrev Refines : Log → MailboxStore → Call → Type 0
  Refines log messages c =
      ((step messages c).0 ≡ (log_step log c).0) × IsLogOf (log_step log c).1 (step messages c).1

  store-Refines :
      (log : Log) (messages : MailboxStore) (owner token envelope time : Bytes)
      → IsLogOf log messages
      → Refines log messages (stores owner token envelope time)
  unfolding step log_step store store_letter
  store-Refines log messages owner token envelope time h =
      let taken = accept-letter uuid owner token envelope time in
      elim (Option-cases (letter uuid token envelope)) [
        | inl l ↦
            let (x, e) =
              refused (accept uuid owner token envelope time)
                (taken ∙ rw l (never (is_valid owner))) in
            rw (e, l, step, store, log_step, store_letter) (refl, h)
        | inr (message, l) ↦ elim (Result-cases (validate_crockford_base32_lower owner)) [
          | inl (x, v) ↦
              let m = message time in
              let e = accepted (accept uuid owner token envelope time) m (taken ∙ rw (l, v) refl) in
              let found =
                ap (λ b. get b m.message_id) (h owner)
                ∙ get-entries (mine owner log) m.message_id in
              rw (e, l, v, step, store, log_step, store_letter)
                (
                  ap (λ f. stored (to_option (or_found f m))) found
                      ∙ stored_answer (find m.message_id (mine owner log)) m,
                  keep-IsLogOf log messages owner m h,
                )
          | inr (x, v) ↦
              let (y, e) = refused (accept uuid owner token envelope time) (taken ∙ rw v refl) in
              rw (e, l, v, step, store, log_step, store_letter) (refl, h)
        ]
      ]

  fan_out-Refines :
      (log : Log) (messages : MailboxStore) (members : List (Bytes × Bytes))
      (sender envelope : Bytes)
      → IsLogOf log messages
      → Refines log messages (stores_group members sender envelope)
  unfolding step log_step store_group_message fan_out_letter
  fan_out-Refines log messages members sender envelope h =
      elim (Result-cases (accept_group uuid sender envelope)) [
        | inl (message, e) ↦
            let l = sym (accept_group-letter uuid sender envelope) ∙ ap to_option e in
            let (same, later) = fan_out-append_each message members [] log messages h in
            rw (e, l, step, store_group_message, log_step, fan_out_letter)
              (ap fanned_out same, later)
        | inr (x, e) ↦
            let l = sym (accept_group-letter uuid sender envelope) ∙ ap to_option e in
            rw (e, l, step, store_group_message, log_step, fan_out_letter) (refl, h)
      ]

  delete-Refines :
      (log : Log) (messages : MailboxStore) (owner : Bytes) (ids : List Bytes)
      → IsLogOf log messages
      → Refines log messages (deletes owner ids)
  unfolding step log_step delete
  delete-Refines log messages owner ids h =
      elim (Result-cases (validate_crockford_base32_lower owner)) [
        | inl (x, e) ↦
            let counts_same =
              (delete_loop-entries owner ids (inbox_of messages owner) log 0 (h owner)).0 in
            elim (Option-cases (get messages owner)) [
              | inl none_there ↦
                  let empty = inbox_of-none messages owner none_there in
                  let zero_there =
                    ap (λ (x : Inbox × ℕ). x.1) (sym (delete_loop_empty ids 0))
                    ∙ (ap (λ b. (delete_loop ids b 0).1) (sym empty) ∙ counts_same) in
                  rw (e, step, delete, log_step)
                    (rw (none_there, delete)
                      (
                        ap (λ n. deleted (some n)) zero_there,
                        drop_all_empty owner ids messages log h empty,
                      ))
              | inr (inbox, there) ↦
                  let here = inbox_of-some messages owner inbox there in
                  rw (e, step, delete, log_step)
                    (rw (there, delete)
                      (
                        ap (λ b. deleted (some (delete_loop ids b 0).1)) (sym here)
                            ∙ ap (λ n. deleted (some n)) counts_same,
                        subst
                            (λ b.
                              IsLogOf (drop_all owner ids log 0).1
                                (insert messages owner (delete_loop ids b 0).0))
                            here (delete-IsLogOf owner ids messages log h),
                      ))
            ]
        | inr (x, e) ↦ rw (e, step, delete, log_step) (refl, h)
      ]

  -- the messages of an owner are those of the list
  read_lem :
      (log : Log) (messages : MailboxStore) (owner : Bytes)
      → IsLogOf log messages
      → values (inbox_of messages owner) ≡ mine owner log
  read_lem log messages owner h = ap values (h owner) ∙ values-entries (mine owner log)

  retrieve-Refines :
      (log : Log) (messages : MailboxStore) (owner : Bytes)
      → IsLogOf log messages
      → Refines log messages (retrieves owner)
  unfolding step log_step retrieve
  retrieve-Refines log messages owner h =
      elim (Result-cases (validate_crockford_base32_lower owner)) [
        | inl (x, v) ↦
            rw (v, step, retrieve, log_step)
              (rw (read_lem log messages owner h, sort_by-by_time (mine owner log)) refl, h)
        | inr (x, v) ↦ rw (v, step, retrieve, log_step) (refl, h)
      ]

  retrieve_by_sender-Refines :
      (log : Log) (messages : MailboxStore) (owner sender : Bytes)
      → IsLogOf log messages
      → Refines log messages (retrieves_from owner sender)
  unfolding step log_step retrieve_by_sender
  retrieve_by_sender-Refines log messages owner sender h =
      elim (Result-cases (validate_crockford_base32_lower owner)) [
        | inl (x, v) ↦ elim (Result-cases (validate_crockford_base32_lower sender)) [
          | inl (y, w) ↦
              rw (v, w, step, retrieve_by_sender, log_step)
                (
                  rw (read_lem log messages owner h) (
                      ap (λ ms. retrieved (some ms))
                        (sort_by-by_time (
                          retain (λ (m : StoredMessage). m.sender_iid == sender)
                            (mine owner log)))),
                  h,
                )
          | inr (y, w) ↦ rw (v, w, step, retrieve_by_sender, log_step) (refl, h)
        ]
        | inr (x, v) ↦ rw (v, step, retrieve_by_sender, log_step) (refl, h)
      ]

  get_senders-Refines :
      (log : Log) (messages : MailboxStore) (owner : Bytes)
      → IsLogOf log messages
      → Refines log messages (lists_senders owner)
  unfolding step log_step get_senders
  get_senders-Refines log messages owner h =
      elim (Result-cases (validate_crockford_base32_lower owner)) [
        | inl (x, v) ↦
            rw (v, step, get_senders, log_step)
              (rw (read_lem log messages owner h, unseen-distinct (mine owner log)) refl, h)
        | inr (x, v) ↦ rw (v, step, get_senders, log_step) (refl, h)
      ]

  get_inbox_stats-Refines :
      (log : Log) (messages : MailboxStore) (owner : Bytes)
      → IsLogOf log messages
      → Refines log messages (counts owner)
  unfolding step log_step get_inbox_stats
  get_inbox_stats-Refines log messages owner h =
      elim (Result-cases (validate_crockford_base32_lower owner)) [
        | inl (x, v) ↦
            rw (v, step, get_inbox_stats, log_step)
              (
                rw
                    (
                      h owner,
                      values-entries (mine owner log),
                      length-entries (mine owner log),
                      total-sum (mine owner log),
                      unseen-distinct (mine owner log),
                    )
                    refl,
                h,
              )
        | inr (x, v) ↦ rw (v, step, get_inbox_stats, log_step) (refl, h)
      ]

  step-Refines :
      (log : Log) (messages : MailboxStore) (c : Call)
      → IsLogOf log messages
      → Refines log messages c
  step-Refines log messages (stores owner token envelope time) h =
      store-Refines log messages owner token envelope time h
  step-Refines log messages (stores_group members sender envelope) h =
      fan_out-Refines log messages members sender envelope h
  step-Refines log messages (deletes owner ids) h = delete-Refines log messages owner ids h
  step-Refines log messages (retrieves owner) h = retrieve-Refines log messages owner h
  step-Refines log messages (retrieves_from owner sender) h =
      retrieve_by_sender-Refines log messages owner sender h
  step-Refines log messages (lists_senders owner) h = get_senders-Refines log messages owner h
  step-Refines log messages (counts owner) h = get_inbox_stats-Refines log messages owner h

  -- Any sequence of calls of the methods of the store, those that read included, gets the answers,
  -- but for which error it is, and leaves the messages, of one list of letters with their owners in
  -- the order in which they came. A letter is an envelope of at most 1 MiB that is decoded and names
  -- its sender; the first by a name stays, and an inbox is read by time and then by identifier.
  pub run-log :
      (cs : List Call) (log : Log) (messages : MailboxStore)
      → IsLogOf log messages
      → ((run messages cs).0 ≡ (log_run log cs).0) × IsLogOf (log_run log cs).1 (run messages cs).1
  unfolding run log_run
  run-log [] log messages h = (refl, h)
  run-log (c ∷ cs) log messages h =
      let (same, later) = step-Refines log messages c h in
      let (rest, last) = run-log cs _ _ later in (rw (same, rest) refl, last)
