-- ===== src/Tests/Convergence.antt =====
-- A store of two operations, the second of which depends on the first, and an empty one.
use post_urbit.Prelude.{
  ℕ, zero, suc, Bytes, Bool, true, false, List, [], ◌∷◌, ◌≡◌, refl, sym, ◌∙◌, ap, ok, some, ◌⊎◌,
  inl, inr, contains, get_or, nat_eq, list_eq, ◌==◌, if◌then◌else◌, take, Bool-cases, list_beq_iff,
  arith, is_gt, subst,
}
use post_urbit.Prelude.Dict
use post_urbit.Sync.{SyncOperationRecord, SyncStore, SyncAccept, Outside, compare_operations, offer}
use post_urbit.Sync.Closure.{IsClosed, Holds}
use post_urbit.Sync.Order.Dependencies.{IsLater}
use post_urbit.Sync.Session.{
  SyncSession, SyncOperations, SyncAck, handle_offer, handle_accept, handle_operations,
}
use post_urbit.Sync.Convergence.{IsSendable, round-Holds}
use post_urbit.Tests.Toys.{zeros, toy_ed25519}

-- the identifier tells the operation
abbrev operation_of : Bytes → SyncOperationRecord
operation_of id = record {
  id = id;
  origin = zeros 20;
  document_id = zeros 32;
  physical_ms = get_or id 0 0;
  logical = 0;
  operation = [];
  dependencies = if get_or id 0 0 == 1 then zeros 32 ∷ [] else [];
  signature = zeros 64;
}

abbrev outside : Outside
outside = record {
  sha256 = λ message. take 32 message;
  ed25519 = toy_ed25519;
  encode_record = λ r. ok r.id;
  decode_record = λ bytes. ok (operation_of bytes);
}

abbrev base : SyncOperationRecord
base = operation_of (zeros 32)

abbrev later : SyncOperationRecord
later = operation_of (1 ∷ zeros 31)

abbrev both : SyncStore
both = (1 ∷ zeros 31, later) ∷ (zeros 32, base) ∷ []

abbrev a : SyncSession
a = record { document_id = zeros 32; store = both }

abbrev b : SyncSession
b = record { document_id = zeros 32; store = [] }

both_cases :
    (id : Bytes) (r : SyncOperationRecord)
    → Dict.get both id ≡ some r
    → ((id ≡ 1 ∷ zeros 31) × (r ≡ later)) ⊎ ((id ≡ zeros 32) × (r ≡ base))
unfolding Dict.get
both_cases id r h = elim (Bool-cases ((1 ∷ zeros 31) == id)) [
  | inl e ↦ inl (sym ((list_beq_iff (1 ∷ zeros 31) id).0 e), let found = rw e at h in cc)
  | inr e ↦ elim (Bool-cases (zeros 32 == id)) [
    | inl f ↦ inr (sym ((list_beq_iff (zeros 32) id).0 f), let found = rw f at (rw e at h) in cc)
    | inr f ↦ let found = rw f at (rw e at h) in cc
  ]
]

has_base : Holds both (zeros 32)
unfolding Dict.get post_urbit.Prelude.list_beq
has_base = refl

later_above : is_gt (compare_operations later base) ≡ true
later_above = refl

nothing : {P : Type 0} (d : Bytes) → contains base.dependencies d ≡ true → P
unfolding contains
nothing d h = cc

not_own : {P : Type 0} (d : Bytes) → d ≡ 1 ∷ zeros 31 → contains later.dependencies d ≡ true → P
unfolding contains post_urbit.Prelude.list_beq
not_own d e h =
    let own : contains later.dependencies (1 ∷ zeros 31) ≡ true =
      subst (λ x. contains later.dependencies x ≡ true) e h in
    absurd (let bad : false ≡ true = own in cc)

later-IsSendable : IsSendable outside (zeros 32 ∷ []) both later
unfolding Dict.get post_urbit.Prelude.list_beq post_urbit.Sync.verify_sync_operation
later-IsSendable = record {
  id_long = refl;
  stored = refl;
  verified = refl;
  bytes = 1 ∷ zeros 31;
  written = refl;
  read = refl;
}

base-IsSendable : IsSendable outside (zeros 32 ∷ []) both base
unfolding Dict.get post_urbit.Prelude.list_beq post_urbit.Sync.verify_sync_operation
base-IsSendable = record {
  id_long = refl;
  stored = refl;
  verified = refl;
  bytes = zeros 32;
  written = refl;
  read = refl;
}

both-IsDistinct : Dict.IsDistinct both
unfolding Dict.get post_urbit.Prelude.list_beq
both-IsDistinct = (refl, (refl, tt))

both-IsClosed : IsClosed both
both-IsClosed = record {
  keyed = λ id r h. elim (both_cases id r h) [
    | inl (e, f) ↦ ap (λ (x : SyncOperationRecord). x.id) f ∙ sym e
    | inr (e, f) ↦ ap (λ (x : SyncOperationRecord). x.id) f ∙ sym e
  ];
  closed = λ id r h. elim (both_cases id r h) [
    | inl (e, f) ↦ rw f (has_base, tt)
    | inr (e, f) ↦ rw f tt
  ];
}

both-IsLater : IsLater both
both-IsLater id d r x h k g = elim (both_cases id r h) [
  | inl (e, f) ↦ elim (both_cases d x g) [
    | inl (e2, f2) ↦ not_own d e2 (rw f at k)
    | inr (e2, f2) ↦ rw (f, f2) later_above
  ]
  | inr (e, f) ↦ nothing d (rw f at k)
]

both-IsSendable :
    (id : Bytes) (r : SyncOperationRecord)
    → Dict.get both id ≡ some r
    → IsSendable outside (zeros 32 ∷ []) both r
both-IsSendable id r h = elim (both_cases id r h) [
  | inl (e, f) ↦ subst (IsSendable outside (zeros 32 ∷ []) both) (sym f) later-IsSendable
  | inr (e, f) ↦ subst (IsSendable outside (zeros 32 ∷ []) both) (sym f) base-IsSendable
]

round-Holds_example :
    (accepted : SyncAccept) × (operations : SyncOperations) × (ack : SyncAck)
    × (after : SyncSession) × (handle_offer outside (offer outside (zeros 32) both) b ≡ ok accepted)
    × (handle_accept outside accepted a ≡ ok operations)
    × (handle_operations outside operations (zeros 32 ∷ []) b ≡ (ok ack, after))
    × ((id : Bytes) → Holds both id ⊎ Holds [] id → Holds after.store id)
round-Holds_example =
    round-Holds outside (zeros 32 ∷ []) a b refl both-IsDistinct both-IsClosed both-IsLater
      both-IsSendable
