-- ===== src/Transport/Glare.antt =====
-- transport.rs: `ConnectionTracker`, which keeps one connection to each peer when both connect at
-- the same time. The instant at which a connection is established is an argument.
use post_urbit.Prelude.{
  ℕ, Bytes, Bool, true, false, not, ◌≡◌, ◌≢◌, refl, ◌∙◌, arith, Option, none, some, nat_eq, list_eq,
  option_eq, pair_eq, if◌then◌else◌, is_lt, compare_bytes, compare_bytes_eq, compare_bytes-swap,
  ◌==◌, list_beq_iff, Option-cases, inl, inr, pair_beq_iff,
}
use post_urbit.Prelude.Dict
use post_urbit.Prelude.Dict.{Dict}

pub record ConnectionInfo : Type 0 where
  pub we_initiated : Bool
  pub established_at : ℕ

-- an identity and perhaps a device
abbrev pub Peer : Type 0
Peer = Bytes × Option Bytes

abbrev pub ConnectionTracker : Type 0
ConnectionTracker = Dict Peer ConnectionInfo

unfoldable pub register : Peer → Bool → ℕ → ConnectionTracker → Bool × ConnectionTracker
register key we_initiated now active = if Dict.contains_key active key then (false, active) else (
  true,
  Dict.insert active key (record { we_initiated = we_initiated; established_at = now }),
)

unfoldable pub remove : Peer → ConnectionTracker → ConnectionTracker
remove key active = Dict.remove active key

unfoldable pub has_connection : Peer → ConnectionTracker → Bool
has_connection key active = Dict.contains_key active key

unfoldable pub get_connection : Peer → ConnectionTracker → Option ConnectionInfo
get_connection key active = Dict.get active key

unfoldable pub less_did : Option Bytes → Option Bytes → Bool
less_did none none = false
less_did none (some b) = true
less_did (some a) none = false
less_did (some a) (some b) = is_lt (compare_bytes a b)

unfoldable pub tuple_less_than : Peer → Peer → Bool
unfolding less_did
tuple_less_than (a_iid, a_did) (b_iid, b_did) =
    if a_iid == b_iid then less_did a_did b_did else is_lt (compare_bytes a_iid b_iid)

unfoldable pub resolve_glare : Peer → Peer → ConnectionTracker → Bool × ConnectionTracker
unfolding tuple_less_than
resolve_glare local peer active = elim (Dict.get active peer) [
  | none ↦ (true, active)
  | some existing ↦
      let local_is_smaller = tuple_less_than local peer in
      if existing.we_initiated
      then (if local_is_smaller then (false, active) else (true, Dict.remove active peer))
      else (if local_is_smaller then (true, Dict.remove active peer) else (false, active))
]

-- Whether the connection that is left is the one that this side initiated: `keep` is the answer for
-- the second connection, which the other side initiated if this side initiated the first.
abbrev pub keeps_ours : ConnectionInfo → Bool → Bool
keeps_ours existing keep = if keep then not existing.we_initiated else existing.we_initiated

resolve_glare-keeps :
    (local peer : Peer) (active : ConnectionTracker) (existing : ConnectionInfo)
    → Dict.get active peer ≡ some existing
    → keeps_ours existing (resolve_glare local peer active).0 ≡ tuple_less_than local peer
unfolding resolve_glare
resolve_glare-keeps local peer active existing h = rw (h, resolve_glare) (ground arith)

less_did-not : (a b : Option Bytes) → a ≢ b → less_did b a ≡ not (less_did a b)
unfolding less_did
less_did-not none none h = absurd (h refl)
less_did-not none (some b) h = refl
less_did-not (some a) none h = refl
less_did-not (some a) (some b) h = ground (arith, compare_bytes-swap a b, compare_bytes_eq a b, h)

-- the order of two different peers is that of exactly one side
pub tuple_less_than-not : (a b : Peer) → a ≢ b → tuple_less_than b a ≡ not (tuple_less_than a b)
unfolding tuple_less_than
tuple_less_than-not (ai, ad) (bi, bd) h = ground (
  arith,
  list_beq_iff ai bi,
  list_beq_iff bi ai,
  compare_bytes-swap ai bi,
  compare_bytes_eq ai bi,
  less_did-not ad bd,
  h,
)

-- Two different peers that each have a connection to the other in their trackers, whichever of the
-- two that were opened at the same time, agree on the one that is left: it is the one that the
-- smaller of them initiated.
pub resolve_glare_agrees :
    (a b : Peer) (at_a at_b : ConnectionTracker) (first_at_a first_at_b : ConnectionInfo)
    → a ≢ b
    → Dict.get at_a b ≡ some first_at_a
    → Dict.get at_b a ≡ some first_at_b
    → (keeps_ours first_at_a (resolve_glare a b at_a).0 ≡ tuple_less_than a b)
      × (keeps_ours first_at_b (resolve_glare b a at_b).0 ≡ not (tuple_less_than a b))
resolve_glare_agrees a b at_a at_b first_at_a first_at_b h p q = (
  resolve_glare-keeps a b at_a first_at_a p,
  resolve_glare-keeps b a at_b first_at_b q ∙ tuple_less_than-not a b h,
)

-- The tracker takes the second connection afterwards exactly if it is the one that is kept.
pub register-resolve_glare :
    (local peer : Peer) (active : ConnectionTracker) (we_initiated : Bool) (now : ℕ)
    → (register peer we_initiated now (resolve_glare local peer active).1).0
      ≡ (resolve_glare local peer active).0
unfolding register resolve_glare
register-resolve_glare local peer active we_initiated now =
    elim (Option-cases (Dict.get active peer)) [
      | inl e ↦ rw (e, resolve_glare) (ground (arith, e))
      | inr (existing, e) ↦
          rw (e, resolve_glare)
            (ground (arith, e, Dict.get-remove active peer peer, pair_beq_iff peer peer))
    ]
