-- ===== src/Network/Requests/Bodies.antt =====
-- What is read of a response.
use post_urbit.Prelude.{
  ℕ, Bytes, ◌+◌, ◌^◌, ◌-◌, ◌≤◌, ◌<◌, ◌≡◌, refl, sym, ap, ◌∙◌, arith, Option, none, some, List, [],
  ◌∷◌, ◌++◌, append_assoc, append-nil, ltb, length, length-append, Bool-cases, Option-cases, inl,
  inr, subst, ◌↔◌,
}
use post_urbit.Network.Errors.{ok}
use post_urbit.Network.Limits.{saturating_add}
use post_urbit.Network.Requests.{read_loop, read_response}

-- the bytes up to the first empty piece; nothing where the reader fails before it
abbrev pub whole : List (Option Bytes) → Option Bytes
whole [] = some []
whole (none ∷ pieces) = none
whole (some [] ∷ pieces) = some []
whole (some (c ∷ piece) ∷ pieces) = elim (whole pieces) [
  | none ↦ none
  | some rest ↦ some ((c ∷ piece) ++ rest)
]

longer :
    (body piece : Bytes) (total : ℕ)
    → total ≡ length body
    → total + length piece ≡ length (body ++ piece)
longer body piece total e = omega (arith, length-append body piece)

read_loop-parts :
    (max_bytes total : ℕ) (body : Bytes) (pieces : List (Option Bytes)) (result : Bytes)
    → max_bytes < 2 ^ 64 - 1
    → total ≡ length body
    → total ≤ max_bytes
    → read_loop max_bytes total body pieces ≡ ok result
    → (rest : Bytes) × (whole pieces ≡ some rest)
      × (result ≡ body ++ rest)
      × (length result ≤ max_bytes)
unfolding read_loop
read_loop-parts max_bytes total body [] result k e l h =
    let same : body ≡ result = ground (arith, h) in
    (
      [],
      refl,
      sym same ∙ sym (append-nil body),
      subst (λ r. length r ≤ max_bytes) same (omega arith),
    )
read_loop-parts max_bytes total body (none ∷ pieces) result k e l h = cc
read_loop-parts max_bytes total body (some [] ∷ pieces) result k e l h =
    let same : body ≡ result = ground (arith, h) in
    (
      [],
      refl,
      sym same ∙ sym (append-nil body),
      subst (λ r. length r ≤ max_bytes) same (omega arith),
    )
read_loop-parts max_bytes total body (some (c ∷ piece) ∷ pieces) result k e l h =
    let more = saturating_add total (length (c ∷ piece)) in
    elim (Bool-cases (ltb max_bytes more)) [
      | inl b ↦ ground (arith, h, b)
      | inr b ↦
          let (rest, p, q, r) =
            read_loop-parts max_bytes more (body ++ (c ∷ piece)) pieces result k
              (ground (arith, b, longer body (c ∷ piece) total e)) (ground (arith, b))
              (ground (arith, h, b)) in
          ((c ∷ piece) ++ rest, rw p refl, q ∙ append_assoc body (c ∷ piece) rest, r)
    ]

read_loop-whole :
    (max_bytes total : ℕ) (body : Bytes) (pieces : List (Option Bytes)) (rest : Bytes)
    → max_bytes < 2 ^ 64 - 1
    → total ≡ length body
    → whole pieces ≡ some rest
    → length (body ++ rest) ≤ max_bytes
    → read_loop max_bytes total body pieces ≡ ok (body ++ rest)
unfolding read_loop
read_loop-whole max_bytes total body [] rest k e h l = ground (arith, append-nil body)
read_loop-whole max_bytes total body (none ∷ pieces) rest k e h l = cc
read_loop-whole max_bytes total body (some [] ∷ pieces) rest k e h l =
    ground (arith, append-nil body)
read_loop-whole max_bytes total body (some (c ∷ piece) ∷ pieces) rest k e h l =
    elim (Option-cases (whole pieces)) [
      | inl b ↦ cc
      | inr (tail, b) ↦
          let same : (c ∷ piece) ++ tail ≡ rest = ground (arith, h, b) in
          let fits : length (body ++ (c ∷ piece) ++ tail) ≤ max_bytes =
            rw (append_assoc body (c ∷ piece) tail, same) l in
          let more = saturating_add total (length (c ∷ piece)) in
          let small : more ≡ total + length (c ∷ piece) =
            omega
              (arith, longer body (c ∷ piece) total e, length-append (body ++ (c ∷ piece)) tail) in
          let ih =
            read_loop-whole max_bytes more (body ++ (c ∷ piece)) pieces tail k
              (small ∙ longer body (c ∷ piece) total e) b fits in
          ground (
            arith,
            ih,
            small,
            same,
            append_assoc body (c ∷ piece) tail,
            longer body (c ∷ piece) total e,
            length-append (body ++ (c ∷ piece)) tail,
          )
    ]

-- A response is read, with a limit below the largest number of 64 bits, exactly if the reader gives
-- all of its bytes and they are not more than the limit; and then those bytes are the body.
pub read_response-ok :
    (pieces : List (Option Bytes)) (max_bytes : ℕ) (body : Bytes)
    → max_bytes < 2 ^ 64 - 1
    → (read_response pieces max_bytes ≡ ok body)
      ↔ ((whole pieces ≡ some body) × (length body ≤ max_bytes))
unfolding read_response
read_response-ok pieces max_bytes body k = (
  λ h.
      let (rest, p, q, r) = read_loop-parts max_bytes 0 [] pieces body k refl (omega arith) h in
      (p ∙ ap some (sym q), r),
  λ (h, l). read_loop-whole max_bytes 0 [] pieces body k refl h l,
)
