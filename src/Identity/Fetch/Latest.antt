-- ===== src/Identity/Fetch/Latest.antt =====
-- identity.rs: which of the documents in the table `fetch_identity` gives.
use post_urbit.Prelude.{
  ℕ, Bytes, not, ◌&&◌, ◌≤◌, ◌≡◌, ◌⊎◌, refl, sym, ap, ◌∙◌, subst, arith, Option, none, some, List,
  [], ◌∷◌, ◌++◌, ◌==◌, nat_eq, list_eq, Result, ok, err, ◌>>=◌, >>=-eq-ok, All, ltb, Bool-cases,
  Result-cases, inl, inr, passed,
}
use post_urbit.Encoding.{validate_crockford_base32_lower}
use post_urbit.Dht.{dht_key_identity, dht_key_genesis, dht_key_revocation}
use post_urbit.Identity.Documents.{Outside, IdentityDocument, parse_sequence, verify_document}
use post_urbit.Identity.Envelope.{decode_idoc_envelope}
use post_urbit.Identity.Revocations.{Formats}
use post_urbit.Identity.Fetch.{
  Best, best_of, fits_genesis, candidate, compare_best, choose_best, verified_genesis,
  with_revocations, fetch_identity, choose_identity, fetch_revocations, choose_revocation,
  apply_revocation,
}

-- a value that passes the tests has at most this sequence
abbrev pub IsBelow : ℕ → Result (IdentityDocument × ℕ) → Type 0
IsBelow limit (err e) = Unit
IsBelow limit (ok found) = found.1 ≤ limit

IsBelow-mono : (a b : ℕ) (r : Result (IdentityDocument × ℕ)) → a ≤ b → IsBelow a r → IsBelow b r
IsBelow-mono a b (err e) h k = tt
IsBelow-mono a b (ok found) h k = omega arith

abbrev StartsBelow : Option Best → Best → Type 0
StartsBelow none b = Unit
StartsBelow (some start) b = start.best_seq ≤ b.best_seq

-- one turn of the loop takes the value, or keeps the best
compare_best-parts :
    (value : Bytes) (found : IdentityDocument × ℕ) (start more : Option Best)
    → compare_best value found start ≡ ok more
    → (after : Best) × (more ≡ some after)
      × (found.1 ≤ after.best_seq)
      × StartsBelow start after
      × ((after ≡ best_of value found) ⊎ (start ≡ some after))
unfolding compare_best
compare_best-parts value (doc, seq) none more h =
    (best_of value (doc, seq), ground (arith, h), omega arith, tt, inl refl)
compare_best-parts value (doc, seq) (some best) more h = elim (Bool-cases (ltb best.best_seq seq)) [
  | inl e ↦
      (best_of value (doc, seq), ground (arith, h, e), omega arith, ground (arith, e), inl refl)
  | inr e ↦ elim (Bool-cases (seq == best.best_seq && not (best.best_raw == value))) [
    | inl b ↦ ground (arith, h, e, b)
    | inr b ↦ (best, ground (arith, h, e, b), ground (arith, e), omega arith, inr refl)
  ]
]

nonempty :
    (values : List Bytes) (next : List Bytes → Result (Option IdentityDocument))
    (doc : IdentityDocument)
    → elim values [ [] ↦ ok none | value ∷ rest ↦ next (value ∷ rest) ] ≡ ok (some doc)
    → next values ≡ ok (some doc)
nonempty [] next doc h = cc
nonempty (value ∷ rest) next doc h = h

StartsBelow-trans :
    (start : Option Best) (after b : Best)
    → StartsBelow start after
    → after.best_seq ≤ b.best_seq
    → StartsBelow start b
StartsBelow-trans none after b h k = tt
StartsBelow-trans (some start) after b h k = omega arith

module _ (o : Outside) where
  -- the best document is that of a value which passes the tests
  abbrev pub IsFound : Option IdentityDocument → List Bytes → Best → Type 0
  IsFound genesis values b =
      (before : List Bytes) × (behind : List Bytes) × (values ≡ before ++ (b.best_raw ∷ behind))
      × (candidate o genesis b.best_raw ≡ ok (b.best, b.best_seq))

  IsFound-later :
      (genesis : Option IdentityDocument) (value : Bytes) (values : List Bytes) (b : Best)
      → IsFound genesis values b
      → IsFound genesis (value ∷ values) b
  IsFound-later genesis value values b (before, behind, p, q) =
      (value ∷ before, behind, ap (λ l. value ∷ l) p, q)

  IsFound-here :
      (genesis : Option IdentityDocument) (value : Bytes) (values : List Bytes)
      (found : IdentityDocument × ℕ) (b : Best)
      → candidate o genesis value ≡ ok found
      → b ≡ best_of value found
      → IsFound genesis (value ∷ values) b
  IsFound-here genesis value values (doc, seq) b e h = rw h ([], values, refl, e)

  -- all that pass the tests are below the best, which is one of them or the one at the start
  choose_best-latest :
      (genesis : Option IdentityDocument) (values : List Bytes) (start : Option Best) (b : Best)
      → choose_best o genesis values start ≡ ok (some b)
      → All (λ value. IsBelow b.best_seq (candidate o genesis value)) values
        × StartsBelow start b
        × (IsFound genesis values b ⊎ (start ≡ some b))
  unfolding choose_best
  choose_best-latest genesis [] start b h =
      let same : start ≡ some b = ground (arith, h) in (tt, rw same (omega arith), inr same)
  choose_best-latest genesis (value ∷ values) start b h =
      elim (Result-cases (candidate o genesis value)) [
        | inr (x, e) ↦
            let rest : choose_best o genesis values start ≡ ok (some b) =
              subst
                (λ r.
                  (elim r [ err y ↦ ok start | ok found ↦ compare_best value found start ]
                    >>= λ more. choose_best o genesis values more)
                  ≡ ok (some b))
                e h in
            let (below, starts, found) = choose_best-latest genesis values start b rest in
            (
              (rw e tt, below),
              starts,
              elim found [ inl f ↦ inl (IsFound-later genesis value values b f) | inr f ↦ inr f ],
            )
        | inl (found, e) ↦
            let (more, one, rest) = >>=-eq-ok (compare_best value found start) _ (
              subst
                (λ r.
                  (elim r [ err y ↦ ok start | ok found ↦ compare_best value found start ]
                    >>= λ more. choose_best o genesis values more)
                  ≡ ok (some b))
                e h) in
            let (after, same, low, starts, who) = compare_best-parts value found start more one in
            let (below, up, from) = choose_best-latest genesis values more b rest in
            let rises : after.best_seq ≤ b.best_seq = subst (λ m. StartsBelow m b) same up in
            (
              (rw e (omega (arith, low, rises)), below),
              StartsBelow-trans start after b starts rises,
              elim from [
                | inl f ↦ inl (IsFound-later genesis value values b f)
                | inr f ↦
                    let here : after ≡ b = ground (arith, f, same) in
                    elim who [
                      | inl w ↦ inl (IsFound-here genesis value values found b e (sym here ∙ w))
                      | inr w ↦ inr (w ∙ ap some here)
                    ]
              ],
            )
      ]

  candidate-verified :
      (genesis : Option IdentityDocument) (value : Bytes) (doc : IdentityDocument) (seq : ℕ)
      → candidate o genesis value ≡ ok (doc, seq)
      → (decode_idoc_envelope o value ≡ ok doc)
        × (verify_document o doc ≡ ok tt)
        × (parse_sequence doc.sequence ≡ ok seq)
  unfolding candidate
  candidate-verified genesis value doc seq h =
      let (d, a, h1) = >>=-eq-ok (decode_idoc_envelope o value) _ h in
      let (t, b, h2) = >>=-eq-ok (verify_document o d) _ h1 in
      let (c, h3) = passed (fits_genesis genesis d) "hijack" _ h2 in
      let (n, p, h4) = >>=-eq-ok (parse_sequence d.sequence) _ h3 in
      let same : d ≡ doc = ground (arith, h4) in
      let number : n ≡ seq = ground (arith, h4) in
      (
        a ∙ ap ok same,
        subst (λ x. verify_document o x ≡ ok tt) same b,
        subst (λ x. parse_sequence x.sequence ≡ ok seq) same (p ∙ ap ok number),
      )

  only_candidate :
      (value : Bytes) (doc : IdentityDocument) (seq : ℕ)
      → decode_idoc_envelope o value ≡ ok doc
      → verify_document o doc ≡ ok tt
      → parse_sequence doc.sequence ≡ ok seq
      → candidate o none value ≡ ok (doc, seq)
  unfolding candidate
  only_candidate value doc seq d c p = rw (d, c, p) refl

  only_best :
      (value : Bytes) (doc : IdentityDocument) (seq : ℕ)
      → decode_idoc_envelope o value ≡ ok doc
      → verify_document o doc ≡ ok tt
      → parse_sequence doc.sequence ≡ ok seq
      → choose_best o none (value ∷ []) none ≡ ok (some (best_of value (doc, seq)))
  unfolding choose_best compare_best
  only_best value doc seq d c p =
      subst
        (λ r.
          (elim r [ err y ↦ ok none | ok found ↦ compare_best value found none ] >>= λ more.
          choose_best o none [] more)
          ≡ ok (some (best_of value (doc, seq))))
        (sym (only_candidate value doc seq d c p)) refl

module _ (o : Outside) (f : Formats) (get_all : Bytes → Result (List Bytes)) where
  with_revocations-none :
      (iid : Bytes) (best : Option Best) (doc : IdentityDocument)
      → get_all (dht_key_revocation o.sha256 iid) ≡ ok []
      → with_revocations o f get_all iid best ≡ ok (some doc)
      → (b : Best) × (best ≡ some b) × (b.best ≡ doc)
  unfolding with_revocations fetch_revocations choose_revocation apply_revocation
  with_revocations-none iid none doc r h = cc
  with_revocations-none iid (some b) doc r h =
      let (revocations, a, h1) = >>=-eq-ok (get_all (dht_key_revocation o.sha256 iid)) _ h in
      let none_stored : revocations ≡ [] = ground (arith, a, r) in
      let whole =
        subst
          (λ l.
            apply_revocation b.best
              (choose_revocation o f b.best.keys.signing.current (fetch_revocations o f l) none)
            ≡ ok (some doc))
          none_stored h1 in
      (b, refl, ground (arith, whole))

  chosen :
      (iid : Bytes) (values genesis_values : List Bytes) (doc : IdentityDocument)
      → get_all (dht_key_genesis o.sha256 iid) ≡ ok genesis_values
      → get_all (dht_key_revocation o.sha256 iid) ≡ ok []
      → choose_identity o f get_all iid values ≡ ok (some doc)
      → (b : Best) × (b.best ≡ doc)
        × (choose_best o (verified_genesis o iid genesis_values) values none ≡ ok (some b))
  unfolding choose_identity
  chosen iid values genesis_values doc g r h =
      let (gs, a, h1) = >>=-eq-ok (get_all (dht_key_genesis o.sha256 iid)) _ h in
      let same : gs ≡ genesis_values = ground (arith, a, g) in
      let (best, c, h2) =
        >>=-eq-ok (choose_best o (verified_genesis o iid genesis_values) values none) _ (
          subst
            (λ l.
              (choose_best o (verified_genesis o iid l) values none >>= λ best.
              with_revocations o f get_all iid best)
              ≡ ok (some doc))
            same h1) in
      let (b, p, q) = with_revocations-none iid best doc r h2 in (b, q, c ∙ ap ok p)

  -- Where no revocation is stored, the document that `fetch_identity` gives was verified, stands in
  -- the table under the key of the identity, and has the greatest sequence of all stored documents
  -- that are verified and have the genesis key of the verified genesis document, if there is one.
  pub fetch_identity-latest :
      (iid : Bytes) (values genesis_values : List Bytes) (doc : IdentityDocument)
      → get_all (dht_key_identity o.sha256 iid) ≡ ok values
      → get_all (dht_key_genesis o.sha256 iid) ≡ ok genesis_values
      → get_all (dht_key_revocation o.sha256 iid) ≡ ok []
      → fetch_identity o f get_all iid ≡ ok (some doc)
      → let genesis = verified_genesis o iid genesis_values in
        (b : Best) × (b.best ≡ doc)
        × IsFound o genesis values b
        × (verify_document o doc ≡ ok tt)
        × All (λ value. IsBelow b.best_seq (candidate o genesis value)) values
  unfolding fetch_identity
  fetch_identity-latest iid values genesis_values doc v g r h =
      let (t, i, h1) = >>=-eq-ok (validate_crockford_base32_lower iid) _ h in
      let (vs, a, h2) = >>=-eq-ok (get_all (dht_key_identity o.sha256 iid)) _ h1 in
      let same : vs ≡ values = ground (arith, a, v) in
      let genesis = verified_genesis o iid genesis_values in
      let (b, p, c) = chosen iid values genesis_values doc g r (
        subst (λ l. choose_identity o f get_all iid l ≡ ok (some doc)) same
          (nonempty vs (choose_identity o f get_all iid) doc h2)) in
      let (below, start, found) = choose_best-latest o genesis values none b c in
      let stands : IsFound o genesis values b = elim found [ inl w ↦ w | inr w ↦ cc ] in
      let (before, behind, at, passes) = stands in
      let (read, verified, sequence) =
        candidate-verified o genesis b.best_raw b.best b.best_seq passes in
      (b, p, stands, subst (λ x. verify_document o x ≡ ok tt) p verified, below)

  -- A table that holds one verified document under the key of an identity, and no genesis document
  -- and no revocation, gives that document for the identity, whatever its own identifier is.
  pub fetch_identity-other :
      (iid value : Bytes) (doc : IdentityDocument) (seq : ℕ)
      → validate_crockford_base32_lower iid ≡ ok tt
      → get_all (dht_key_identity o.sha256 iid) ≡ ok (value ∷ [])
      → get_all (dht_key_genesis o.sha256 iid) ≡ ok []
      → get_all (dht_key_revocation o.sha256 iid) ≡ ok []
      → decode_idoc_envelope o value ≡ ok doc
      → verify_document o doc ≡ ok tt
      → parse_sequence doc.sequence ≡ ok seq
      → fetch_identity o f get_all iid ≡ ok (some doc)
  unfolding fetch_identity choose_identity with_revocations verified_genesis fetch_revocations
      choose_revocation apply_revocation
  fetch_identity-other iid value doc seq i v g r d c p =
      rw (i, v, g, only_best o value doc seq d c p, r) refl
