-- ===== src/Network/Hosts/Patterns.antt =====
-- What a domain pattern and a grant of a capability match.
use post_urbit.Prelude.{
  ℕ, Bytes, true, false, ◌&&◌, ◌-◌, ◌+◌, ◌≡◌, ◌≢◌, ◌↔◌, refl, sym, ap, ◌∙◌, arith, some, [], ◌∷◌,
  ◌++◌, ◌==◌, nat_eq, list_eq, if◌then◌else◌, length, drop, take, map, starts_with, ascii,
  list_beq_iff, take-drop, length-append, drop_exact, All, nat_beq_iff,
}
use post_urbit.Mailbox.Urls.{to_lower}
use post_urbit.Network.Hosts.{
  matches_domain_pattern, ends_with, split_once, scheme_allowed, matches_capability,
}

ends_with_parts :
    (text suffix : Bytes)
    → ends_with text suffix ≡ true
    → (label : Bytes) × (text ≡ label ++ suffix)
unfolding ends_with
ends_with_parts text suffix h =
    let n = length text - length suffix in
    (
      take n text,
      sym (take-drop n text)
          ∙ ap (λ l. take n text ++ l) (ground (arith, h, list_beq_iff (drop n text) suffix)),
    )

minus : (n m : ℕ) → n + m - m ≡ n
minus n m = omega arith

ends_with-append : (label suffix : Bytes) → ends_with (label ++ suffix) suffix ≡ true
unfolding ends_with
ends_with-append label suffix =
    rw
      (
        length-append label suffix,
        minus (length label) (length suffix),
        drop_exact (length label) label suffix refl,
      )
      (ground (arith, list_beq_iff suffix suffix))

longer : (label rest : Bytes) → (label ++ (b'.' ∷ rest)) ≢ rest
longer label rest h = omega (arith, ap length h, length-append label (b'.' ∷ rest))

starred : (rest : Bytes) → map to_lower (b'*' ∷ b'.' ∷ rest) ≡ b'*' ∷ b'.' ∷ map to_lower rest
unfolding to_lower
starred rest = refl

matches_starred :
    (rest host : Bytes)
    → matches_domain_pattern (b'*' ∷ b'.' ∷ rest) host ≡ (
        if map to_lower host == map to_lower rest
        then false
        else ends_with (map to_lower host) (b'.' ∷ map to_lower rest))
unfolding matches_domain_pattern starts_with to_lower
matches_starred rest host = refl

-- A pattern `*.rest` matches exactly the names that end, without regard to case, in a dot and
-- `rest`: the name `rest` itself is not among them.
pub matches_domain_pattern-wildcard :
    (rest host : Bytes)
    → (matches_domain_pattern (b'*' ∷ b'.' ∷ rest) host ≡ true)
      ↔ ((label : Bytes) × (map to_lower host ≡ label ++ (b'.' ∷ map to_lower rest)))
matches_domain_pattern-wildcard rest host =
    let name = map to_lower host in
    let last = map to_lower rest in
    (
      λ h. ends_with_parts name (b'.' ∷ last) (ground (arith, sym (matches_starred rest host) ∙ h)),
      λ (label, e).
          matches_starred rest host
          ∙ rw e (
              ground (
                arith,
                list_beq_iff (label ++ (b'.' ∷ last)) last,
                longer label last,
                ends_with-append label (b'.' ∷ last),
              )),
    )

split_once-append :
    (sep : ℕ) (before behind : Bytes)
    → All (λ c. c ≢ sep) before
    → split_once sep (before ++ (sep ∷ behind)) ≡ (before, some behind)
unfolding split_once
split_once-append sep [] behind h = ground (arith, nat_beq_iff sep sep)
split_once-append sep (c ∷ before) behind h =
    rw (split_once-append sep before behind h.1) (ground (arith, nat_beq_iff c sep, h.0))

-- A grant `network:protocol:pattern`, whose protocol has no colon, covers a request exactly if the
-- protocol covers its scheme and the pattern its host.
pub matches_capability-grant :
    (protocol pattern scheme host : Bytes)
    → All (λ c. c ≢ b':') protocol
    → matches_capability (ascii "network:" ++ (protocol ++ (b':' ∷ pattern))) scheme host
      ≡ (scheme_allowed protocol scheme && matches_domain_pattern pattern host)
unfolding matches_capability ascii starts_with split_once
matches_capability-grant protocol pattern scheme host h =
    rw (split_once-append b':' protocol pattern h) (ground arith)
