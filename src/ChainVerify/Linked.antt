-- ===== src/ChainVerify/Linked.antt =====
-- The verifier accepts exactly the linked lists of authentic events, and reports the first break.
use loopstorm_guard.Common.{
  All-append, append_assoc, ℕ, ◌≡◌, ◌≢◌, ◌↔◌, inl, inr, refl, String, Option, none, some, List, [],
  ◌∷◌, ◌++◌, arith, if◌then◌else◌, length, str_eq, str_eq_iff, opt_str_eq, opt_str_eq_iff,
  Bool-cases, All, sym, ap, ◌∙◌,
}
use loopstorm_guard.Common.Sort.{sort_by}
use loopstorm_guard.ChainVerify.{
  ChainEvent, Reason, hash_mismatch, valid, invalid, compute_event_hash, link_reason, verify_from,
  verify_chain,
}

-- The hash that an event after the list must name.
abbrev pub last_hash : Option String → List ChainEvent → Option String
last_hash prev [] = prev
last_hash prev (e ∷ es) = last_hash (some e.hash) es

last_hash-concat :
    (prev : Option String) (es : List ChainEvent) (e : ChainEvent)
    → last_hash prev (es ++ e ∷ []) ≡ some e.hash
last_hash-concat prev [] e = refl
last_hash-concat prev (x ∷ es) e = last_hash-concat (some x.hash) es e

-- Each event names the hash of the event before it, the first one `prev`.
pub data IsLinked : Option String → List ChainEvent → Type 0 where
  end : {prev : Option String} → IsLinked prev []
  link :
      {prev : Option String} {e : ChainEvent} {es : List ChainEvent}
      → e.hash_prev ≡ prev
      → IsLinked (some e.hash) es
      → IsLinked prev (e ∷ es)

pub IsLinked-append :
    {prev : Option String} (xs ys : List ChainEvent)
    → IsLinked prev xs
    → IsLinked (last_hash prev xs) ys
    → IsLinked prev (xs ++ ys)
IsLinked-append [] ys end k = k
IsLinked-append (x ∷ xs) ys (link p h) k = link p (IsLinked-append xs ys h k)

module _ (sha256 : String → String) where
  abbrev pub IsAuthentic : ChainEvent → Type 0
  IsAuthentic e = compute_event_hash sha256 e ≡ e.hash

  verify_from_sound :
      (count n : ℕ) (prev : Option String) (es : List ChainEvent)
      → verify_from sha256 count prev es ≡ valid n
      → (n ≡ count) × All IsAuthentic es × IsLinked prev es
  unfolding verify_from
  verify_from_sound count n prev [] h = (ground arith, tt, end)
  verify_from_sound count n prev (e ∷ es) h =
      elim (Bool-cases (str_eq (compute_event_hash sha256 e) e.hash)) [
        | inr bad ↦ absurd (ground arith)
        | inl good ↦ elim (Bool-cases (opt_str_eq e.hash_prev prev)) [
          | inr bad ↦ absurd (ground arith)
          | inl linked ↦
              let (same, authentic, links) =
                verify_from_sound count n (some e.hash) es (ground arith) in
              (
                same,
                ((str_eq_iff _ _).0 good, authentic),
                link ((opt_str_eq_iff _ _).0 linked) links,
              )
        ]
      ]

  verify_from_complete :
      (count : ℕ) (prev : Option String) (es : List ChainEvent)
      → All IsAuthentic es
      → IsLinked prev es
      → verify_from sha256 count prev es ≡ valid count
  unfolding verify_from
  verify_from_complete count prev [] a end = refl
  verify_from_complete count prev (e ∷ es) (p, a) (link q h) =
      rw ((str_eq_iff _ _).1 p, (opt_str_eq_iff _ _).1 q, if◌then◌else◌)
        (verify_from_complete count (some e.hash) es a h)

  -- The verifier answers "valid" exactly when, in the order of `seq`, every event's stored hash is
  -- the hash computed for it, the first event names no previous hash, and every other event names
  -- the hash of the event before it; the count is then the number of events.
  pub verify_chain_iff :
      (es : List ChainEvent) (n : ℕ)
      → (verify_chain sha256 es ≡ valid n) ↔ (
          (n ≡ length es)
          × All IsAuthentic (sort_by (λ e. e.seq) es)
          × IsLinked none (sort_by (λ e. e.seq) es))
  unfolding verify_chain
  verify_chain_iff es n = (
    verify_from_sound (length es) n none (sort_by (λ e. e.seq) es),
    λ h. verify_from_complete (length es) none _ h.1 h.2 ∙ ap valid (sym h.0),
  )

  -- What is wrong with the event after the hash `prev`.
  pub data IsBroken (prev : Option String) (e : ChainEvent) : Reason → Type 0 where
    altered :
        compute_event_hash sha256 e ≢ e.hash
        → IsBroken prev e (hash_mismatch (compute_event_hash sha256 e) e.hash)
    unlinked :
        compute_event_hash sha256 e ≡ e.hash
        → e.hash_prev ≢ prev
        → IsBroken prev e (link_reason prev e)

  pub record FirstBreak (es : List ChainEvent) (seq : ℕ) (r : Reason) : Type 0 where
    pub before : List ChainEvent
    pub event : ChainEvent
    pub after : List ChainEvent
    pub split : es ≡ before ++ event ∷ after
    pub authentic : All IsAuthentic before
    pub linked : IsLinked none before
    pub broken : IsBroken (last_hash none before) event r
    pub at : event.seq ≡ seq

  verify_from_broken :
      (count n seq : ℕ) (r : Reason) (before es : List ChainEvent)
      → All IsAuthentic before
      → IsLinked none before
      → verify_from sha256 count (last_hash none before) es ≡ invalid n seq r
      → FirstBreak (before ++ es) seq r
  unfolding verify_from
  verify_from_broken count n seq r before [] a l h = absurd (ground arith)
  verify_from_broken count n seq r before (e ∷ es) a l h =
      elim (Bool-cases (str_eq (compute_event_hash sha256 e) e.hash)) [
        | inr bad ↦
            let differ : compute_event_hash sha256 e ≢ e.hash =
              ground (arith, str_eq_iff (compute_event_hash sha256 e) e.hash) in
            let reason : hash_mismatch (compute_event_hash sha256 e) e.hash ≡ r = ground arith in
            record {
              before = before;
              event = e;
              after = es;
              split = refl;
              authentic = a;
              linked = l;
              broken = rw (← reason) (altered differ);
              at = ground arith;
            }
        | inl good ↦ elim (Bool-cases (opt_str_eq e.hash_prev (last_hash none before))) [
          | inr bad ↦
              let same : compute_event_hash sha256 e ≡ e.hash = (str_eq_iff _ _).0 good in
              let differ : e.hash_prev ≢ last_hash none before =
                ground (arith, opt_str_eq_iff e.hash_prev (last_hash none before)) in
              let reason : link_reason (last_hash none before) e ≡ r = ground arith in
              record {
                before = before;
                event = e;
                after = es;
                split = refl;
                authentic = a;
                linked = l;
                broken = rw (← reason) (unlinked same differ);
                at = ground arith;
              }
          | inl linked ↦
              let same : compute_event_hash sha256 e ≡ e.hash = (str_eq_iff _ _).0 good in
              let here : e.hash_prev ≡ last_hash none before = (opt_str_eq_iff _ _).0 linked in
              let rest : verify_from sha256 count (some e.hash) es ≡ invalid n seq r =
                ground arith in
              let ih =
                verify_from_broken count n seq r (before ++ e ∷ []) es
                  (All-append IsAuthentic before (e ∷ []) a (same, tt))
                  (IsLinked-append before (e ∷ []) l (link here end)) (rw last_hash-concat rest) in
              rw (append_assoc) at ih
        ]
      ]

  -- An answer "invalid" names the first break, and says what is wrong with it: in the order of
  -- `seq`, all events before it are authentic and linked, and it is itself altered, or authentic
  -- and not linked to the event before it.
  pub verify_chain_broken :
      (es : List ChainEvent) (n seq : ℕ) (r : Reason)
      → verify_chain sha256 es ≡ invalid n seq r
      → FirstBreak (sort_by (λ e. e.seq) es) seq r
  unfolding verify_chain
  verify_chain_broken es n seq r h =
      verify_from_broken (length es) n seq r [] (sort_by (λ e. e.seq) es) tt end h
