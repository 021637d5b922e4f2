-- ===== src/ApiKeys/Revoked.antt =====
-- A revoked key opens nothing.
use loopstorm_guard.Common.{
  ℕ, ◌≡◌, ◌≢◌, refl, sym, ◌∙◌, ap, inl, inr, String, true, false, Option, some, List, [], ◌∷◌, any,
  filter, All, Any, All-append, Any-append-left, str_eq, str_eq_iff, arith, Bool-cases,
  Option-cases,
}
use loopstorm_guard.Common.Unique.{IsUnique, any_of_Any, absent-All, All-filter, All-take}
use loopstorm_guard.Review.Table.{
  first_where, update_where, All-update_where, All-first_where, Any-update_where,
}
use loopstorm_guard.ApiKeys.Keys.{
  ApiKey, ApiKeyAuthResult, NewKey, revoked, create_key, revoke_key, is_own, revoked_row,
  is_candidate, is_expired, match_key, check_expiry, auth_result, authenticate_api_key, touch,
  key_of_header, take_chars,
}

-- What happens to the keys.
pub data KeyCall : Type 0 where
  creates :
      (random_hex : String) (input : NewKey) (id tenant_id user_id : String) (now : ℕ) → KeyCall
  revokes : (id tenant_id : String) → KeyCall
  touches : (r : ApiKeyAuthResult) (now : ℕ) → KeyCall

module _ (sha256 : String → String) where
  unfoldable pub step : KeyCall → List ApiKey → List ApiKey
  step (creates random_hex input id tenant_id user_id now) table =
      (create_key sha256 random_hex input id tenant_id user_id now table).0
  step (revokes id tenant_id) table = (revoke_key id tenant_id table).0
  step (touches r now) table = touch r now table

  unfoldable pub run : List KeyCall → List ApiKey → List ApiKey
  run [] table = table
  run (c ∷ cs) table = run cs (step c table)

-- The tenant's row with the id is there, and revoked.
abbrev IsClosed : String → String → ApiKey → Type 0
IsClosed id tenant_id k = k.id ≡ id → (k.tenant_id ≡ tenant_id → k.is_revoked ≡ true)

abbrev pub HasRevoked : String → String → List ApiKey → Type 0
HasRevoked id tenant_id table = Any (λ k. k.id ≡ id) table × All (IsClosed id tenant_id) table

module _ (id tenant_id : String) where
  -- The key that a request matches is not revoked.
  match_key-open :
      (sha256 : String → String) (key : String) (table : List ApiKey) (k : ApiKey)
      → All (IsClosed id tenant_id) table
      → match_key sha256 key table ≡ some k
      → (k.is_revoked ≡ false) × IsClosed id tenant_id k
  unfolding match_key
  match_key-open sha256 key table k h e =
      let test = is_candidate (take_chars 8 key) in
      let all =
        All-take (λ x. (test x ≡ true) × IsClosed id tenant_id x) 5 (filter test table)
          (All-filter (IsClosed id tenant_id) test table h) in
      let (t, closed) =
        All-first_where (λ x. (test x ≡ true) × IsClosed id tenant_id x) _ _ k all e in
      (ground (arith, t), closed)

  found-Any :
      (table : List ApiKey) (k : ApiKey)
      → first_where (is_own id tenant_id) table ≡ some k
      → Any (λ x. x.id ≡ id) table
  unfolding first_where
  found-Any [] k e = absurd (ground arith)
  found-Any (x ∷ xs) k e = elim (Bool-cases (str_eq x.id id)) [
    | inl t ↦ inl ((str_eq_iff x.id id).0 t)
    | inr t ↦ inr (found-Any xs k (ground (arith, e, t)))
  ]

  found-IsClosed :
      (table : List ApiKey) (k : ApiKey)
      → IsUnique (λ (x : ApiKey). x.id) table
      → first_where (is_own id tenant_id) table ≡ some k
      → k.is_revoked ≡ true
      → All (IsClosed id tenant_id) table
  unfolding first_where
  found-IsClosed [] k unique e t = tt
  found-IsClosed (x ∷ xs) k (alone, unique) e t = elim (Bool-cases (is_own id tenant_id x)) [
    | inl o ↦
        let same : x ≡ k = ground (arith, e, o) in
        let x_id : x.id ≡ id = ground (arith, o, str_eq_iff x.id id) in
        (
          λ i j. rw same t,
          absent-All (λ (z : ApiKey). z.id) (λ z. z.tenant_id ≡ tenant_id → z.is_revoked ≡ true) id
              xs (rw (← x_id) alone),
        )
    | inr o ↦ (
      λ i j. absurd (ground (arith, o, str_eq_iff x.id id, str_eq_iff x.tenant_id tenant_id, i, j)),
      found-IsClosed xs k unique (ground (arith, e, o)) t,
    )
  ]

  updated-IsClosed :
      (table : List ApiKey)
      → All (IsClosed id tenant_id) (update_where (is_own id tenant_id) revoked_row table)
  unfolding update_where
  updated-IsClosed [] = tt
  updated-IsClosed (x ∷ xs) = elim (Bool-cases (is_own id tenant_id x)) [
    | inl o ↦ rw (o, All) ((λ i j. refl), updated-IsClosed xs)
    | inr o ↦
        rw (o, All)
          (
            (λ i j.
                absurd
                  (ground (arith, o, str_eq_iff x.id id, str_eq_iff x.tenant_id tenant_id, i, j))),
            updated-IsClosed xs,
          )
  ]

  revoke_key-HasRevoked :
      (table : List ApiKey)
      → IsUnique (λ k. k.id) table
      → (revoke_key id tenant_id table).1 ≡ revoked id
      → HasRevoked id tenant_id (revoke_key id tenant_id table).0
  unfolding revoke_key
  revoke_key-HasRevoked table unique h =
      elim (Option-cases (first_where (is_own id tenant_id) table)) [
        | inl e ↦ absurd (ground (arith, rw (revoke_key, e) at h))
        | inr (k, e) ↦ elim (Bool-cases k.is_revoked) [
          | inl t ↦
              rw (e, t, revoke_key, HasRevoked)
                (found-Any table k e, found-IsClosed table k unique e t)
          | inr t ↦
              rw (e, t, revoke_key, HasRevoked)
                (
                  Any-update_where (λ x. x.id ≡ id) (is_own id tenant_id) revoked_row (λ x p. p)
                      table (found-Any table k e),
                  updated-IsClosed table,
                )
        ]
      ]

  step-HasRevoked :
      (sha256 : String → String) (c : KeyCall) (table : List ApiKey)
      → HasRevoked id tenant_id table
      → HasRevoked id tenant_id (step sha256 c table)
  unfolding step create_key revoke_key touch
  step-HasRevoked sha256 (creates random_hex input new tenant user_id now) table (here, closed) =
      elim (Bool-cases (any (λ k. str_eq k.id new) table)) [
        | inl e ↦ rw (step, e, create_key, HasRevoked) (here, closed)
        | inr e ↦
            rw (step, e, create_key, HasRevoked)
              (
                Any-append-left (λ k. k.id ≡ id) table _ here,
                All-append (IsClosed id tenant_id) table _ closed (
                  λ same t.
                      absurd
                        (ground (arith, any_of_Any (λ (k : ApiKey). k.id) id table here, same, e)),
                  tt,
                ),
              )
      ]
  step-HasRevoked sha256 (revokes other tenant) table (here, closed) =
      elim (Option-cases (first_where (is_own other tenant) table)) [
        | inl e ↦ rw (step, e, revoke_key, HasRevoked) (here, closed)
        | inr (k, e) ↦ elim (Bool-cases k.is_revoked) [
          | inl t ↦ rw (step, e, t, revoke_key, HasRevoked) (here, closed)
          | inr t ↦
              rw (step, e, t, revoke_key, HasRevoked)
                (
                  Any-update_where (λ k. k.id ≡ id) (is_own other tenant) revoked_row (λ x p. p)
                      table here,
                  All-update_where (IsClosed id tenant_id) (is_own other tenant) revoked_row
                      (λ x p q i o. refl) table closed,
                )
        ]
      ]
  step-HasRevoked sha256 (touches r now) table (here, closed) = (
    Any-update_where (λ k. k.id ≡ id) _ _ (λ x p. p) table here,
    All-update_where (IsClosed id tenant_id) _ _ (λ x p q. q) table closed,
  )

  run-HasRevoked :
      (sha256 : String → String) (cs : List KeyCall) (table : List ApiKey)
      → HasRevoked id tenant_id table
      → HasRevoked id tenant_id (run sha256 cs table)
  unfolding run
  run-HasRevoked sha256 [] table h = h
  run-HasRevoked sha256 (c ∷ cs) table h =
      run-HasRevoked sha256 cs (step sha256 c table) (step-HasRevoked sha256 c table h)

some_result : (r q : ApiKeyAuthResult) → Path (Option ApiKeyAuthResult) (some r) (some q) → r ≡ q
some_result r q e = ground arith

-- An accepted request has a key that matches a row, whose tenant and scopes are returned.
authenticate-key :
    (sha256 : String → String) (header : Option String) (now : ℕ) (table : List ApiKey)
    (r : ApiKeyAuthResult)
    → authenticate_api_key sha256 header now table ≡ some r
    → (key : String) × (k : ApiKey) × (match_key sha256 key table ≡ some k) × (r ≡ auth_result k)
unfolding authenticate_api_key check_expiry
authenticate-key sha256 header now table r h = elim (Option-cases (key_of_header header)) [
  | inl e ↦ absurd (ground (arith, rw (authenticate_api_key, e) at h))
  | inr (key, e) ↦ elim (Option-cases (match_key sha256 key table)) [
    | inl m ↦ absurd (ground (arith, rw (authenticate_api_key, e, m) at h))
    | inr (k, m) ↦ elim (Bool-cases (is_expired now k)) [
      | inl t ↦ absurd (ground (arith, rw (authenticate_api_key, check_expiry, e, m, t) at h))
      | inr t ↦ (
        key,
        k,
        m,
        some_result r (auth_result k) (sym (rw (authenticate_api_key, check_expiry, e, m, t) at h)),
      )
    ]
  ]
]

-- If no id stands twice in the table and a tenant has revoked a key, then no request is accepted as
-- one with that key of the tenant any more, whatever header it has, at whatever time, and after any
-- history of creations, revocations and uses of keys.
pub revoked_key-refused :
    (sha256 : String → String) (id tenant_id : String) (table : List ApiKey)
    → IsUnique (λ k. k.id) table
    → (revoke_key id tenant_id table).1 ≡ revoked id
    → (cs : List KeyCall) (header : Option String) (now : ℕ) (r : ApiKeyAuthResult)
    → r.api_key_id ≡ id
    → r.tenant_id ≡ tenant_id
    → authenticate_api_key sha256 header now (run sha256 cs (revoke_key id tenant_id table).0)
      ≢ some r
unfolding authenticate_api_key check_expiry
revoked_key-refused sha256 id tenant_id table unique h cs header now r same same' answer =
    let later = run sha256 cs (revoke_key id tenant_id table).0 in
    let (here, closed) =
      run-HasRevoked id tenant_id sha256 cs _ (revoke_key-HasRevoked id tenant_id table unique h) in
    let (key, k, m, e) = authenticate-key sha256 header now later r answer in
    let (open_key, shut) = match_key-open id tenant_id sha256 key later k closed m in
    let k_id : k.id ≡ id = sym (ap (λ (q : ApiKeyAuthResult). q.api_key_id) e) ∙ same in
    let k_tenant : k.tenant_id ≡ tenant_id =
      sym (ap (λ (q : ApiKeyAuthResult). q.tenant_id) e) ∙ same' in
    ground (arith, open_key, shut k_id k_tenant)
