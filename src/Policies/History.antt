-- ===== src/Policies/History.antt =====
-- Histories of creations and updates of policy packs.
use loopstorm_guard.Common.{
  ℕ, ◌≡◌, refl, ◌⊎◌, inl, inr, String, Bool, false, Option, none, some, List, [], ◌∷◌, ◌++◌, arith,
  Bool-cases, Option-cases, All, All-append, any, str_eq, ◌==◌, ap,
}
use loopstorm_guard.Policies.Content.{Value}
use loopstorm_guard.Policies.Validate.{
  PolicyValidationResult, validate_policy, valid, invalid, threw,
}
use loopstorm_guard.Policies.Described.{IsPolicy}
use loopstorm_guard.Policies.Accepted.{validate_policy_iff}
use loopstorm_guard.Policies.Router.{
  PolicyPack, CreateInput, UpdateInput, PolicyAnswer, PolicyFailure, refused, is_own, is_current,
  updated, created, create_policy, update_policy, content_failure, failure_of, provided, not_found,
  conflict, bad_request, internal_error, write_update,
}
use loopstorm_guard.Review.Table.{first_where, update_where, All-update_where}

pub data PolicyCall : Type 0 where
  create : (input : CreateInput) (id tenant_id user_id : String) (now : ℕ) → PolicyCall
  update :
      (input : UpdateInput) (tenant_id : String) (now : ℕ) (seen : List PolicyPack) → PolicyCall

module _ (picomatch : Value → String → Option Bool) where
  unfoldable pub step : PolicyCall → List PolicyPack → List PolicyPack
  step (create input id tenant_id user_id now) table =
      (create_policy picomatch input id tenant_id user_id now table).0
  step (update input tenant_id now seen) table =
      (update_policy picomatch input tenant_id now seen table).0

  unfoldable pub run : List PolicyCall → List PolicyPack → List PolicyPack
  run [] table = table
  run (c ∷ cs) table = run cs (step c table)

  valid-cases :
      (content : Value)
      → (validate_policy picomatch content ≡ valid)
        ⊎ ((f : PolicyFailure) × (failure_of (validate_policy picomatch content) ≡ some f))
  valid-cases content = go (validate_policy picomatch content) refl
    where
      go :
          (r : PolicyValidationResult)
          → validate_policy picomatch content ≡ r
          → (validate_policy picomatch content ≡ valid)
            ⊎ ((f : PolicyFailure) × (failure_of (validate_policy picomatch content) ≡ some f))
      go valid e = inl e
      go (invalid es) e = inr (bad_request es, rw e refl)
      go threw e = inr (internal_error, rw e refl)

  -- A creation changes nothing, or adds a valid policy under a new id.
  pub create-cases :
      (input : CreateInput) (id tenant_id user_id : String) (now : ℕ) (table : List PolicyPack)
      → ((create_policy picomatch input id tenant_id user_id now table).0 ≡ table)
        ⊎ ((validate_policy picomatch input.content ≡ valid)
            × (any (λ p. str_eq p.id id) table ≡ false)
            × ((create_policy picomatch input id tenant_id user_id now table).0
                ≡ table ++ created input id tenant_id user_id now ∷ []))
  unfolding create_policy
  create-cases input id tenant_id user_id now table = elim (valid-cases input.content) [
    | inr (f, e) ↦ rw (create_policy, e) (inl refl)
    | inl e ↦ elim (Bool-cases (any (λ p. str_eq p.id id) table)) [
      | inl t ↦ rw (create_policy, e, t) (inl refl)
      | inr t ↦ rw (create_policy, e, t) (inr (refl, refl, refl))
    ]
  ]

  -- An update changes nothing, or writes the rows of the tenant, the id and the version asked for;
  -- then the content, if it is provided, is valid.
  pub update-cases :
      (input : UpdateInput) (tenant_id : String) (now : ℕ) (seen table : List PolicyPack)
      → ((f : PolicyFailure) × (update_policy picomatch input tenant_id now seen table
            ≡ (table, refused f)))
        ⊎ ((content_failure picomatch input.content ≡ none)
            × ((update_policy picomatch input tenant_id now seen table)
                ≡ write_update picomatch input tenant_id input.version now table))
  unfolding update_policy
  update-cases input tenant_id now seen table =
      elim (Option-cases (first_where (is_own input.id tenant_id) seen)) [
        | inl e ↦ rw (update_policy, e) (inl (not_found, refl))
        | inr (existing, e) ↦ elim (Bool-cases (existing.version == input.version)) [
          | inr t ↦ rw (update_policy, e, t) (inl (conflict, refl))
          | inl t ↦ elim (Option-cases (content_failure picomatch input.content)) [
            | inr (f, k) ↦ rw (update_policy, e, t, k) (inl (f, refl))
            | inl k ↦
                let same : existing.version ≡ input.version = ground arith in
                rw (update_policy, e, t, k)
                  (inr (refl, ap (λ n. write_update picomatch input tenant_id n now table) same))
          ]
        ]
      ]

content_failure-IsPolicy :
    (picomatch : Value → String → Option Bool) (o : Option Value) (old : Value)
    → content_failure picomatch o ≡ none
    → IsPolicy picomatch old
    → IsPolicy picomatch (provided o old)
content_failure-IsPolicy picomatch none old e h = h
content_failure-IsPolicy picomatch (some v) old e h = elim (valid-cases picomatch v) [
  | inl k ↦ (validate_policy_iff picomatch v).0 k
  | inr (f, k) ↦ absurd (ground arith)
]

-- If every policy of the table is one that the validator accepts, then so is every policy after any
-- history of creations and updates, of whatever tenants and inputs: in particular no rule of a stored
-- policy denies `escalate_to_human` by its name or by a pattern that picomatch matches with it. A
-- deny rule with neither a tool nor a pattern is not excluded.
pub run-AllPolicies :
    (picomatch : Value → String → Option Bool) (cs : List PolicyCall) (table : List PolicyPack)
    → All (λ p. IsPolicy picomatch p.content) table
    → All (λ p. IsPolicy picomatch p.content) (run picomatch cs table)
unfolding run step
run-AllPolicies picomatch [] table h = h
run-AllPolicies picomatch (create input id tenant_id user_id now ∷ cs) table h =
    run-AllPolicies picomatch cs _
      (elim (create-cases picomatch input id tenant_id user_id now table) [
        | inl e ↦ rw e h
        | inr (v, n, e) ↦ rw e (
            All-append (λ p. IsPolicy picomatch p.content) table _ h
              ((validate_policy_iff picomatch input.content).0 v, tt))
      ])
run-AllPolicies picomatch (update input tenant_id now seen ∷ cs) table h =
    run-AllPolicies picomatch cs _ (elim (update-cases picomatch input tenant_id now seen table) [
      | inl (f, e) ↦
          let same : step picomatch (update input tenant_id now seen) table ≡ table =
            ap (λ (q : List PolicyPack × PolicyAnswer). q.0) e in
          rw same h
      | inr (v, e) ↦
          let moved : step picomatch (update input tenant_id now seen) table
              ≡ update_where (is_current input.id tenant_id input.version)
                  (updated input input.version now) table =
            ap (λ (q : List PolicyPack × PolicyAnswer). q.0) e in
          rw moved (
            All-update_where (λ p. IsPolicy picomatch p.content)
              (is_current input.id tenant_id input.version) (updated input input.version now)
              (λ p _ k. content_failure-IsPolicy picomatch input.content p.content v k) table h)
    ])
