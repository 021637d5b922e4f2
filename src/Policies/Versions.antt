-- ===== src/Policies/Versions.antt =====
-- Optimistic concurrency: a version is overwritten at most once.
use loopstorm_guard.Common.{
  ℕ, ◌<◌, ◌≡◌, ◌∙◌, refl, inl, inr, String, Bool, false, Option, none, some, List, [], ◌∷◌, arith,
  Bool-cases, Option-cases, All, All-append, Any, Any-append-left, any, str_eq, str_eq_iff, ap,
}
use loopstorm_guard.Common.Unique.{IsUnique, any_of_Any, absent-All}
use loopstorm_guard.Review.Table.{Any-update_where}
use loopstorm_guard.Policies.Content.{Value}
use loopstorm_guard.Policies.Router.{
  PolicyPack, CreateInput, UpdateInput, PolicyAnswer, PolicyFailure, conflict, refused, done,
  is_current, updated, create_policy, update_policy, write_update,
}
use loopstorm_guard.Policies.History.{
  PolicyCall, create, update, step, run, create-cases, update-cases,
}
use loopstorm_guard.Review.Table.{first_where, update_where, update_where-none, All-update_where}

-- A row has the id, and every row with it has a later version.
abbrev HasLater : String → ℕ → List PolicyPack → Type 0
HasLater id v table = Any (λ p. p.id ≡ id) table × All (λ p. p.id ≡ id → v < p.version) table

module _ (id : String) (v : ℕ) where
  HasLater-none :
      (tenant_id : String) (table : List PolicyPack)
      → All (λ p. p.id ≡ id → v < p.version) table
      → first_where (is_current id tenant_id v) table ≡ none
  unfolding first_where
  HasLater-none tenant_id [] h = refl
  HasLater-none tenant_id (p ∷ ps) (later, h) =
      ground (arith, str_eq_iff p.id id, later, HasLater-none tenant_id ps h)

  create-HasLater :
      (picomatch : Value → String → Option Bool) (input : CreateInput)
      (new tenant_id user_id : String) (now : ℕ) (table : List PolicyPack)
      → HasLater id v table
      → HasLater id v (create_policy picomatch input new tenant_id user_id now table).0
  create-HasLater picomatch input new tenant_id user_id now table (here, later) =
      elim (create-cases picomatch input new tenant_id user_id now table) [
        | inl e ↦ rw e (here, later)
        | inr (_, n, e) ↦ rw e (
          Any-append-left (λ p. p.id ≡ id) table _ here,
          All-append (λ p. p.id ≡ id → v < p.version) table _ later
              (
                λ same.
                    absurd
                      (ground (arith, any_of_Any (λ (p : PolicyPack). p.id) id table here, same)),
                tt,
              ),
        )
      ]

  update-HasLater :
      (picomatch : Value → String → Option Bool) (input : UpdateInput) (tenant_id : String)
      (now : ℕ) (seen table : List PolicyPack)
      → HasLater id v table
      → HasLater id v (update_policy picomatch input tenant_id now seen table).0
  update-HasLater picomatch input tenant_id now seen table (here, later) =
      elim (update-cases picomatch input tenant_id now seen table) [
        | inl (f, e) ↦ rw e (here, later)
        | inr (_, e) ↦ rw e (
          Any-update_where (λ p. p.id ≡ id) _ _ (λ p h. h) table here,
          All-update_where (λ p. p.id ≡ id → v < p.version)
              (is_current input.id tenant_id input.version) (updated input input.version now)
              (λ p t k i. ground (arith, k i)) table later,
        )
      ]

  run-HasLater :
      (picomatch : Value → String → Option Bool) (cs : List PolicyCall) (table : List PolicyPack)
      → HasLater id v table
      → HasLater id v (run picomatch cs table)
  unfolding run step
  run-HasLater picomatch [] table h = h
  run-HasLater picomatch (create input new tenant_id user_id now ∷ cs) table h =
      run-HasLater picomatch cs _
        (create-HasLater picomatch input new tenant_id user_id now table h)
  run-HasLater picomatch (update input tenant_id now seen ∷ cs) table h =
      run-HasLater picomatch cs _ (update-HasLater picomatch input tenant_id now seen table h)

written-All :
    (input : UpdateInput) (tenant_id : String) (now : ℕ) (table : List PolicyPack)
    → All (λ p. p.id ≡ input.id → input.version < p.version) table
    → All
        (λ p. p.id ≡ input.id → input.version < p.version)
        (update_where
          (is_current input.id tenant_id input.version)
          (updated input input.version now)
          table)
written-All input tenant_id now table h =
    All-update_where (λ p. p.id ≡ input.id → input.version < p.version)
      (is_current input.id tenant_id input.version) (updated input input.version now)
      (λ p t k i. omega arith) table h

-- The rows that an update has written.
written-HasLater :
    (input : UpdateInput) (tenant_id : String) (now : ℕ) (table : List PolicyPack) (p : PolicyPack)
    → IsUnique (λ (p : PolicyPack). p.id) table
    → first_where (is_current input.id tenant_id input.version) table ≡ some p
    → HasLater input.id input.version (
        update_where
          (is_current input.id tenant_id input.version)
          (updated input input.version now)
          table)
unfolding first_where update_where
written-HasLater input tenant_id now [] p unique found = absurd (ground arith)
written-HasLater input tenant_id now (q ∷ qs) p (alone, unique) found =
    elim (Bool-cases (is_current input.id tenant_id input.version q)) [
      | inl t ↦
          let same : q.id ≡ input.id = ground (arith, str_eq_iff q.id input.id) in
          let gone : any (λ z. str_eq z.id input.id) qs ≡ false = rw (← same) alone in
          rw (t, HasLater)
            (
              inl same,
              (
                λ i. omega arith,
                written-All input tenant_id now qs (
                    absent-All (λ (p : PolicyPack). p.id) (λ p. input.version < p.version) input.id
                      qs gone),
              ),
            )
      | inr t ↦
          let next : first_where (is_current input.id tenant_id input.version) qs ≡ some p =
            ground (arith, found) in
          elim (Bool-cases (str_eq q.id input.id)) [
            | inl e ↦
                let same : q.id ≡ input.id = ground (arith, str_eq_iff q.id input.id) in
                let gone : any (λ z. str_eq z.id input.id) qs ≡ false = rw (← same) alone in
                absurd (
                  ground (
                    arith,
                    HasLater-none input.id input.version tenant_id qs (
                        absent-All (λ (p : PolicyPack). p.id) (λ p. input.version < p.version)
                          input.id qs gone),
                    next,
                  ))
            | inr e ↦
                let (here, later) = written-HasLater input tenant_id now qs p unique next in
                rw (t, HasLater)
                  (inr here, (λ i. absurd (ground (arith, str_eq_iff q.id input.id, i)), later))
          ]
    ]

module _ (picomatch : Value → String → Option Bool) (input : UpdateInput) (tenant_id : String)
    (now : ℕ) (seen table : List PolicyPack) (r : PolicyPack) where
  update-done :
      (update_policy picomatch input tenant_id now seen table).1 ≡ done r
      → (p : PolicyPack) × (first_where (is_current input.id tenant_id input.version) table
          ≡ some p)
        × ((update_policy picomatch input tenant_id now seen table).0
            ≡ update_where
                (is_current input.id tenant_id input.version)
                (updated input input.version now)
                table)
  update-done h = elim (update-cases picomatch input tenant_id now seen table) [
    | inl (f, e) ↦ absurd (ground (arith, rw e at h))
    | inr (_, e) ↦
        elim (Option-cases (first_where (is_current input.id tenant_id input.version) table)) [
          | inl n ↦ absurd (ground (arith, rw (e, write_update, n) at h))
          | inr (p, k) ↦ (p, k, ap (λ (q : List PolicyPack × PolicyAnswer). q.0) e)
        ]
  ]

  success-HasLater :
      IsUnique (λ (p : PolicyPack). p.id) table
      → (update_policy picomatch input tenant_id now seen table).1 ≡ done r
      → HasLater input.id input.version (update_policy picomatch input tenant_id now seen table).0
  success-HasLater unique h =
      let (p, found, e) = update-done h in
      rw (e, HasLater) (written-HasLater input tenant_id now table p unique found)

-- If no id stands twice in the table and an update succeeds, then an update of the same id that
-- names the same version is refused afterwards and leaves the table as it finds it, of whatever
-- tenant, whatever table it has read before, and after any history of creations and updates in
-- between: it changes nothing that another client has written since.
pub second_update-refused :
    (picomatch : Value → String → Option Bool) (input : UpdateInput) (tenant_id : String) (now : ℕ)
    (seen table : List PolicyPack) (r : PolicyPack)
    → IsUnique (λ (p : PolicyPack). p.id) table
    → (update_policy picomatch input tenant_id now seen table).1 ≡ done r
    → (cs : List PolicyCall) (input' : UpdateInput) (tenant_id' : String) (now' : ℕ)
      (seen' : List PolicyPack)
    → input'.id ≡ input.id
    → input'.version ≡ input.version
    → (failure : PolicyFailure) × (update_policy picomatch input' tenant_id' now' seen'
          (run picomatch cs (update_policy picomatch input tenant_id now seen table).0)
        ≡ (
          run picomatch cs (update_policy picomatch input tenant_id now seen table).0,
          refused failure,
        ))
second_update-refused picomatch input tenant_id now seen table r unique h cs input' tenant_id' now'
      seen' same_id same_version =
    let table' = run picomatch cs (update_policy picomatch input tenant_id now seen table).0 in
    let (_, later) =
      run-HasLater input.id input.version picomatch cs _
        (success-HasLater picomatch input tenant_id now seen table r unique h) in
    let missing : first_where (is_current input'.id tenant_id' input'.version) table' ≡ none =
      rw (same_id, same_version) (HasLater-none input.id input.version tenant_id' table' later) in
    let unchanged =
      update_where-none (is_current input'.id tenant_id' input'.version)
        (updated input' input'.version now') table' missing in
    elim (update-cases picomatch input' tenant_id' now' seen' table') [
      | inl refusal ↦ refusal
      | inr (_, e) ↦ (conflict, e ∙ rw (write_update, missing, unchanged) refl)
    ]
