-- ===== src/Triggers/Fired.antt =====
-- The evaluators return exactly the triggers whose condition holds, in the order of priority.
use loopstorm_guard.Common.{
  ℕ, ◌*◌, ◌<◌, ◌≡◌, ◌↔◌, ◌⊎◌, inl, inr, refl, String, Bool, true, false, Option, none, some, List,
  [], ◌∷◌, ◌++◌, arith, All, All-append, str_eq, Any, Any-append-left, Any-append-right,
  Any-append-cases, str_eq_iff, opt_str_eq, opt_str_eq_iff, Bool-cases, sym,
}
use loopstorm_guard.Common.Sort.{All-sort_by, Any-sort_by, IsSorted, sort_by-IsSorted}
use loopstorm_guard.Triggers.{
  TriggerResult, RunSummary, EventSummary, fire, is_over, has_deny, sort_by_priority,
  post_run_fired, evaluate_post_run_triggers,
}

-- The list holds the value.
unfoldable pub Has : List TriggerResult → TriggerResult → Type 0
Has ts t = Any (λ x. x ≡ t) ts

-- A condition, and the trigger that it fires.
abbrev pub IsFiring : Bool → String → ℕ → TriggerResult → Type 0
IsFiring b trigger priority t = (b ≡ true) × (t ≡ record { trigger = trigger; priority = priority })

module _ (b : Bool) (trigger : String) (priority : ℕ) (t : TriggerResult) where
  pub fire_iff : Has (fire b trigger priority) t ↔ IsFiring b trigger priority t
  unfolding Has fire
  fire_iff = (elim b as (λ c. Has (fire c trigger priority) t ↔ IsFiring c trigger priority t) [
    | true ↦ (elim [ inl e ↦ (refl, sym e) | inr h ↦ absurd h ], λ e. inl (sym e.1))
    | false ↦ (λ h. absurd h, λ e. absurd (ground arith))
  ])

  pub split :
      (rest : List TriggerResult)
      → Has (fire b trigger priority ++ rest) t
      → IsFiring b trigger priority t ⊎ Has rest t
  unfolding Has fire
  split rest h = elim (Any-append-cases (λ x. x ≡ t) (fire b trigger priority) rest h) [
    | inl k ↦ inl (fire_iff.0 k)
    | inr k ↦ inr k
  ]

  pub here :
      (rest : List TriggerResult)
      → IsFiring b trigger priority t
      → Has (fire b trigger priority ++ rest) t
  unfolding Has fire
  here rest f = Any-append-left (λ x. x ≡ t) (fire b trigger priority) rest (fire_iff.1 f)

  pub there : (rest : List TriggerResult) → Has rest t → Has (fire b trigger priority ++ rest) t
  unfolding Has fire
  there rest = Any-append-right (λ x. x ≡ t) (fire b trigger priority) rest

-- The cost is above `tenths / 10` of the cap, which is set.
abbrev pub IsOver : ℕ → ℕ → Option ℕ → Type 0
IsOver tenths cost cap = (c : ℕ) × (cap ≡ some c) × (tenths * c < 10 * cost)

pub is_over_iff :
    (tenths cost : ℕ) (cap : Option ℕ) → (is_over tenths cost cap ≡ true) ↔ IsOver tenths cost cap
is_over_iff tenths cost none = (λ h. cc, λ h. absurd (none-case h.0 h.1))
  where
    none-case : (c : ℕ) → none ≡ some c → ⊥
    none-case c e = cc
is_over_iff tenths cost (some c) = (λ h. (c, refl, ground arith), λ h. over h.0 h.1 h.2)
  where
    over : (d : ℕ) → some c ≡ some d → tenths * d < 10 * cost → is_over tenths cost (some c) ≡ true
    over d e lt = ground arith

has_deny_iff :
    (es : List EventSummary) → (has_deny es ≡ true) ↔ Any (λ e. e.decision ≡ some "deny") es
unfolding has_deny
has_deny_iff [] = ground arith
has_deny_iff (e ∷ es) =
    let (to, from) = has_deny_iff es in
    (
      λ h. elim (Bool-cases (opt_str_eq e.decision (some "deny"))) [
        | inl here ↦ inl ((opt_str_eq_iff _ _).0 here)
        | inr later ↦ inr (to (rw later at h))
      ],
      elim [
        | inl here ↦ rw ((opt_str_eq_iff _ _).1 here) refl
        | inr later ↦ ground (arith, from later)
      ],
    )

-- When a post-run trigger fires.
pub data DuePostRun (run : RunSummary) (events : List EventSummary) (cap : Option ℕ)
    (t : TriggerResult) : Type 0 where
  terminated_budget :
      run.status ≡ "terminated_budget"
      → t ≡ record { trigger = "terminated_budget"; priority = 1 }
      → DuePostRun run events cap t
  terminated_loop :
      run.status ≡ "terminated_loop"
      → t ≡ record { trigger = "terminated_loop"; priority = 1 }
      → DuePostRun run events cap t
  high_cost :
      IsOver 8 run.total_cost cap
      → t ≡ record { trigger = "high_cost"; priority = 2 }
      → DuePostRun run events cap t
  abandoned :
      run.status ≡ "abandoned"
      → t ≡ record { trigger = "abandoned"; priority = 3 }
      → DuePostRun run events cap t
  deny_decisions :
      Any (λ e. e.decision ≡ some "deny") events
      → t ≡ record { trigger = "deny_decisions"; priority = 3 }
      → DuePostRun run events cap t

module _ (run : RunSummary) (events : List EventSummary) (cap : Option ℕ) (t : TriggerResult) where
  post_run_sound : Has (post_run_fired run events cap) t → DuePostRun run events cap t
  unfolding post_run_fired
  post_run_sound h = elim (split _ _ _ t _ h) [
    | inl f ↦ terminated_budget ((str_eq_iff _ _).0 f.0) f.1
    | inr h ↦ elim (split _ _ _ t _ h) [
      | inl f ↦ terminated_loop ((str_eq_iff _ _).0 f.0) f.1
      | inr h ↦ elim (split _ _ _ t _ h) [
        | inl f ↦ high_cost ((is_over_iff _ _ _).0 f.0) f.1
        | inr h ↦ elim (split _ _ _ t _ h) [
          | inl f ↦ abandoned ((str_eq_iff _ _).0 f.0) f.1
          | inr h ↦ let f = (fire_iff _ _ _ t).0 h in deny_decisions ((has_deny_iff _).0 f.0) f.1
        ]
      ]
    ]
  ]

  post_run_complete : DuePostRun run events cap t → Has (post_run_fired run events cap) t
  unfolding post_run_fired
  post_run_complete (terminated_budget c e) = here _ _ _ t _ ((str_eq_iff _ _).1 c, e)
  post_run_complete (terminated_loop c e) =
      there _ _ _ t _ (here _ _ _ t _ ((str_eq_iff _ _).1 c, e))
  post_run_complete (high_cost c e) =
      there _ _ _ t _ (there _ _ _ t _ (here _ _ _ t _ ((is_over_iff _ _ _).1 c, e)))
  post_run_complete (abandoned c e) =
      there _ _ _ t _ (there _ _ _ t _ (there _ _ _ t _ (here _ _ _ t _ ((str_eq_iff _ _).1 c, e))))
  post_run_complete (deny_decisions c e) = there _ _ _ t _ (
      there _ _ _ t _
        (there _ _ _ t _ (there _ _ _ t _ ((fire_iff _ _ _ t).1 ((has_deny_iff _).1 c, e)))))

  -- A post-run trigger is returned exactly when its condition holds: the run's status, a cost above
  -- 80 % of a cap that is set, or a denied event.
  pub evaluate_post_run_iff :
      Has (evaluate_post_run_triggers run events cap) t ↔ DuePostRun run events cap t
  unfolding evaluate_post_run_triggers sort_by_priority Has
  evaluate_post_run_iff =
      let (to, from) = Any-sort_by (λ x. x.priority) (λ x. x ≡ t) (post_run_fired run events cap) in
      (λ h. post_run_sound (to h), λ p. from (post_run_complete p))

fire-All :
    (P : TriggerResult → Type 0) (b : Bool) (trigger : String) (priority : ℕ)
    → P (record { trigger = trigger; priority = priority })
    → All P (fire b trigger priority)
unfolding fire
fire-All P true trigger priority p = (p, tt)
fire-All P false trigger priority p = tt

-- Each trigger has a name.
pub evaluate_post_run-named :
    (run : RunSummary) (events : List EventSummary) (cap : Option ℕ)
    → All (λ t. str_eq t.trigger "" ≡ false) (evaluate_post_run_triggers run events cap)
unfolding evaluate_post_run_triggers sort_by_priority post_run_fired
evaluate_post_run-named run events cap =
    let P : TriggerResult → Type 0 = λ t. str_eq t.trigger "" ≡ false in
    All-sort_by (λ t. t.priority) P (post_run_fired run events cap)
      (All-append P _ _ (fire-All P _ _ _ refl) (
        All-append P _ _ (fire-All P _ _ _ refl) (
          All-append P _ _ (fire-All P _ _ _ refl)
            (All-append P _ _ (fire-All P _ _ _ refl) (fire-All P _ _ _ refl)))))

-- Without a cap the cost of the run does not matter.
pub due_cost :
    (status : String) (cost cost' : ℕ) (events : List EventSummary) (t : TriggerResult)
    → DuePostRun (record { status = status; total_cost = cost }) events none t
    → DuePostRun (record { status = status; total_cost = cost' }) events none t
due_cost status cost cost' events t (terminated_budget c e) = terminated_budget c e
due_cost status cost cost' events t (terminated_loop c e) = terminated_loop c e
due_cost status cost cost' events t (high_cost (c, is_cap, over) e) = absurd (cc is_cap)
due_cost status cost cost' events t (abandoned c e) = abandoned c e
due_cost status cost cost' events t (deny_decisions c e) = deny_decisions c e

-- The triggers come in ascending order of their priority number.
pub evaluate_post_run-IsSorted :
    (run : RunSummary) (events : List EventSummary) (cap : Option ℕ)
    → IsSorted (λ x. x.priority) (evaluate_post_run_triggers run events cap)
unfolding evaluate_post_run_triggers sort_by_priority
evaluate_post_run-IsSorted run events cap =
    sort_by-IsSorted (λ x. x.priority) (post_run_fired run events cap)
