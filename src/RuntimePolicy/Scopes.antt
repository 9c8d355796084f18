-- ===== src/RuntimePolicy/Scopes.antt =====
-- Scopes are stable, and keep apart what belongs to different runs.
use automation_server_net.Base.{
  ℕ, ◌≡◌, ◌≢◌, ◌⊎◌, ◌||◌, or_else, refl, ap, sym, ◌∙◌, inl, inr, Bool, true, false, not, Option,
  none, some, List, [], ◌∷◌, ◌++◌, arith, Bool-cases, every, length, if◌then◌else◌,
}
use automation_server_net.Js.Text.{
  Text, codes, text_eq, text_eq_iff, is_white_space, is_empty, trim, trim_of_solid,
}
use automation_server_net.Integration.{Result, ok, raise, policy_validation, ◌>>=◌}
use automation_server_net.RuntimePolicy.{
  Mode, production, development, PolicyInput, Policy, production_runtime_scope, dev_prefix,
  is_run_character, is_test_run_id, normalize_non_empty_text, normalize_test_run_id,
  normalize_automation_runtime_mode, normalize_production_policy, normalize_development_policy,
  normalize_by_mode, development_policy, normalize_automation_runtime_policy, strip_prefix,
  dev_scope, normalize_automation_runtime_scope, scope_workflow_id, scoped_id, normalize_parts,
  scope_idempotency_parts_by_scope, no_input,
}

run_character-solid : (c : ℕ) → is_run_character c ≡ true → not (is_white_space c) ≡ true
unfolding is_white_space
run_character-solid c h = ground arith

every_run_character-solid :
    (s : Text) → every is_run_character s ≡ true → every (λ c. not (is_white_space c)) s ≡ true
every_run_character-solid [] h = refl
every_run_character-solid (c ∷ s) h = elim (Bool-cases (is_run_character c)) [
  | inl e ↦ rw (run_character-solid c e) (every_run_character-solid s (rw e at h))
  | inr e ↦ cc (rw e at h)
]

test_run_id-solid :
    (s : Text) → is_test_run_id s ≡ true → every (λ c. not (is_white_space c)) s ≡ true
unfolding is_test_run_id
test_run_id-solid s h = every_run_character-solid s (ground arith)

trim-dev_scope : (s : Text) → is_test_run_id s ≡ true → trim (dev_prefix ++ s) ≡ dev_prefix ++ s
unfolding is_white_space
trim-dev_scope s h = trim_of_solid (dev_prefix ++ s) (test_run_id-solid s h)

-- A development scope is read as itself.
normalize-dev_scope :
    (s : Text)
    → is_test_run_id s ≡ true
    → normalize_automation_runtime_scope (some (dev_prefix ++ s)) ≡ ok (dev_prefix ++ s)
unfolding normalize_automation_runtime_scope strip_prefix dev_scope text_eq
normalize-dev_scope s h = rw (trim-dev_scope s h, h)

-- A scope is that of production, or of one development run.
abbrev pub IsScope : Text → Type 0
IsScope s =
    (s ≡ production_runtime_scope)
    ⊎ ((id : Text) × (is_test_run_id id ≡ true) × (s ≡ dev_prefix ++ id))

dev_scope-IsScope : (t : Option Text) (s : Text) → dev_scope t ≡ ok s → IsScope s
unfolding dev_scope
dev_scope-IsScope none s e = cc
dev_scope-IsScope (some id) s e = elim (Bool-cases (is_test_run_id id)) [
  | inl h ↦ inr (id, h, ground (arith, h, e))
  | inr h ↦ absurd (ground (arith, h, e))
]

normalize_automation_runtime_scope-IsScope :
    (v : Option Text) (s : Text) → normalize_automation_runtime_scope v ≡ ok s → IsScope s
unfolding normalize_automation_runtime_scope
normalize_automation_runtime_scope-IsScope none s e = inl (ground (arith, e))
normalize_automation_runtime_scope-IsScope (some v) s e =
    elim (Bool-cases (is_empty (trim v) || text_eq (trim v) production_runtime_scope)) [
      | inl h ↦ inl (ground (arith, h, e))
      | inr h ↦ dev_scope-IsScope (strip_prefix dev_prefix (trim v)) s (rw h at e)
    ]

IsScope-normalize : (s : Text) → IsScope s → normalize_automation_runtime_scope (some s) ≡ ok s
unfolding normalize_automation_runtime_scope trim is_white_space text_eq
IsScope-normalize s (inl e) = rw e
IsScope-normalize s (inr (id, h, e)) = rw e (normalize-dev_scope id h)

-- Normalizing a scope twice is normalizing it once: what one component has normalized, the next
-- accepts unchanged.
pub normalize_scope_idem :
    (v : Option Text) (s : Text)
    → normalize_automation_runtime_scope v ≡ ok s
    → normalize_automation_runtime_scope (some s) ≡ ok s
normalize_scope_idem v s e = IsScope-normalize s (normalize_automation_runtime_scope-IsScope v s e)

-- What a normalized policy is: production with nothing of a test run, or one development run.
abbrev pub IsNormalized : Policy → Type 0
IsNormalized p =
    ((p.mode ≡ production)
      × (p.test_run_id ≡ none)
      × (p.idempotency_scope ≡ production_runtime_scope)
      × (p.allow_completed_child_workflow_rerun ≡ false))
    ⊎ ((id : Text) × (p.mode ≡ development)
        × (p.test_run_id ≡ some id)
        × (is_test_run_id id ≡ true)
        × (p.idempotency_scope ≡ dev_prefix ++ id))

test_run_id_lem :
    (v : Option Text) (id : Text) → normalize_test_run_id v ≡ ok id → is_test_run_id id ≡ true
unfolding normalize_test_run_id
test_run_id_lem v id e = go (normalize_non_empty_text v) e
  where
    go :
        (r : Result Text)
        → (r >>= λ s. if is_test_run_id s then ok s else raise policy_validation) ≡ ok id
        → is_test_run_id id ≡ true
    go (raise x) h = cc
    go (ok s) h = elim (Bool-cases (is_test_run_id s)) [
      | inl t ↦ ground (arith, t, h)
      | inr t ↦ absurd (ground (arith, t, h))
    ]

production-IsNormalized :
    (i : PolicyInput) (p : Policy) → normalize_production_policy i ≡ ok p → IsNormalized p
unfolding normalize_production_policy
production-IsNormalized i p e = ground arith

development_policy-IsNormalized :
    (strategy : Text) (rerun : Option Bool) (r : Result Text) (p : Policy)
    → ((id : Text) → r ≡ ok id → is_test_run_id id ≡ true)
    → (r >>= λ id. ok (development_policy strategy rerun id)) ≡ ok p
    → IsNormalized p
development_policy-IsNormalized strategy rerun (raise x) p good e = cc
development_policy-IsNormalized strategy rerun (ok id) p good e =
    inr (id, ground (arith, e), ground (arith, e), good id refl, ground (arith, e))

development-IsNormalized :
    (i : PolicyInput) (p : Policy) → normalize_development_policy i ≡ ok p → IsNormalized p
unfolding normalize_development_policy
development-IsNormalized i p e =
    elim (Bool-cases
      (text_eq (or_else i.idempotency_scope_strategy (codes "run-scoped")) (codes "run-scoped"))) [
        | inr h ↦ absurd (ground (arith, h, e))
        | inl h ↦
            development_policy-IsNormalized
              (or_else i.idempotency_scope_strategy (codes "run-scoped"))
              i.allow_completed_child_workflow_rerun (normalize_test_run_id i.test_run_id) p
              (test_run_id_lem i.test_run_id) (rw h at e)
      ]

by_mode-IsNormalized :
    (r : Result Mode) (i : PolicyInput) (p : Policy)
    → (r >>= λ mode. normalize_by_mode mode i) ≡ ok p
    → IsNormalized p
by_mode-IsNormalized (raise x) i p e = cc
by_mode-IsNormalized (ok production) i p e = production-IsNormalized i p e
by_mode-IsNormalized (ok development) i p e = development-IsNormalized i p e

-- A normalized policy is of production, with no test run, the production scope and no rerun of
-- completed children, or of development, with a valid test run id that its scope names.
pub normalize_policy-IsNormalized :
    (input : Option PolicyInput) (p : Policy)
    → normalize_automation_runtime_policy input ≡ ok p
    → IsNormalized p
unfolding normalize_automation_runtime_policy
normalize_policy-IsNormalized input p e =
    by_mode-IsNormalized (normalize_automation_runtime_mode (or_else input no_input).mode)
      (or_else input no_input) p e

ok_injective {ℓ} : {A : Type ℓ} {a b : A} → ok a ≡ ok b → a ≡ b
ok_injective e = cc

append-cancel : (s x y : Text) → s ++ x ≡ s ++ y → x ≡ y
append-cancel [] x y e = e
append-cancel (c ∷ s) x y e = append-cancel s x y (ground (arith, e))

ne-extended : (s : Text) (c : ℕ) (t : Text) → s ≢ s ++ (c ∷ t)
ne-extended [] c t e = cc
ne-extended (d ∷ s) c t e = ne-extended s c t (ground (arith, e))

-- Two normalized policies have the same scope or no workflow id in common: ids that are built on
-- one base are equal only if the runs are the same.
pub scope_workflow_id_apart :
    (base : Text) (p q : Policy) (w : Text)
    → IsNormalized p
    → IsNormalized q
    → scope_workflow_id base p ≡ ok w
    → scope_workflow_id base q ≡ ok w
    → p.idempotency_scope ≡ q.idempotency_scope
unfolding scope_workflow_id
scope_workflow_id_apart base p q w np nq ep eq =
    go (normalize_non_empty_text (some base)) np nq ep eq
  where
    go :
        (r : Result Text)
        → IsNormalized p
        → IsNormalized q
        → (r >>= λ s. ok (scoped_id p.mode p.test_run_id s)) ≡ ok w
        → (r >>= λ s. ok (scoped_id q.mode q.test_run_id s)) ≡ ok w
        → p.idempotency_scope ≡ q.idempotency_scope
    go (raise x) np' nq' h k = absurd (cc)
    go (ok s) (inl a) (inl b) h k = cc (a.2, b.2)
    go (ok s) (inl a) (inr (id, b0, b1, b2, b3)) h k = absurd (
        ne-extended s b'/' (codes "dev/" ++ id)
          (ok_injective (rw (a.0) at h ∙ sym (rw (b0, b1) at k))))
    go (ok s) (inr (id, a0, a1, a2, a3)) (inl b) h k = absurd (
        ne-extended s b'/' (codes "dev/" ++ id)
          (ok_injective (rw (b.0) at k ∙ sym (rw (a0, a1) at h))))
    go (ok s) (inr (id, a0, a1, a2, a3)) (inr (id', b0, b1, b2, b3)) h k =
        let same =
          append-cancel s (codes "/dev/" ++ id) (codes "/dev/" ++ id')
            (ok_injective (rw (a0, a1) at h ∙ sym (rw (b0, b1) at k))) in
        a3 ∙ ap (λ t. dev_prefix ++ t) (append-cancel (codes "/dev/") id id' same) ∙ sym b3

abbrev joined : List Text → Text → List Text
joined parts s = if text_eq s production_runtime_scope then parts else s ∷ parts

ne-longer : (s : Text) (parts : List Text) → parts ≢ s ∷ parts
ne-longer s parts e = omega (arith, ap length e)

joined_injective : (parts : List Text) (s t : Text) → joined parts s ≡ joined parts t → s ≡ t
joined_injective parts s t e = ground (
  arith,
  e,
  text_eq_iff s production_runtime_scope,
  text_eq_iff t production_runtime_scope,
  ne-longer s parts,
  ne-longer t parts,
)

-- Idempotency keys of different scopes differ: where two scopes give the same parts to a step, they
-- are the same scope once normalized.
pub scope_parts_apart :
    (base l : List Text) (a b : Text)
    → scope_idempotency_parts_by_scope base a ≡ ok l
    → scope_idempotency_parts_by_scope base b ≡ ok l
    → normalize_automation_runtime_scope (some a) ≡ normalize_automation_runtime_scope (some b)
unfolding scope_idempotency_parts_by_scope
scope_parts_apart base l a b ea eb =
    go (normalize_parts base) (normalize_automation_runtime_scope (some a))
      (normalize_automation_runtime_scope (some b)) ea eb
  where
    go :
        (p : Result (List Text)) (r t : Result Text)
        → (p >>= λ parts. r >>= λ s. ok (joined parts s)) ≡ ok l
        → (p >>= λ parts. t >>= λ s. ok (joined parts s)) ≡ ok l
        → r ≡ t
    go (raise x) r t h k = absurd (cc)
    go (ok p) (raise x) t h k = absurd (cc)
    go (ok p) (ok s) (raise x) h k = absurd (cc)
    go (ok p) (ok s) (ok t) h k = ap ok (joined_injective p s t (ok_injective (h ∙ sym k)))
