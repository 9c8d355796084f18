-- ===== src/Nfe/Bounds.antt =====
-- What the validations of src/infra/system-db/nfe-email-dispatch let through.
use automation_server_net.Base.{
  ℕ, ◌≡◌, ◌<◌, ◌≤◌, refl, true, false, List, [], ◌∷◌, arith, ◌==◌, any, All, Bool-cases, inl, inr,
}
use automation_server_net.Js.Number.{JsNumber, whole, negative, fraction, max_safe_integer}
use automation_server_net.Integration.{Result, ok, raise, ◌>>=◌}
use automation_server_net.Nfe.Validation.{
  normalize_positive_integer, normalize_positive_integers, normalize_positive_integer_list,
  keep_new,
}

-- No member occurs again.
abbrev pub Unique : List ℕ → Type 0
Unique [] = Unit
Unique (n ∷ ns) = (any (λ m. m == n) ns ≡ false) × Unique ns

abbrev pub IsId : ℕ → Type 0
IsId n = (0 < n) × (n ≤ max_safe_integer)

normalize_positive_integer-IsId :
    (v : JsNumber) (n : ℕ) → normalize_positive_integer v ≡ ok n → IsId n
unfolding normalize_positive_integer
normalize_positive_integer-IsId (whole v) n e = (ground arith, ground arith)
normalize_positive_integer-IsId (negative v) n e = (ground arith, ground arith)
normalize_positive_integer-IsId fraction n e = (ground arith, ground arith)

cons-IsId :
    (r : Result ℕ) (q : Result (List ℕ)) (ns : List ℕ)
    → ((n : ℕ) → r ≡ ok n → IsId n)
    → ((ms : List ℕ) → q ≡ ok ms → All IsId ms)
    → (r >>= λ n. q >>= λ ms. ok (n ∷ ms)) ≡ ok ns
    → All IsId ns
cons-IsId (raise x) q ns f g e = cc
cons-IsId (ok n) (raise x) ns f g e = cc
cons-IsId (ok n) (ok ms) ns f g e =
    let same : ns ≡ n ∷ ms = ground (arith, e) in rw same (f n refl, g ms refl)

normalize_positive_integers-IsId :
    (vs : List JsNumber) (ns : List ℕ) → normalize_positive_integers vs ≡ ok ns → All IsId ns
unfolding normalize_positive_integers
normalize_positive_integers-IsId [] ns e = let same : ns ≡ [] = ground (arith, e) in rw same tt
normalize_positive_integers-IsId (v ∷ vs) ns e =
    cons-IsId (normalize_positive_integer v) (normalize_positive_integers vs) ns
      (normalize_positive_integer-IsId v) (normalize_positive_integers-IsId vs) e

keep_new-IsId : (seen ns : List ℕ) → All IsId ns → All IsId (keep_new seen ns)
keep_new-IsId seen [] h = tt
keep_new-IsId seen (n ∷ ns) h = elim (Bool-cases (any (λ m. m == n) seen)) [
  | inl e ↦ rw e (keep_new-IsId seen ns h.1)
  | inr e ↦ rw e (h.0, keep_new-IsId (n ∷ seen) ns h.1)
]

keep_new-seen :
    (seen ns : List ℕ) (n : ℕ)
    → any (λ m. m == n) seen ≡ true
    → any (λ m. m == n) (keep_new seen ns) ≡ false
keep_new-seen seen [] n e = refl
keep_new-seen seen (k ∷ ns) n e = elim (Bool-cases (any (λ m. m == k) seen)) [
  | inl f ↦ rw f (keep_new-seen seen ns n e)
  | inr f ↦ rw f (ground (arith, keep_new-seen (k ∷ seen) ns n (ground (arith, e)), unseen f))
]
  where
    unseen : any (λ m. m == k) seen ≡ false → (k == n) ≡ false
    unseen f = elim (Bool-cases (k == n)) [
      | inr g ↦ g
      | inl g ↦
          (let same : k ≡ n = ground (arith, g) in
            let found : any (λ m. m == k) seen ≡ true = rw same e in cc (found, f))
    ]

keep_new-Unique : (seen ns : List ℕ) → Unique (keep_new seen ns)
keep_new-Unique seen [] = tt
keep_new-Unique seen (n ∷ ns) = elim (Bool-cases (any (λ m. m == n) seen)) [
  | inl e ↦ rw e (keep_new-Unique seen ns)
  | inr e ↦ rw e (keep_new-seen (n ∷ seen) ns n (ground arith), keep_new-Unique (n ∷ seen) ns)
]

-- A list of ids that the validation lets through has positive safe integers only, each of them once.
pub normalize_positive_integer_list-Unique :
    (values : List JsNumber) (ids : List ℕ)
    → normalize_positive_integer_list values ≡ ok ids
    → All IsId ids × Unique ids
unfolding normalize_positive_integer_list
normalize_positive_integer_list-Unique values ids e =
    go (normalize_positive_integers values) (normalize_positive_integers-IsId values) e
  where
    go :
        (r : Result (List ℕ))
        → ((ns : List ℕ) → r ≡ ok ns → All IsId ns)
        → (r >>= λ ns. ok (keep_new [] ns)) ≡ ok ids
        → All IsId ids × Unique ids
    go (raise x) f h = cc
    go (ok ns) f h =
        let same : ids ≡ keep_new [] ns = ground (arith, h) in
        rw same (keep_new-IsId [] ns (f ns refl), keep_new-Unique [] ns)
