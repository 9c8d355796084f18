-- ===== src/Base/Lists.antt =====
-- Lists measured by native numbers, and predicates on all members.
use Prim.Native.Nat.{ℕ, suc, ◌+◌}
use mathlib.Core.Path.{◌≡◌}
use mathlib.Core.Option.{Option, none, some}
use mathlib.Core.Bool.{Bool, true, false, ◌||◌, ◌&&◌}
use mathlib.Core.Logic.{◌⊎◌, inl, inr}
use mathlib.Core.List.{List, [], ◌∷◌, ◌++◌}
use native.Mathlib.Omega.{arith}

module _ {ℓ} {A : Type ℓ} where
  abbrev pub length : List A → ℕ
  length [] = 0
  length (x ∷ xs) = suc (length xs)

  pub length-append : (xs ys : List A) → length (xs ++ ys) ≡ length xs + length ys
  length-append [] ys = omega arith
  length-append (x ∷ xs) ys = omega (arith, length-append xs ys)

  -- `xs.every(p)` and `xs.some(p)`
  abbrev pub every : (A → Bool) → List A → Bool
  every p [] = true
  every p (x ∷ xs) = p x && every p xs

  abbrev pub any : (A → Bool) → List A → Bool
  any p [] = false
  any p (x ∷ xs) = p x || any p xs

abbrev pub All {ℓ κ} : {A : Type ℓ} → (A → Type κ) → List A → Type κ
All P [] = Unit
All P (x ∷ xs) = P x × All P xs

pub All-append {ℓ κ} :
    {A : Type ℓ} (P : A → Type κ) (xs ys : List A) → All P xs → All P ys → All P (xs ++ ys)
All-append P [] ys hx hy = hy
All-append P (x ∷ xs) ys hx hy = (hx.0, All-append P xs ys hx.1 hy)

pub All-map {ℓ κ μ} :
    {A : Type ℓ} (P : A → Type κ) (Q : A → Type μ) (xs : List A)
    → ((x : A) → P x → Q x)
    → All P xs
    → All Q xs
All-map P Q [] f h = tt
All-map P Q (x ∷ xs) f h = (f x h.0, All-map P Q xs f h.1)

-- Some member has the property.
abbrev pub Any {ℓ} : {A : Type ℓ} → (A → Type 0) → List A → Type 0
Any P [] = ⊥
Any P (x ∷ xs) = P x ⊎ Any P xs

pub Any-append_left {ℓ} :
    {A : Type ℓ} (P : A → Type 0) (xs ys : List A) → Any P xs → Any P (xs ++ ys)
Any-append_left P [] ys h = elim h [ ]
Any-append_left P (x ∷ xs) ys (inl h) = inl h
Any-append_left P (x ∷ xs) ys (inr h) = inr (Any-append_left P xs ys h)

pub Any-append_right {ℓ} :
    {A : Type ℓ} (P : A → Type 0) (xs ys : List A) → Any P ys → Any P (xs ++ ys)
Any-append_right P [] ys h = h
Any-append_right P (x ∷ xs) ys h = inr (Any-append_right P xs ys h)

-- A test that some member passes, and one that none does.
pub any_of_Any {ℓ} :
    {A : Type ℓ} (P : A → Type 0) (p : A → Bool) (xs : List A)
    → ((x : A) → P x → p x ≡ true)
    → Any P xs
    → any p xs ≡ true
any_of_Any P p [] f h = elim h [ ]
any_of_Any P p (x ∷ xs) f (inl h) = ground (arith, f x h)
any_of_Any P p (x ∷ xs) f (inr h) = ground (arith, any_of_Any P p xs f h)

pub All-of_any-false {ℓ} :
    {A : Type ℓ} (p : A → Bool) (xs : List A) → any p xs ≡ false → All (λ x. p x ≡ false) xs
All-of_any-false p [] h = tt
All-of_any-false p (x ∷ xs) h = (ground arith, All-of_any-false p xs (ground arith))

pub All-with_All {ℓ κ μ} :
    {A : Type ℓ} (P : A → Type κ) (Q : A → Type μ) (xs : List A)
    → All P xs
    → All Q xs
    → All (λ x. P x × Q x) xs
All-with_All P Q [] p q = tt
All-with_All P Q (x ∷ xs) p q = ((p.0, q.0), All-with_All P Q xs p.1 q.1)

pub Any-with_All {ℓ} :
    {A : Type ℓ} (P Q : A → Type 0) (xs : List A) → Any P xs → All Q xs → Any (λ x. P x × Q x) xs
Any-with_All P Q [] p q = elim p [ ]
Any-with_All P Q (x ∷ xs) (inl p) q = inl (p, q.0)
Any-with_All P Q (x ∷ xs) (inr p) q = inr (Any-with_All P Q xs p q.1)

-- `UPDATE … WHERE p` on a table, its affected rows, and the first row of a `SELECT … WHERE p`.
module _ {ℓ} {A : Type ℓ} (p : A → Bool) where
  abbrev pub change : (A → A) → A → A
  change f x = elim (p x) [ true ↦ f x | false ↦ x ]

  abbrev pub update_where : (A → A) → List A → List A
  update_where f [] = []
  update_where f (x ∷ xs) = change f x ∷ update_where f xs

  abbrev pub count_where : List A → ℕ
  count_where [] = 0
  count_where (x ∷ xs) = elim (p x) [ true ↦ suc (count_where xs) | false ↦ count_where xs ]

  abbrev pub find_where : List A → Option A
  find_where [] = none
  find_where (x ∷ xs) = elim (p x) [ true ↦ some x | false ↦ find_where xs ]

  abbrev pub select_where : List A → List A
  select_where [] = []
  select_where (x ∷ xs) = elim (p x) [ true ↦ x ∷ select_where xs | false ↦ select_where xs ]
