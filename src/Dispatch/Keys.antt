-- ===== src/Dispatch/Keys.antt =====
-- The idempotency key of an e-mail names its sale and its attempt: it can be read back.
use automation_server_net.Base.{
  ℕ, zero, suc, ◌+◌, ◌*◌, ◌-◌, ◌/◌, ◌%◌, ◌<◌, ◌≡◌, refl, ap, ◌∙◌, true, Option, none, some, [], ◌∷◌,
  ◌++◌, if◌then◌else◌, ltb, ◌==◌, arith, inl, inr, Bool-cases,
}
use automation_server_net.Js.Text.{Text, codes, is_digit}
use automation_server_net.RuntimePolicy.{strip_prefix}
use automation_server_net.Nfe.DateTime.{decimal, decimal_digits}
use automation_server_net.Dispatch.Mail.{build_smtp_idempotency_key}

-- a number at the front of a text, and the rest
abbrev pub read_number : (read : ℕ) → Text → ℕ × Text
read_number read [] = (read, [])
read_number read (c ∷ s) =
    let more = read_number (read * 10 + (c - 48)) s in if is_digit c then more else (read, c ∷ s)

read_digit :
    (read m : ℕ) (s : Text)
    → m < 10
    → read_number read ((48 + m) ∷ s) ≡ read_number (read * 10 + m) s
read_digit read m s small =
    let digit : is_digit (48 + m) ≡ true = ground (arith, small) in
    let value : (48 + m) - 48 ≡ m = omega arith in rw digit (rw value refl)

read_decimal_digits :
    (fuel n : ℕ) (s : Text) → n < fuel → read_number 0 (decimal_digits fuel n s) ≡ read_number n s
read_decimal_digits zero n s enough = absurd (omega arith)
read_decimal_digits (suc fuel) n s enough = elim (Bool-cases (ltb n 10)) [
  | inl small ↦
      rw small (read_digit 0 n s (ground (arith, small)) ∙ ap (λ k. read_number k s) (omega arith))
  | inr large ↦ rw large (
      read_decimal_digits fuel (n / 10) ((48 + n % 10) ∷ s) (ground (arith, large, enough))
      ∙ (read_digit (n / 10) (n % 10) s (omega arith) ∙ ap (λ k. read_number k s) (omega arith)))
]

decimal_digits-append :
    (fuel n : ℕ) (s t : Text) → decimal_digits fuel n s ++ t ≡ decimal_digits fuel n (s ++ t)
decimal_digits-append zero n s t = refl
decimal_digits-append (suc fuel) n s t = elim (Bool-cases (ltb n 10)) [
  | inl small ↦ rw small refl
  | inr large ↦ rw large (decimal_digits-append fuel (n / 10) ((48 + n % 10) ∷ s) t)
]

read_decimal : (n : ℕ) (t : Text) → read_number 0 (decimal n ++ t) ≡ read_number n t
unfolding decimal
read_decimal n t =
    rw (decimal_digits-append (suc n) n [] t) (read_decimal_digits (suc n) n t (omega arith))

read_alone : (n : ℕ) → read_number 0 (decimal n) ≡ (n, [])
unfolding decimal
read_alone n = read_decimal_digits (suc n) n [] (omega arith)

strip_prefix-append : (p s : Text) → strip_prefix p (p ++ s) ≡ some s
unfolding strip_prefix
strip_prefix-append [] s = refl
strip_prefix-append (c ∷ p) s =
    let same : (c == c) ≡ true = ground arith in rw same (strip_prefix-append p s)

-- what a key is read back as
abbrev pub read_attempt : (sale_id : ℕ) → Option Text → Option (ℕ × ℕ)
read_attempt id none = none
read_attempt id (some s) = some (id, (read_number 0 s).0)

abbrev pub read_sale : Option Text → Option (ℕ × ℕ)
read_sale none = none
read_sale (some s) =
    read_attempt (read_number 0 s).0 (strip_prefix (codes "-attempt-") (read_number 0 s).1)

abbrev pub read_smtp_key : Text → Option (ℕ × ℕ)
read_smtp_key s = read_sale (strip_prefix (codes "nfe-email-dispatch-sale-") s)

-- The idempotency key of an e-mail is read back as the sale and the attempt it was built from.
pub read_smtp_key-build_smtp_idempotency_key :
    (id n : ℕ) → read_smtp_key (build_smtp_idempotency_key id n) ≡ some (id, n)
unfolding build_smtp_idempotency_key
read_smtp_key-build_smtp_idempotency_key id n =
    rw
      (strip_prefix-append (codes "nfe-email-dispatch-sale-")
        (decimal id ++ (codes "-attempt-" ++ decimal n)))
      (rw (read_decimal id (codes "-attempt-" ++ decimal n))
        (rw (strip_prefix-append (codes "-attempt-") (decimal n)) (rw (read_alone n) refl)))
