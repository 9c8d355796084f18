-- ===== src/Dispatch/Filename.antt =====
-- The name of the attached file has only characters that are safe in a file name, and no dash at its ends.
use automation_server_net.Base.{
  ℕ, ◌≡◌, refl, Bool, true, false, not, [], ◌∷◌, if◌then◌else◌, ◌==◌, every, arith, inl, inr,
  Bool-cases,
}
use automation_server_net.Js.Text.{Text, trim}
use automation_server_net.Dispatch.Mail.{
  is_filename_code, replace_runs, strip_leading, put_front, strip_trailing, sanitize_numero_nf,
}

-- the first and the last character, if any, are no dashes
abbrev pub starts_clean : Text → Bool
starts_clean [] = true
starts_clean (c ∷ s) = not (c == 45)

abbrev pub ends_clean : Text → Bool
ends_clean [] = true
ends_clean (c ∷ []) = not (c == 45)
ends_clean (c ∷ d ∷ s) = ends_clean (d ∷ s)

dropped-safe :
    (b : Bool) (s : Text)
    → every is_filename_code s ≡ true
    → every is_filename_code (if b then s else 45 ∷ s) ≡ true
dropped-safe true s h = h
dropped-safe false s h = h

replace_runs-safe : (b : Bool) (s : Text) → every is_filename_code (replace_runs b s) ≡ true
replace_runs-safe b [] = refl
replace_runs-safe b (c ∷ s) = elim (Bool-cases (is_filename_code c)) [
  | inl safe ↦ rw safe (rw safe (replace_runs-safe false s))
  | inr other ↦ rw other (dropped-safe b (replace_runs true s) (replace_runs-safe true s))
]

strip_leading-safe :
    (s : Text)
    → every is_filename_code s ≡ true
    → (every is_filename_code (strip_leading s) ≡ true) × (starts_clean (strip_leading s) ≡ true)
strip_leading-safe [] h = (refl, refl)
strip_leading-safe (c ∷ s) h = elim (Bool-cases (c == 45)) [
  | inl dash ↦ rw dash (strip_leading-safe s (ground (arith, h)))
  | inr other ↦ rw other (h, rw other refl)
]

put_front-safe :
    (c : ℕ) (s : Text)
    → is_filename_code c ≡ true
    → every is_filename_code s ≡ true
    → ends_clean s ≡ true
    → (every is_filename_code (put_front c s) ≡ true) × (ends_clean (put_front c s) ≡ true)
put_front-safe c [] safe h clean = elim (Bool-cases (c == 45)) [
  | inl dash ↦ rw dash (refl, refl)
  | inr other ↦ rw other (rw safe refl, rw other refl)
]
put_front-safe c (d ∷ s) safe h clean = (rw safe h, clean)

strip_trailing-safe :
    (s : Text)
    → every is_filename_code s ≡ true
    → (every is_filename_code (strip_trailing s) ≡ true) × (ends_clean (strip_trailing s) ≡ true)
strip_trailing-safe [] h = (refl, refl)
strip_trailing-safe (c ∷ s) h =
    let (safe, clean) = strip_trailing-safe s (ground (arith, h)) in
    put_front-safe c (strip_trailing s) (ground (arith, h)) safe clean

put_front_starts : (c : ℕ) (s : Text) → (c == 45) ≡ false → starts_clean (put_front c s) ≡ true
put_front_starts c [] other = rw other (rw other refl)
put_front_starts c (d ∷ s) other = rw other refl

strip_trailing_starts : (s : Text) → starts_clean s ≡ true → starts_clean (strip_trailing s) ≡ true
strip_trailing_starts [] h = refl
strip_trailing_starts (c ∷ s) h = put_front_starts c (strip_trailing s) (ground (arith, h))

-- Whatever the number of the invoice is, what is kept of it in the name of the attached file consists of
-- letters, digits, underscores and dashes, and neither starts nor ends with a dash.
pub sanitize_numero_nf_safe :
    (s : Text)
    → (every is_filename_code (sanitize_numero_nf s) ≡ true)
      × (starts_clean (sanitize_numero_nf s) ≡ true)
      × (ends_clean (sanitize_numero_nf s) ≡ true)
unfolding sanitize_numero_nf
sanitize_numero_nf_safe s =
    let (led, first) =
      strip_leading-safe (replace_runs false (trim s)) (replace_runs-safe false (trim s)) in
    let (safe, last) = strip_trailing-safe (strip_leading (replace_runs false (trim s))) led in
    (safe, strip_trailing_starts (strip_leading (replace_runs false (trim s))) first, last)
