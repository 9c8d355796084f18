-- ===== src/Js/Text.antt =====
-- JavaScript strings as lists of UTF-16 code units, with equality, `trim` and the character
-- classes of the patterns in the program.
use Prim.Native.Char.{code}
use Prim.Native.String.{String}
use automation_server_net.Base.{
  ℕ, ◌≡◌, refl, ◌↔◌, inl, inr, Bool, true, false, ◌&&◌, ◌||◌, List, [], ◌∷◌, arith, ◌==◌, leb,
  if◌then◌else◌, Bool-cases, every, not,
}

abbrev pub Text : Type 0
Text = List ℕ

-- A literal.
abbrev pub codes : String → Text
codes String.[] = []
codes (String.◌∷◌ c s) = code c ∷ codes s

-- `a === b`
unfoldable pub text_eq : Text → Text → Bool
text_eq [] [] = true
text_eq [] (d ∷ t) = false
text_eq (c ∷ s) [] = false
text_eq (c ∷ s) (d ∷ t) = c == d && text_eq s t

pub text_eq_refl : (s : Text) → text_eq s s ≡ true
unfolding text_eq
text_eq_refl [] = refl
text_eq_refl (c ∷ s) = ground (arith, text_eq_refl s)

pub text_eq_sound : (s t : Text) → text_eq s t ≡ true → s ≡ t
unfolding text_eq
text_eq_sound [] [] h = refl
text_eq_sound [] (d ∷ t) h = ground arith
text_eq_sound (c ∷ s) [] h = ground arith
text_eq_sound (c ∷ s) (d ∷ t) h = ground (arith, text_eq_sound s t)

pub text_eq_iff : (s t : Text) → (text_eq s t ≡ true) ↔ (s ≡ t)
text_eq_iff s t = (text_eq_sound s t, λ e. ground (arith, e, text_eq_refl s))

abbrev pub is_empty : Text → Bool
is_empty [] = true
is_empty (c ∷ s) = false

abbrev pub between : ℕ → ℕ → ℕ → Bool
between lo hi c = leb lo c && leb c hi

abbrev pub is_digit : ℕ → Bool
is_digit c = between b'0' b'9' c

-- White space and line terminators of ECMAScript, which `trim` removes.
unfoldable pub is_white_space : ℕ → Bool
is_white_space c =
    between 9 13 c
    || c == 32
    || c == 0xa0
    || c == 0x1680
    || between 0x2000 0x200a c
    || c == 0x2028
    || c == 0x2029
    || c == 0x202f
    || c == 0x205f
    || c == 0x3000
    || c == 0xfeff

pub trim_start : Text → Text
trim_start [] = []
trim_start (c ∷ s) = if is_white_space c then trim_start s else c ∷ s

-- the tail of a trimmed text: white space before nothing goes too
abbrev keep : ℕ → Text → Text
keep c [] = if is_white_space c then [] else c ∷ []
keep c (d ∷ r) = c ∷ d ∷ r

pub trim_end : Text → Text
trim_end [] = []
trim_end (c ∷ s) = keep c (trim_end s)

-- `value.trim()`
unfoldable pub trim : Text → Text
unfolding trim_start trim_end
trim s = trim_end (trim_start s)

trim_end-keep : (c : ℕ) (r : Text) → trim_end r ≡ r → trim_end (keep c r) ≡ keep c r
unfolding trim_end
trim_end-keep c [] h = ground arith
trim_end-keep c (d ∷ r) h = ground (arith, h)

trim_end_idem : (s : Text) → trim_end (trim_end s) ≡ trim_end s
unfolding trim_end
trim_end_idem [] = refl
trim_end_idem (c ∷ s) = trim_end-keep c (trim_end s) (trim_end_idem s)

-- A text with no white space in front.
abbrev StartsTight : Text → Type 0
StartsTight [] = Unit
StartsTight (c ∷ s) = is_white_space c ≡ false

trim_start-StartsTight : (s : Text) → StartsTight (trim_start s)
unfolding trim_start
trim_start-StartsTight [] = tt
trim_start-StartsTight (c ∷ s) = elim (Bool-cases (is_white_space c)) [
  | inl e ↦ ground (arith, e, trim_start-StartsTight s)
  | inr e ↦ ground (arith, e)
]

trim_start_of_tight : (s : Text) → StartsTight s → trim_start s ≡ s
unfolding trim_start
trim_start_of_tight [] h = refl
trim_start_of_tight (c ∷ s) h = ground (arith, h)

trim_end-StartsTight : (s : Text) → StartsTight s → StartsTight (trim_end s)
unfolding trim_end
trim_end-StartsTight [] h = tt
trim_end-StartsTight (c ∷ s) h = go (trim_end s)
  where
    go : (r : Text) → StartsTight (keep c r)
    go [] = ground (arith, h)
    go (d ∷ r) = h

pub trim_idem : (s : Text) → trim (trim s) ≡ trim s
unfolding trim
trim_idem s = ground (
  arith,
  trim_start_of_tight (trim_end (trim_start s))
      (trim_end-StartsTight (trim_start s) (trim_start-StartsTight s)),
  trim_end_idem (trim_start s),
)

-- A text that starts with no white space is not trimmed to nothing.
pub is_empty-trim : (c : ℕ) (s : Text) → is_white_space c ≡ false → is_empty (trim (c ∷ s)) ≡ false
unfolding trim
is_empty-trim c s e = rw (trim_start_of_tight (c ∷ s) e) (kept (trim_end s))
  where
    kept : (r : Text) → is_empty (keep c r) ≡ false
    kept [] = rw e refl
    kept (d ∷ r) = refl

-- `trim` changes no text without white space.
pub trim_of_solid : (s : Text) → every (λ c. not (is_white_space c)) s ≡ true → trim s ≡ s
unfolding trim
trim_of_solid s h = ground (arith, trim_start_of_tight s (tight s h), trimmed s h)
  where
    tight : (t : Text) → every (λ c. not (is_white_space c)) t ≡ true → StartsTight t
    tight [] e = tt
    tight (c ∷ t) e = ground (arith, e)

    trimmed : (t : Text) → every (λ c. not (is_white_space c)) t ≡ true → trim_end t ≡ t
    trimmed [] e = refl
    trimmed (c ∷ []) e = ground (arith, e)
    trimmed (c ∷ d ∷ t) e = ground (arith, e, trimmed (d ∷ t))
