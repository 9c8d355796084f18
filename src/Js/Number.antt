-- ===== src/Js/Number.antt =====
-- JavaScript numbers as far as the program looks at them: whole numbers of either sign, and the
-- rest (fractions, NaN, the infinities).
use automation_server_net.Base.{ℕ, ◌^◌, ◌-◌, Bool, true, false, leb, ltb}

pub data JsNumber : Type 0 where
  -- `negative n` is -(n + 1)
  whole negative : ℕ → JsNumber
  fraction : JsNumber

-- `Number.MAX_SAFE_INTEGER`
abbrev pub max_safe_integer : ℕ
max_safe_integer = 2 ^ 53 - 1

-- `Number.isSafeInteger`
abbrev pub is_safe_integer : JsNumber → Bool
is_safe_integer (whole n) = leb n max_safe_integer
is_safe_integer (negative n) = ltb n max_safe_integer
is_safe_integer fraction = false

-- `Number.isInteger`
abbrev pub is_integer : JsNumber → Bool
is_integer (whole n) = true
is_integer (negative n) = true
is_integer fraction = false

-- `value > 0`, on integers
abbrev pub is_positive : JsNumber → Bool
is_positive (whole n) = ltb 0 n
is_positive (negative n) = false
is_positive fraction = false

-- The number that is meant where a test has shown that it is not negative.
abbrev pub magnitude : JsNumber → ℕ
magnitude (whole n) = n
magnitude (negative n) = 0
magnitude fraction = 0
