-- ===== src/Nfe/DateTime.antt =====
-- src/infra/system-db/nfe-email-dispatch/date-time.ts. What `Date` makes of a text that is not in
-- the simple form, and the UTC fields of a `Date`, are parameters.
use automation_server_net.Base.{
  ℕ, zero, suc, ◌+◌, ◌-◌, ◌/◌, ◌%◌, ◌&&◌, Option, none, some, [], ◌∷◌, ◌++◌, ltb, ◌==◌,
  if◌then◌else◌, length,
}
use automation_server_net.Js.Text.{Text, codes, is_empty, is_digit, trim}
use automation_server_net.Integration.{
  Result, ok, raise, permanent_error, dispatch_invalid_datetime,
}

-- `getUTCFullYear()` and its companions; the month counts from 0.
pub record UtcFields : Type 0 where
  pub year : ℕ
  pub month : ℕ
  pub day : ℕ
  pub hour : ℕ
  pub minute : ℕ
  pub second : ℕ
  pub millisecond : ℕ

pub record Dates : Type 0 where
  -- `new Date(text)`, nothing where its time is NaN
  pub parse : Text → Option UtcFields

pub data DateInput : Type 0 where
  date : UtcFields → DateInput
  text : Text → DateInput

-- `value.toString()`; a number has no more digits than its value and one
abbrev pub decimal_digits : ℕ → ℕ → Text → Text
decimal_digits zero n rest = rest
decimal_digits (suc fuel) n rest =
    let more = decimal_digits fuel (n / 10) ((b'0' + n % 10) ∷ rest) in
    if ltb n 10 then (b'0' + n) ∷ rest else more

unfoldable pub decimal : ℕ → Text
decimal n = decimal_digits (suc n) n []

abbrev pad_start : ℕ → Text → Text
pad_start zero s = s
pad_start (suc missing) s = b'0' ∷ pad_start missing s

-- `padNumber`
unfoldable pub pad_number : ℕ → ℕ → Text
pad_number value width = let s = decimal value in pad_start (width - length s) s

-- `formatDateTime3`
unfoldable pub format_date_time3 : UtcFields → Text
format_date_time3 d =
    decimal d.year
    ++ (codes "-"
        ++ (pad_number (d.month + 1) 2
            ++ (codes "-"
                ++ (pad_number d.day 2
                    ++ (codes " "
                        ++ (pad_number d.hour 2
                            ++ (codes ":"
                                ++ (pad_number d.minute 2
                                    ++ (codes ":"
                                        ++ (pad_number d.second 2
                                            ++ (codes "." ++ pad_number d.millisecond 3)))))))))))

-- a text against a pattern in which `d` stands for a digit: what follows the match
abbrev match_front : Text → Text → Option Text
match_front [] s = some s
match_front (p ∷ ps) [] = none
match_front (p ∷ ps) (c ∷ s) =
    let rest = match_front ps s in if (if p == b'd' then is_digit c else c == p) then rest else none

-- `(?:\.(\d{1,3}))?$`, the digits padded to three
abbrev milliseconds : Text → Option Text
milliseconds [] = some (codes "000")
milliseconds (p ∷ []) = none
milliseconds (p ∷ a ∷ []) = if p == b'.' && is_digit a then some (a ∷ codes "00") else none
milliseconds (p ∷ a ∷ b ∷ []) =
    if p == b'.' && (is_digit a && is_digit b) then some (a ∷ b ∷ codes "0") else none
milliseconds (p ∷ a ∷ b ∷ c ∷ []) =
    if p == b'.' && (is_digit a && (is_digit b && is_digit c)) then some (a ∷ b ∷ c ∷ []) else none
milliseconds (p ∷ a ∷ b ∷ c ∷ d ∷ s) = none

-- the match of the pattern of `normalizeDateTime3`: the seconds, and the milliseconds behind them
abbrev take_front : Text → Text → Text
take_front [] s = []
take_front (p ∷ ps) [] = []
take_front (p ∷ ps) (c ∷ s) = c ∷ take_front ps s

abbrev pub date_pattern : Text
date_pattern = codes "dddd-dd-dd dd:dd:dd"

abbrev simple_tail : Text → Option Text → Option Text
simple_tail s none = none
simple_tail s (some rest) = elim (milliseconds rest) [
  | none ↦ none
  | some ms ↦ some (take_front date_pattern s ++ (codes "." ++ ms))
]

unfoldable pub simple_date_time : Text → Option Text
simple_date_time s = simple_tail s (match_front date_pattern s)

unfoldable pub parsed_date_time : Option UtcFields → Result Text
parsed_date_time none = raise (permanent_error dispatch_invalid_datetime)
parsed_date_time (some d) = ok (format_date_time3 d)

module _ (dates : Dates) where
  unfoldable pub normalize_text_date_time : Text → Result Text
  normalize_text_date_time s =
      if is_empty s
      then raise (permanent_error dispatch_invalid_datetime)
      else elim (simple_date_time s) [ some t ↦ ok t | none ↦ parsed_date_time (dates.parse s) ]

  -- `normalizeDateTime3`
  unfoldable pub normalize_date_time3 : DateInput → Result Text
  normalize_date_time3 (date d) = ok (format_date_time3 d)
  normalize_date_time3 (text s) = normalize_text_date_time (trim s)
