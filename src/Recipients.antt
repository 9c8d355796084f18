-- ===== src/Recipients.antt =====
-- src/domain/shared/email-address.ts. The test of the pattern for one address, on classes of Unicode, is a
-- parameter.
pub mod First
mod Tests
use automation_server_net.Base.{
  ℕ, Bool, true, false, not, Option, none, some, List, [], ◌∷◌, ◌++◌, if◌then◌else◌, ◌==◌, any,
}
use automation_server_net.Js.Text.{Text, text_eq, is_empty, trim}

-- `split(";")`
abbrev add_front : ℕ → List Text → List Text
add_front c [] = (c ∷ []) ∷ []
add_front c (part ∷ parts) = (c ∷ part) ∷ parts

abbrev pub split_parts : Text → List Text
split_parts [] = [] ∷ []
split_parts (c ∷ s) = let rest = split_parts s in if c == b';' then [] ∷ rest else add_front c rest

abbrev pub trim_parts : List Text → List Text
trim_parts [] = []
trim_parts (part ∷ parts) = trim part ∷ trim_parts parts

-- `splitEmailRecipientList`
unfoldable pub split_email_recipient_list : Text → Option (List Text)
split_email_recipient_list value =
    let s = trim value in
    let recipients = trim_parts (split_parts s) in
    if is_empty s then none else if any is_empty recipients then none else some recipients

abbrev pub has : Text → List Text → Bool
has x list = any (text_eq x) list

module _ (is_address : Text → Bool) where
  -- the loop, with `uniqueRecipients`; the set of those seen has the same members
  unfoldable pub collect_recipients : List Text → (unique : List Text) → List Text
  collect_recipients [] unique = unique
  collect_recipients (r ∷ rs) unique =
      let same = collect_recipients rs unique in
      let more = collect_recipients rs (unique ++ (r ∷ [])) in
      if not (is_address r) then [] else if has r unique then same else more

  abbrev pub collected : Option (List Text) → List Text
  collected none = []
  collected (some recipients) = collect_recipients recipients []

  -- `normalizeEmailRecipients`
  unfoldable pub normalize_email_recipients : Option Text → List Text
  normalize_email_recipients none = []
  normalize_email_recipients (some value) = collected (split_email_recipient_list value)
