-- ===== src/Recipients/First.antt =====
-- The recipients are the first occurrences of the parts of the list, if each part is an address.
use automation_server_net.Base.{
  ◌≡◌, refl, sym, ap, ◌∙◌, Bool, true, false, ◌||◌, Option, none, some, List, [], ◌∷◌, ◌++◌,
  if◌then◌else◌, every, arith, inl, inr, Bool-cases,
}
use automation_server_net.Js.Text.{Text, text_eq, text_eq_sound}
use automation_server_net.Recipients.{
  has, collected, collect_recipients, normalize_email_recipients, split_email_recipient_list,
}

-- the parts that do not stand among the parts before them
abbrev pub first_occurrences : (before : List Text) → List Text → List Text
first_occurrences before [] = []
first_occurrences before (r ∷ rs) =
    let rest = first_occurrences (r ∷ before) rs in if has r before then rest else r ∷ rest

has-append : (x : Text) (xs ys : List Text) → has x (xs ++ ys) ≡ (has x xs || has x ys)
has-append x [] ys = refl
has-append x (z ∷ xs) ys = ground (arith, has-append x xs ys)

append_assoc : (xs ys zs : List Text) → (xs ++ ys) ++ zs ≡ xs ++ (ys ++ zs)
append_assoc [] ys zs = refl
append_assoc (x ∷ xs) ys zs = rw (append_assoc xs ys zs) refl

append_nil : (xs : List Text) → xs ++ [] ≡ xs
append_nil [] = refl
append_nil (x ∷ xs) = rw (append_nil xs) refl

or_swap : (a b c : Bool) → a ≡ b → (a || (c || false)) ≡ (c || b)
or_swap a b c e = ground (arith, e)

-- a part that stood before adds no member
same_members :
    (r x : Text) (before : List Text)
    → has r before ≡ true
    → (text_eq x r || has x before) ≡ has x before
same_members r x before h = elim (Bool-cases (text_eq x r)) [
  | inl e ↦ rw e (rw (text_eq_sound x r e) (rw h refl))
  | inr e ↦ rw e refl
]

module _ (is_address : Text → Bool) where
  collect_recipients_lem :
      (rs unique before : List Text)
      → ((x : Text) → has x unique ≡ has x before)
      → collect_recipients is_address rs unique
        ≡ (if every is_address rs then unique ++ first_occurrences before rs else [])
  unfolding collect_recipients
  collect_recipients_lem [] unique before members = sym (append_nil unique)
  collect_recipients_lem (r ∷ rs) unique before members = elim (Bool-cases (is_address r)) [
    | inr bad ↦ rw bad refl
    | inl good ↦ rw good (elim (Bool-cases (has r before)) [
      | inl seen ↦ rw (members r) (
          rw seen (
            collect_recipients_lem rs unique (r ∷ before)
              (λ x. members x ∙ sym (same_members r x before seen))))
      | inr fresh ↦ rw (members r) (
          rw fresh (
            collect_recipients_lem rs (unique ++ (r ∷ [])) (r ∷ before) (λ x.
              has-append x unique (r ∷ [])
              ∙ or_swap (has x unique) (has x before) (text_eq x r) (members x))
            ∙ ap (λ l. if every is_address rs then l else [])
                (append_assoc unique (r ∷ []) (first_occurrences (r ∷ before) rs))))
    ])
  ]

  -- the recipients of the parts of a list, if there are any
  abbrev pub recipients_of : Option (List Text) → List Text
  recipients_of none = []
  recipients_of (some parts) = if every is_address parts then first_occurrences [] parts else []

  recipients_lem : (parts : Option (List Text)) → collected is_address parts ≡ recipients_of parts
  recipients_lem none = refl
  recipients_lem (some parts) = collect_recipients_lem parts [] [] (λ x. refl)

  -- The recipients that are read from a text are the first occurrences of its parts, in their order, if
  -- there are parts and each is an address, and none otherwise.
  pub normalize_email_recipients_first :
      (value : Text)
      → normalize_email_recipients is_address (some value)
        ≡ recipients_of (split_email_recipient_list value)
  unfolding normalize_email_recipients
  normalize_email_recipients_first value = recipients_lem (split_email_recipient_list value)
