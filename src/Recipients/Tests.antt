-- ===== src/Recipients/Tests.antt =====
-- Three recipients, one of them twice.
use automation_server_net.Base.{◌≡◌, refl, Bool, ◌==◌, any, some, [], ◌∷◌}
use automation_server_net.Js.Text.{Text, codes, trim, is_white_space, text_eq}
use automation_server_net.Recipients.{
  normalize_email_recipients, split_email_recipient_list, collect_recipients,
}
use automation_server_net.Recipients.First.{recipients_of, normalize_email_recipients_first}

-- an address has an at sign
abbrev has_at : Text → Bool
has_at s = any (λ c. c == b'@') s

normalize_email_recipients_first_example :
    normalize_email_recipients has_at (some (codes "a@b; c@d;a@b"))
    ≡ recipients_of has_at (split_email_recipient_list (codes "a@b; c@d;a@b"))
normalize_email_recipients_first_example =
    normalize_email_recipients_first has_at (codes "a@b; c@d;a@b")

-- the repetition is left out
repeated_recipient :
    normalize_email_recipients has_at (some (codes "a@b; c@d;a@b")) ≡ codes "a@b" ∷ codes "c@d" ∷ []
unfolding normalize_email_recipients split_email_recipient_list collect_recipients trim
    is_white_space text_eq
repeated_recipient = refl
