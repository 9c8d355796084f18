-- ===== src/Temporal.antt =====
-- What workflows see of Temporal: the failures of src/temporal/workflows/shared/workflow-failure.workflow.ts,
-- and activities as calls that are answered by a world outside of the workflow. A world keeps the
-- calls with their answers, the last one first.
use automation_server_net.Base.{Bool, true, Option, none, some, List, ◌∷◌, if◌then◌else◌}
use automation_server_net.Js.Text.{Text, is_empty, trim}

-- what an `ApplicationFailure` says
pub record ApplicationInfo : Type 0 where
  pub type : Option Text
  pub non_retryable : Bool
  pub message : Text

-- A thrown value: an `ApplicationFailure` or another `TemporalFailure`, each without and with a cause,
-- any other `Error`, a text, or anything else.
pub data Thrown : Type 0 where
  application : ApplicationInfo → Thrown
  application_caused : ApplicationInfo → Thrown → Thrown
  temporal : Text → Thrown
  temporal_caused : Text → Thrown → Thrown
  error : Text → Thrown
  thrown_text : Text → Thrown
  thrown_other : Thrown

-- `ApplicationFailure.nonRetryable(message, type)`
abbrev pub non_retryable_failure : (message type : Text) → Thrown
non_retryable_failure message type =
    application (record { type = some type; non_retryable = true; message = message })

unfoldable pub find_root_workflow_failure : Thrown → Thrown
find_root_workflow_failure (application i) = application i
find_root_workflow_failure (application_caused i c) = find_root_workflow_failure c
find_root_workflow_failure (temporal m) = temporal m
find_root_workflow_failure (temporal_caused m c) = find_root_workflow_failure c
find_root_workflow_failure (error m) = error m
find_root_workflow_failure (thrown_text s) = thrown_text s
find_root_workflow_failure thrown_other = thrown_other

-- `error instanceof ApplicationFailure`
abbrev pub as_application : Thrown → Option ApplicationInfo
as_application (application i) = some i
as_application (application_caused i c) = some i
as_application (temporal m) = none
as_application (temporal_caused m c) = none
as_application (error m) = none
as_application (thrown_text s) = none
as_application thrown_other = none

abbrev or_application : Option ApplicationInfo → Option ApplicationInfo → Option ApplicationInfo
or_application (some i) other = some i
or_application none other = other

unfoldable pub find_root_application_failure : Thrown → Option ApplicationInfo
find_root_application_failure e =
    or_application (as_application (find_root_workflow_failure e)) (as_application e)

-- `error.message`, where it is an `Error`
abbrev pub error_message : Thrown → Option Text
error_message (application i) = some i.message
error_message (application_caused i c) = some i.message
error_message (temporal m) = some m
error_message (temporal_caused m c) = some m
error_message (error m) = some m
error_message (thrown_text s) = none
error_message thrown_other = none

-- a thrown text that says something
abbrev trimmed_text : Thrown → Option Text
trimmed_text (application i) = none
trimmed_text (application_caused i c) = none
trimmed_text (temporal m) = none
trimmed_text (temporal_caused m c) = none
trimmed_text (error m) = none
trimmed_text (thrown_text s) = let t = trim s in if is_empty t then none else some t
trimmed_text thrown_other = none

abbrev first_text : Option Text → Option Text → Option Text → Text → Text
first_text (some s) b c fallback = s
first_text none (some s) c fallback = s
first_text none none (some s) fallback = s
first_text none none none fallback = fallback

unfoldable pub read_workflow_failure_message : (fallback : Text) → Thrown → Text
read_workflow_failure_message fallback e =
    let root = find_root_workflow_failure e in
    first_text (error_message root) (trimmed_text root) (error_message e) fallback

-- What an awaited call returns or throws.
pub data Outcome (A : Type 0) : Type 0 where
  done : A → Outcome A
  thrown : Thrown → Outcome A

pub record World (S Event : Type 0) : Type 0 where
  pub state : S
  pub log : List Event

abbrev pub Run : (S Event A : Type 0) → Type 0
Run S Event A = World S Event → Outcome A × World S Event

module _ {S Event : Type 0} where
  abbrev pub pure : {A : Type 0} → A → Run S Event A
  pure a w = (done a, w)

  abbrev pub throw : {A : Type 0} → Thrown → Run S Event A
  throw e w = (thrown e, w)

  abbrev pub answered :
      {A : Type 0} → (Outcome A → Event) → List Event → Outcome A × S → Outcome A × World S Event
  answered event log (o, s) = (o, record { state = s; log = event o ∷ log })

  -- an activity, with the event that tells of it
  unfoldable pub call : {A : Type 0} → (Outcome A → Event) → (S → Outcome A × S) → Run S Event A
  call event f w = answered event w.log (f w.state)

  abbrev pub resume :
      {A B : Type 0} → Outcome A × World S Event → (A → Run S Event B) → Outcome B × World S Event
  resume (done a, w) f = f a w
  resume (thrown e, w) f = (thrown e, w)

  infixl 5 ◌>>=◌ ◌>>◌
  abbrev pub ◌>>=◌ : {A B : Type 0} → Run S Event A → (A → Run S Event B) → Run S Event B
  ◌>>=◌ m f w = resume (m w) f

  abbrev pub ◌>>◌ : {A B : Type 0} → Run S Event A → Run S Event B → Run S Event B
  m >> k = m >>= λ _. k

  abbrev pub handled :
      {A : Type 0}
      → Outcome A × World S Event
      → (Thrown → Run S Event A)
      → Outcome A × World S Event
  handled (done a, w) h = (done a, w)
  handled (thrown e, w) h = h e w

  -- `try { m } catch (error) { h }`
  abbrev pub catching : {A : Type 0} → Run S Event A → (Thrown → Run S Event A) → Run S Event A
  catching m h w = handled (m w) h

  -- To follow a call: whatever it answers, and whatever it does outside.
  pub call_rule :
      {A B : Type 0} (Post : B × World S Event → Type 0) (event : Outcome A → Event)
      (f : S → Outcome A × S) (g : Outcome A × World S Event → B × World S Event)
      (w : World S Event)
      → ((o : Outcome A) (s : S) → Post (g (o, record { state = s; log = event o ∷ w.log })))
      → Post (g (call event f w))
  unfolding call
  call_rule {A} {B} Post event f g w h = go (f w.state)
    where
      go : (r : Outcome A × S) → Post (g (answered event w.log r))
      go (o, s) = h o s
