-- ===== src/Session.antt =====
-- One call of a repository function as a sequence of queries, each of them atomic, on a shared
-- database. Between two queries other clients act, and a query can fail; both are arguments, so
-- that a theorem holds for every interleaving that the database allows.
use automation_server_net.Base.{ℕ, ◌+◌, ◌≡◌, refl, Option, none, some}
use automation_server_net.Integration.{Failure, Result, ok, raise}

pub record Environment (S : Type 0) : Type 0 where
  -- what other clients do to the database, and its clock, before the query with this number
  pub before : ℕ → S → S
  -- the error of a query that the database refuses or the connection loses
  pub fault : ℕ → Option Failure
  -- `new Date()` in the process, in seconds, once so many queries have been made
  pub clock : ℕ → ℕ

pub record Session (S : Type 0) : Type 0 where
  pub db : S
  pub queries : ℕ

abbrev pub Query : Type 0 → Type 0 → Type 0
Query S A = Environment S → Session S → Result A × Session S

module _ {S A : Type 0} where
  abbrev pub outcome : Option Failure → S → A × S → ℕ → Result A × Session S
  outcome (some e) d r n = (raise e, record { db = d; queries = n })
  outcome none d r n = (ok r.0, record { db = r.1; queries = n })

  -- `client.select` and `client.execute`: the database as the others left it, and then the
  -- statement itself
  unfoldable pub statement : (S → A × S) → Query S A
  statement f env s =
      let d = env.before s.queries s.db in outcome (env.fault s.queries) d (f d) (s.queries + 1)

module _ {S : Type 0} where
  abbrev pub pure : {A : Type 0} → A → Query S A
  pure a env s = (ok a, s)

  abbrev pub throw : {A : Type 0} → Failure → Query S A
  throw e env s = (raise e, s)

  -- a pure step that may throw
  abbrev pub lift : {A : Type 0} → Result A → Query S A
  lift r env s = (r, s)

  abbrev pub now : Query S ℕ
  now env s = (ok (env.clock s.queries), s)

  abbrev pub resume :
      {A B : Type 0} → Result A × Session S → (A → Query S B) → Environment S → Result B × Session S
  resume (ok a, s) f env = f a env s
  resume (raise e, s) f env = (raise e, s)

  infixl 5 ◌>>=◌ ◌>>◌
  abbrev pub ◌>>=◌ : {A B : Type 0} → Query S A → (A → Query S B) → Query S B
  ◌>>=◌ m f env s = resume (m env s) f env

  abbrev pub ◌>>◌ : {A B : Type 0} → Query S A → Query S B → Query S B
  m >> k = m >>= λ _. k

-- `try { … } catch (error) { throw f(error); }`
module _ {S A : Type 0} (f : Failure → Failure) where
  abbrev pub caught : Result A × Session S → Result A × Session S
  caught (ok a, s) = (ok a, s)
  caught (raise e, s) = (raise (f e), s)

  abbrev pub rethrow : Query S A → Query S A
  rethrow m env s = caught (m env s)

-- Nobody else acts, no query fails, and the process reads the clock `t`.
abbrev pub quiet : {S : Type 0} → ℕ → Environment S
quiet t = record { before = λ n d. d; fault = λ n. none; clock = λ n. t }

-- Rules to follow a call: a property of the outcome holds if it holds on each branch.
module _ {S A B : Type 0} (Post : Result B × Session S → Type 0) (env : Environment S)
    (s : Session S) where
  pub bind_statement :
      (f : S → A × S) (g : A → Query S B)
      → (let d = env.before s.queries s.db in
          ((e : Failure)
            → env.fault s.queries ≡ some e
            → Post (raise e, record { db = d; queries = s.queries + 1 }))
          → Post (g (f d).0 env (record { db = (f d).1; queries = s.queries + 1 }))
          → Post ((statement f >>= g) env s))
  unfolding statement
  bind_statement f g failed done = go (env.fault s.queries) refl
    where
      d : S
      d = env.before s.queries s.db

      go :
          (x : Option Failure)
          → env.fault s.queries ≡ x
          → Post (resume (outcome x d (f d) (s.queries + 1)) g env)
      go none eq = done
      go (some e) eq = failed e eq

  pub bind_lift :
      (r : Result A) (g : A → Query S B)
      → ((e : Failure) → r ≡ raise e → Post (raise e, s))
      → ((a : A) → r ≡ ok a → Post (g a env s))
      → Post ((lift r >>= g) env s)
  bind_lift (ok a) g failed done = done a refl
  bind_lift (raise e) g failed done = failed e refl
