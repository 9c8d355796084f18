-- ===== src/Lib.antt =====
-- A verification of the parts of automation-server-net that keep an automation from doing its
-- work twice: the idempotency records of workflow steps, the runtime scopes, and the table of NF-e
-- sales whose e-mails are dispatched. All paths are from the repository's root.
--
-- Workflows (src/temporal) run activities, possibly several times and at once. Before a step with an
-- effect an activity calls `reserveWorkflowStepIdempotency`; the client that reserves the step holds
-- a lease on its record and later completes, fails or cancels it. The NF-e workflows also claim the
-- row of a sale and finalize it. All of this is in one MySQL database, and the runtime policy
-- gives each run a scope that enters keys, workflow ids and rows.
--
-- The dispatch of NF-e e-mails is a workflow over all eligible sales that runs one child workflow
-- for each sale, a limited number at a time, and a manual workflow for a single sale. Both take the
-- lock of the attempt, which is a step of the idempotency repository, fetch the data of the e-mail,
-- hand it to the SMTP activity, which is such a step too, and finalize the sale.
--
-- Files:
-- Base: library names, tests on numbers, lists.
-- Js: numbers and texts of JavaScript; a text is the list of its UTF-16 codes.
-- Integration: src/domain/shared/integration-error.types.ts; `Result` is what a call returns or
--   throws.
-- Session: a call of a repository function as a sequence of atomic statements. An `Environment`
--   says what other clients do before each statement, which statements fail, and what the process's
--   clock says; the theorems hold for all of them that meet their hypotheses.
-- Idempotency: src/infra/system-db/workflow-step-idempotency.repository.ts. Table has the rows and
--   the SQL statements, Repository the functions. Interleaving has the statements of all clients as
--   operations; Exclusive and Contention are about a lease that runs, WellFormed, Names and Owner about
--   the table and a successful reservation, Recorded and Replay about a recorded result, Settlement
--   and Refusal about finalizing with and without the lease. Rounds is the rule by which the loop of
--   `reserve` is followed; Rows and Columns are lemmas.
-- RuntimePolicy: src/domain/shared/automation-runtime-policy.ts and its types; Scopes is about it.
-- Nfe: src/infra/system-db/nfe-email-dispatch. Sale has the table and its CHECK constraints,
--   DateTime and Validation the files date-time.ts, validation.ts, pagination.ts and sql.ts, Statements
--   the SQL, Rows the mappers and results, Repository the functions of workflow.repository.ts.
--   Operations has the writes of all clients, with the DELETE of customer.repository.ts, which takes the
--   sales of the customer with it by the foreign key of migration 003; Attempts, Checks and Finalization are about them.
--   Activities has the activities of src/temporal/activities/nfe that load, claim and finalize; Retry
--   and Confirmation are about them. ManualActivities has those that finalize and recover an attempt of
--   the manual workflow, with its Truth. Bounds is about the validations.
-- Temporal: src/temporal/workflows/shared/workflow-failure.workflow.ts; what an awaited call returns or
--   throws, and a workflow as a program that calls activities of a world outside of it. Each call leaves
--   an event with its arguments and its answer.
-- Dispatch: src/temporal/workflows/nfe. Processing is process-nfe-email-dispatch-sales.shared.ts, Children
--   and Parent are process-nfe-email-dispatch-sales.workflow.ts (Total is about the loop, Results about what
--   is reported), Mail is process-single-nfe-email-dispatch-sale.shared.ts, with Keys and Filename about
--   it, Single is process-single-nfe-email-dispatch-sale.workflow.ts and Manual is
--   process-manual-nfe-email-dispatch-sale.workflow.ts. Single.Protocol is the specification of an attempt, a
--   step function on phases; Follows and Reports show that the runs refine it, Once and Sent draw
--   consequences, and Own is about the sale of its result. Manual.Promises and Manual.Runs are about a manual run. Lock is
--   src/temporal/activities/nfe/nfe-email-dispatch-sale-attempt-lock.activity.ts, its Queries the three
--   activities, Stored and Held about them.
-- Smtp: src/temporal/activities/shared/send-smtp-email.activity.ts. Send is the activity, which tells what it
--   hands to the server; Once is about when it does.
-- Recipients: src/domain/shared/email-address.ts, with First about it.
--
-- The state is that of the tables: a list of rows, the next id and the database's clock. `reserve`
-- makes at most three rounds, as the source does (`MAX_RESERVATION_RELOAD_ATTEMPTS`), so its recursion
-- needs no other fuel; the decimal digits of a number are computed on fuel of its value and one.
--
-- Parameters: the equality of texts inside the database (`Collation`, an equivalence), `JSON.parse`
-- and the parser of a result, the parse of a text by `Date`, the tokens of `randomUUID`, hashes, the SMTP
-- server, the activities of a workflow, the result of a child workflow, and which child `Promise.race` settles
-- with; the theorems on the parent assume that a child that returns a result returns it for the sale it
-- was given. The loop over the children has one round of fuel for each sale, which is enough.
--
-- Not modelled: messages of errors, metrics and logs; the driver, its pool and transactions (the
-- source uses none here: every statement commits by itself); the time zone functions of date-time.ts;
-- searches, counts and inserts of sales and customers; the other activities and workflows, routes
-- and integrations; the retries of the Temporal SDK. A row keeps its `updated_at` in MySQL when an
-- UPDATE leaves every column as it is; the model sets it in every row that an UPDATE selects. `previousStatus` and the expected statuses are
-- typed, so that their check cannot fail. Of the constraints of the tables the unique keys, the foreign
-- key and the CHECKs are modelled, and not the ranges of the columns: a strict MySQL refuses a DATETIME(3)
-- that is no date and an INT UNSIGNED that overflows, and INSERT IGNORE cuts a text that is longer than its
-- VARCHAR, so that the theorems hold for keys and names that fit.
pub mod Base
pub mod Js
pub mod Integration
pub mod Session
pub mod Temporal
pub mod Idempotency
pub mod RuntimePolicy
pub mod Nfe
pub mod Dispatch
pub mod Smtp
pub mod Recipients
