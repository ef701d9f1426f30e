-- ===== src/Lib.antt =====
-- OubliePas backend: the commitments of a user (subscriptions and invoices), the occurrences that
-- fall due, the reminders and digests that are sent about them, and the tokens and codes of an
-- account.
--
-- A request goes from a service of services/ to a repository of repositories/, which reads and writes
-- the tables of models/db/ in the session of core/database.py. The generator of
-- services/commitments/occurrence_generator.py keeps the occurrences of each commitment in step with
-- it, and the reminders of services/notifications/ ask which occurrences are due.
--
-- Files:
--   Base          Boolean tests, lists, and statements on tables (Base/Sql) with their laws.
--   Errors        core/exceptions.py: AppException and its codes, and the other errors that Python,
--                 PostgreSQL or SQLAlchemy raise; Result is what a call returns.
--   Calendar      datetime.date as an ordinal, with the proofs of its fields (Calendar/Fields) by
--                 months that are numbered from the year 0 (Calendar/Blocks).
--   Models        models/db/commitments_db.py and models/db/user_db.py: one record per table.
--   Schemas       models/schemas/commitment_schema.py: bodies and responses.
--   Session       core/database.py: the tables as a record Db, a call as a function from Db to a
--                 result and a Db (Action), and run_request, which keeps or drops the writes as
--                 get_session commits or rolls back.
--   Repositories  repositories/commitment_repository.py: one function per query.
--   Commitments   services/commitments: Generator, Rows and Sync are occurrence_generator.py,
--                 ActionWindow is action_window.py, Service and its children are
--                 commitment_service.py. Requests is every request that writes, as data,
--                 with what an invariant owes to each handler (Requests/Handlers); Population,
--                 Isolation, Dues, Schedule, Settlement, Restoration and Checks are about them.
--   Notifications services/notifications: ReminderWindow is reminder_window.py with its agreement with
--                 time zones, Dispatch is reminder_service.py and Digest weekly_digest.py, on the state
--                 Run, which holds the session, what it has committed, the reports, and the mails
--                 and messages that left. World is what answers: the mail and push services, and
--                 the database where it refuses the marks or the commit that follow a delivery.
--   RateLimit     core/rate_limit.py: the address of a client.
--   Jobs          jobs/daily.py: the run of a day, and several days (Jobs/Daily/Once).
--   Authentication services/authentication and the accounts: Tokens is tokens.py with the rotation of
--                 email_password.py, Login and Accounts are the rest of that file, and Google is
--                 google_auth.py; Codes and Issue are services/emailing/otp_service.py; Profile is
--                 services/user_profile/user_profile.py. Repositories has their queries, and Store is
--                 what the writes on refresh tokens promise, without rows. Security,
--                 Passwords, Texts and GoogleSettings are records of what SHA-256, the JWT library,
--                 Argon2, the methods of str and the settings give.
--
-- Conventions: an identifier is a number, and next_id stands for uuid4; an instant is in seconds
-- since 0001-01-01 00:00 UTC; an amount is in cents. The current day of the user, the instant of the
-- clock, the collation of titles and the day in a time zone are arguments. The join that loads the
-- commitment of an occurrence finds the first row with its identifier. Requests run one after the
-- other: the model has no interleaving of two sessions.
--
-- Fuel: the loop of occurrence_dates has 64 rounds. At most three come before the floor and sixty
-- add a date, so that the loop ends before the fuel does, which the result on occurrence_dates
-- includes. All other loops are structural.
--
-- Not modelled: the texts and the sending of mails and push messages, avatars and object storage, the
-- HTTP layer with its cookies, the migrations, the category totals of the summary, and the lengths of
-- texts.
pub mod Base
pub mod Errors
pub mod Calendar
pub mod Models
pub mod Schemas
pub mod Session
pub mod Repositories
pub mod Commitments
pub mod Notifications
pub mod Authentication
pub mod Jobs
pub mod RateLimit
