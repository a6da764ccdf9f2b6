-- ===== src/Lib.antt =====
-- Verification library of GitCastle, a self-hosted git server.
--
-- The program. HTTP requests reach the handlers of internal/httpapi, which resolve the session
-- (internal/auth) and the repository (internal/repos) and call the stores; internal/collab keeps
-- issues, pull requests, reviews and branch protection. Git's own traffic goes to
-- internal/gitserve, which checks the account and its role on the repository and hands the request
-- to git http-backend. cmd/gitcastle/main.go puts the parts together.
--
-- The files.
--   Db, Exec, Errors   the PostgreSQL tables, a statement that may fail, the errors of the stores
--   Auth               internal/auth: accounts, sessions, permissions, profiles
--   Database           internal/database: Migrate
--   Repos              internal/repos: the service, its rows and the directories on disk
--   Gitdata            internal/gitdata: references, trees, files and commits out of git's output
--   Mergesvc           internal/mergesvc: the git commands of a merge
--   Collab             internal/collab: Issues, Pulls, Reviews, Protection; runs of them in Trace
--   Httpapi            internal/httpapi: routes as functions from a request to a reply
--                      (Router, with the session each route asks for in Guarded)
--   Gitserve           internal/gitserve and the authorizer of cmd/gitcastle/main.go: the check of a
--                      request, the environment of git http-backend and its response
--   Webhooks           internal/webhooks: hooks, deliveries, retries and signatures
--   Ci                 internal/ci: the job store, the executor and the docker runner
--   Config             internal/config
--   Automation         internal/automation: what a push or a merge sets off, and the hook's command
--   Middleware         internal/middleware: token buckets (RateLimit), response writers (Wire), and
--                      the chain of cmd/gitcastle/main.go (Chain)
--   Scanning           internal/scanning: findings in a patch, and their previews
--   Audit              internal/audit: the audit log
--   Storage            internal/storage and internal/backup: LocalStore, and Manager with it
--   Secrets            internal/secrets: sealed values in the database
--   Tests              the theorems at concrete inputs
--
-- The model. A store's method is a function from its arguments to an `Exec`, a function from the
-- database to a result and the database afterwards. One SQL statement is one operation on the list
-- of rows, in the order of insertion; UNIQUE and ON CONFLICT are written out, a BIGSERIAL column has
-- a counter, and `NOW()` reads the clock of the state. Before each statement one Boolean of
-- `outages` is taken off: if it is true, the driver reports an error and the tables stay as they
-- are. Operations of one process at a time are interleaved as sequences of steps; PostgreSQL runs
-- each statement atomically.
--
-- Code that does not touch the database has a state of its own: the files and directories of
-- Storage.Files, whose calls fail by a list of faults and whose writes may fail after a part; the
-- schema of Database.Migrate; the response writer of Middleware.Wire. A handler behind the chain of
-- middleware is the list of what it does with its response writer.
--
-- Parameters of the model are bcrypt, SHA-256 and the random source (Auth.Crypto), AES-GCM
-- (Secrets.Store.Aead), the directories of the repositories and `git init` (Repos.Service.Os), the
-- webhook subscribers and HMAC (Webhooks.Dispatcher.Network), the regular expressions of the
-- scanner's rules, the SQL of a migration, and git and docker wherever they are called: git
-- http-backend (Gitserve.Backend.Process), the reads of Gitdata (Gitdata.Repo.Git), the merge
-- (Mergesvc.Service.Machine), `git show` (Automation.Fanout.Config), `git bundle`
-- (Storage.Backup.Bundler) and the build container (Ci.DockerRunner.Host). A route takes any merger,
-- and the executor any runner. Loops are structural recursion; the only fuel is that of
-- Gitdata.Commits.itoa, one more than the number, which has no more digits than that.
--
-- Left out: foreign keys and their cascades, the ranges of int64 columns (numbers are natural
-- numbers, required approvals integers), contexts and their cancellation, logging but for the
-- access log, JSON syntax (a decoded body is an argument, `none` where decoding fails), the rounding
-- of float64 in the rate limiter, whose tokens are counted exactly, strings that are not valid UTF-8,
-- the collation of the database, routes of a handler that lacks the store they use, the start
-- and the end of the server, the frontend, the deployment files and the SQL migrations.
pub mod Prelude
pub mod Errors
pub mod Db
pub mod Database
pub mod Exec
pub mod Auth
pub mod Repos
pub mod Gitdata
pub mod Mergesvc
pub mod Collab
pub mod Webhooks
pub mod Ci
pub mod Config
pub mod Secrets
pub mod Storage
pub mod Audit
pub mod Httpapi
pub mod Gitserve
pub mod Middleware
pub mod Automation
pub mod Scanning
pub mod Tests
