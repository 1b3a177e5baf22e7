-- ===== src/Lib.antt =====
-- A verification library of the backend of eap, an enterprise agent platform (apps/backend/app, in
-- Python). The backend keeps agents, tools and tasks of several tenants in PostgreSQL; tasks are
-- executed by workers that take jobs from a Redis queue, and agents run in a remote engine, Dify.
--
-- The parts, and the files that model them:
--   * Task: the task centre. A person asks for a transition or a retry (Task/Service, of
--     services/task_service.py); one that starts work writes an outbox row in the same commit, sends
--     a job and marks the row. A worker takes the job (Task/Worker, of workers/process_task.py), moves
--     the task on by conditional updates, calls the tool and records the outcome. Three scans
--     repair what is lost or late: Task/Reconcile and Task/Rescue (both services/task_reconcile.py)
--     send undelivered rows, and what a dead worker left behind; Task/Expiry
--     (services/task_expiry.py) cancels overdue approvals. Task/Approval
--     (services/tool_service.py) is the gate that turns a risky call into an approval task.
--     Task/System puts the operations side by side as the steps of one relation; Task/Listing is
--     the paged list of tasks, and Task/Lease the lease of one execution (services/task_lease.py).
--     Task/Model has the rows of models/task.py and models/task_outbox.py, Task/Machine the table
--     of transitions.
--   * Tool: the registry row (models/tool.py), the judgements on it, its retry policy with the budget
--     that the rescue scan derives from it (Tool/Policy), and the proxy with its circuit breaker
--     (Tool/Proxy, of services/tool_proxy.py).
--   * Auth: rotation of refresh tokens (Auth/Refresh, of auth/refresh.py), the lockout of failed
--     logins (Auth/Lockout, of auth/login_lockout.py), and the login by password that asks the
--     limiter and the lockout (Auth/LocalLogin, of auth/local_login.py and auth/tenants.py).
--   * Agent: the lifecycle of agents with optimistic locking (Agent/Lifecycle and Agent/Editing, of
--     services/agent_service.py and repositories/agent_repository.py).
--   * Member: the adjustment of a member's role and status under the tenant's lock
--     (services/member_service.py).
--   * Conversation: the adapter of Dify's event streams (Conversation/Adapter, of
--     services/dify_conversation_adapter.py): the lines of the body (Lines), the platform event of a
--     Dify event (Events), the trace for the run log (Trace), and the approval that a tool call asks
--     for. Values has Python's operations on JSON values.
--   * Knowledge: knowledge bases and the indexing of their documents. Knowledge/Rows is
--     repositories/knowledge.py on the rows of models/knowledge.py (Knowledge/Model);
--     Knowledge/Documents, Knowledge/Requests and Knowledge/Bases are services/knowledge.py, and
--     Knowledge/Files is files.py. Knowledge/Steps puts the requests side by side.
--   * RateLimit: the token bucket of a process (RateLimit/Bucket), what it promises (Levels), the
--     fallback while Redis is out of reach (Fallback), and the rules with the requests they apply to
--     (Rules, of rate_limit.py and middleware/security.py).
--   * Upload: the slots of uploads in flight and the interleavings of their requests (Upload/Slots, of
--     uploads.py).
--   * Prelude, Errors and Json: tests on numbers, tables as lists with the queries that the services
--     issue and their laws, dictionaries, error values and JSON.
--
-- How the code is read. A service method is a function from the committed tables to an answer with
-- the tables it leaves. A table is a list of rows, `UPDATE … WHERE` is `update`, its row count is
-- `count`, and a lookup by key is `find`. Where a method reads and later writes, other sessions may
-- commit in between: what they do is an argument (`before_update`, `before_claim`, `before_record`,
-- `between`), and a theorem says what it asks of it. The requests of services/knowledge.py are the
-- exception: each is one step on the tables, and transactions that run at once are not modelled; two
-- of them can each derive a knowledge base's status from rows that the other has changed but not yet
-- committed, and the status is then stale until it is next derived. What a remote part answers (the queue, Redis,
-- the HTTP client, the event bus) is an argument as well. The fields of the records in the models
-- have the names of the columns.
--
-- Bounds. Instants are natural numbers: seconds, milliseconds for the durations of the tool proxy,
-- and microseconds for the rate limit, whose fractions of tokens are exact and not
-- rounded as the source's floating-point numbers are. UUIDs are numbers. No
-- operation needs fuel: the scans recurse over their batch, which has at most 100 rows, or over
-- their at most 10 pages, the retry loop over the retries that are left, and the stream reader
-- over its chunks and lines.
--
-- Not modelled: SQL and ORM mechanics, isolation below a single statement, the text of messages
-- and logs, the scripts of the rate limit and of the lockout that run inside Redis (those of the
-- lease are modelled), the decoding of bytes, and start-up; of the services, the registration of
-- agents and members, the retrieval call, the rows of conversations, and the forms of uploads. The
-- frontend and the clients of remote services hold no state of their own to reason about.
pub mod Prelude
pub mod Errors
pub mod Json
pub mod Tool
pub mod Task
pub mod Auth
pub mod Agent
pub mod Member
pub mod Conversation
pub mod Knowledge
pub mod RateLimit
pub mod Upload
