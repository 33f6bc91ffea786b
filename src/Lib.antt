-- ===== src/Lib.antt =====
-- AI-SRE investigates alerts: a webhook stores an alert, deduplicates it and queues an investigation;
-- a worker runs the investigation through a pipeline of stages, which ask a language model and its
-- tools under a budget, and keeps a report of it.
--
-- The parts, with the files that model them and the code they are about (under src/ai_sre):
--   Prelude, Prelude/*         shared names, Boolean tests, lists and dictionaries
--   Json                       the values of Python's json
--   Action, Action/*           exceptions.py, and methods that change state and may raise
--   Budget, Budget/Guards      core/investigation/budget.py
--   Context                    core/investigation/context.py
--   Tools, Tools/Accounting    llm/tools/__init__.py: ToolRegistry, ToolDispatcher
--   Gateway, Gateway/*         llm/gateway.py: chat, the retries, tool_loop
--   RateLimit, RateLimit/*     middleware/rate_limit.py
--   Database                   models/*.py: the tables, as one record of lists of rows
--   Repository, Repository/*   core/_base/repository.py, core/alert/repository.py,
--                              core/investigation/repository.py, core/service/repository.py
--   Pipeline                   core/investigation/pipeline.py, and what an orchestrator is given
--   StageRuns, Orchestrator, Orchestrator/*   core/investigation/orchestrator.py
--   Alert, Alert/*             core/alert/service.py, core/alert/fingerprinter.py
--   Triage, Triage/Sound       core/investigation/stages/triage.py
--   Backtest, Backtest/Run     core/investigation/backtest.py
--   ApiKeys, ApiKeys/*         core/tenant/api_key_service.py, core/tenant/repository.py
--   Queries, Queries/*         connectors/base.py, connectors/newrelic/queries.py,
--                              connectors/prometheus/queries.py
--   Stages, Stages/*           core/investigation/stages: hypothesis.py, validation.py, report.py,
--                              context_assembly.py
--   Crypto, Crypto/*           utils/crypto.py, utils/webhook_signature.py
--   Integrations, Integrations/*   core/integration/repository.py, core/integration/service.py,
--                              models/integration.py
--   Connectors, Connectors/*   connectors/registry.py, connectors/base.py, connectors/prometheus,
--                              connectors/newrelic
--   Webhooks, Webhooks/*       api/alerts.py, schemas/alert.py
--   Services, Services/*       core/service/*.py, models/service.py
--   Auth, Auth/*               api/deps.py: the checks of the Authorization header
--   Workers, Workers/*         workers/app.py: health checks, refreshes and their fan-out
--   Chunker, Chunker/*         core/knowledge/chunker.py
--   Knowledge, Knowledge/*     core/knowledge/repository.py, core/knowledge/service.py,
--                              models/knowledge.py
--   Tests, Tests/*             the theorems at concrete inputs
--
-- How they interact: Alert.ingest and Backtest write the tables through Repository and append to the
-- queue, which is the field `jobs` of the tables. Orchestrator.run takes a job's investigation, builds
-- a Context with a fresh Budget, runs the stages and writes their rows. A stage acts on the context:
-- it calls Gateway.chat and Gateway.tool_loop, which ask Budget first, and the loop dispatches the
-- tools of the model through Tools.dispatch, which counts each call in the Budget and stores it. The
-- registry of connectors reads the rows of Integrations and decrypts them with Crypto, and Services
-- asks it for a backend. Webhooks reads a secret of Integrations, checks a signature with Crypto and
-- hands the alerts to Alert.ingest. Auth asks ApiKeys who a key belongs to; Workers checks the
-- connectors of Integrations and queues the refreshes of Services; Knowledge splits with Chunker.
--
-- State is passed explicitly: a method that may raise is an Action, from a state to a result and the
-- state that it leaves, on the raising path too. `W` is the state of what lies outside (the clocks, the
-- provider, the backends), and the context carries it. The names are the source's, without a leading
-- underscore.
--
-- Numbers: identifiers are natural numbers in place of UUIDs; money is counted in a fixed small unit of
-- a dollar and clock readings in milliseconds, so that the sums of the source are exact; a limit of 0 of
-- the rate limiter stands for any limit that is not above 0. Subtraction of a window from a clock stops
-- at 0. The loops over stages, alerts, rows and tool calls are recursions over their lists, and the
-- rounds of the tool loop over their number, so no fuel is needed.
--
-- Parameters, not definitions: the provider and tenacity's retrying (with the laws of
-- Gateway.Retry.Retries where a theorem needs them), the reading and printing of JSON, the hash, the
-- handlers of the tools, the stages of a run, the knowledge base, the delivery channels, the texts of
-- exceptions, the texts of numbers and identifiers, Python's strip, upper and lower, and the
-- classes of characters of its regular expressions; of the splitting of a text, Python's splitlines,
-- split and re.split; the texts of the prompts and pydantic's validation; the cipher, the digests and
-- base64, the embeddings and their distance, the fetching of a runbook, the counter of tokens (with
-- the law of Chunker.Bounds.Estimates, which the default counter has); the replies of the metric
-- backends (with the laws of Crypto.Blobs.Authentic and
-- Crypto.Signed.Hexadecimal where a theorem needs them).
--
-- Not modelled: logs, spans and metrics; the rest of the HTTP API, the queue's
-- transport; the fetching of runbooks and the embedding model; delivery, tenants and feedback;
-- the catalog and the topology in the context; the raw payloads of alerts; the transactions of the
-- database, so that a failing query is not an outcome here, but for the unique constraints of
-- integrations, services, catalogs and dependencies.
pub mod Prelude
pub mod Integrations
pub mod Json
pub mod Action
pub mod Budget
pub mod Chunker
pub mod Connectors
pub mod Webhooks
pub mod Services
pub mod Auth
pub mod Workers
pub mod Knowledge
pub mod Context
pub mod Stages
pub mod Tools
pub mod Gateway
pub mod RateLimit
pub mod Crypto
pub mod Database
pub mod Repository
pub mod Pipeline
pub mod StageRuns
pub mod Orchestrator
pub mod Alert
pub mod Triage
pub mod Backtest
pub mod Queries
pub mod ApiKeys
pub mod Tests
