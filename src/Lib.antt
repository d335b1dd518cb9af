-- ===== src/Lib.antt =====
-- A verification library for the server of Envelock (Python package `src/envelock`), which reads the
-- mail and sign-in events of its customers, derives findings from them and raises alerts.
--
-- How the parts interact. The mechanisms that a mailbox is connected by decide which capabilities the
-- server has on it, and these its protection level. Detections turn an event into findings; the risk
-- engine folds the findings of one event into one assessment with a tier; the tier decides which
-- rungs of the notification ladder an alert uses, and who is told later if nobody acknowledges it.
-- A language model may be asked about an assessment in between. The pipeline does all this once for
-- each message, and then learns from it. The counterparty graph shares verdicts on domains between
-- tenants. Around this stand the polls of mailboxes and the connection broker for mail servers, the
-- dispatch of notifications, the purge of old rows, the prices and trials, and the limits that guard the
-- public endpoints.
--
-- Core.Enums models src/envelock/core/enums.py and Core.Capabilities src/envelock/core/capabilities.py
-- (`capabilities_for`, `protection_level`, `protection_advice`).
-- Detections.Base models the framework of src/envelock/detections/base.py (`register`, `active_for`,
-- `inactive_for`, `run_all`), Detections.Context its context with the events of
-- src/envelock/core/events.py, Detections.Identity and Detections.Sessions the detections of
-- identity.py and sessions.py beside it, which watch sign-ins and the settings of a mailbox, and
-- Detections.Suite their registration.
-- Detections.Triage, Detections.Attachments and Detections.Urls model
-- src/envelock/detections/cascade.py: the triage of a file, the layers that a file goes through with
-- their cache and costs, and the check of a link.
-- Risk.Engine models src/envelock/risk/engine.py: `assess` with its promotion rules.
-- Llm.Cascade models src/envelock/llm/cascade.py and gate.py beside it, which may raise an assessment.
-- Notify.Ladder models src/envelock/notify/ladder.py and Notify.Dispatch src/envelock/notify/dispatch.py,
-- which sends what the ladder has queued and runs the escalation that Platform.Alerts finds due; a run of
-- it returns the calls of the text sender that it made.
-- Security models the in-process stores of src/envelock/security/limits.py: RateLimit (`RateLimiter`),
-- Lockout (`AccountLockout`), Replay (`ReplayGuard`) and Revocations (`TokenRevocations`).
-- Mail.Broker models `EgressPool` and `ImapBroker` of src/envelock/channels/mail/broker.py.
-- Mail.ImapSync and Mail.Quarantine model src/envelock/channels/mail/imap_sync.py.
-- Governance.Retention models src/envelock/governance/retention.py, its statements in their order on tables
-- whose foreign keys the database keeps.
-- Util.Distance and Util.Lookalike model `edit_distance`, `label` and `classify_lookalike` of
-- src/envelock/util/domains.py.
-- Billing.Pricing models src/envelock/billing/pricing.py.
-- Billing.Trial models src/envelock/billing/trial.py and the three writers of the trial ledger in
-- src/envelock/api/auth.py (`_start_signup_trial`) and src/envelock/api/billing.py
-- (`confirm_payment_method`, `_activate_paid_plan`).
-- Platform.Graph models `CounterpartyGraph` of src/envelock/platform/graph.py.
-- Platform.GraphStore models src/envelock/platform/graph_store.py, which keeps that graph in the database.
-- Platform.RiskProfile models `RiskProfile` of graph.py, and Platform.Remediation
-- src/envelock/platform/remediation.py.
-- Platform.Alerts models the life of an alert in src/envelock/platform/alerts.py, from `raise_alert` to
-- `resolve`, which reports to the graph, and the sweep `due_escalations`; its database rows are the
-- record `Store`. Platform.Learning models `learn` of src/envelock/platform/pipeline.py and the bank
-- identifiers that `_counterparty_state` reads, and Platform.Pipeline `analyse_event` there, which brings
-- an event, its message, its alert and what is learned from it together.
-- Prelude holds what these share: Boolean tests, equality, lists, dictionaries and times. Each module
-- keeps the names of the functions of the source; a child module proves what its name says; a module
-- Examples runs the definitions and applies the theorems at concrete inputs.
--
-- Conventions. A set and a frozenset are lists read by membership. A dictionary is an association
-- list in insertion order. A time is a number of microseconds. The clock, which the source reads or
-- takes as an argument, is an argument. An object that the source mutates is passed in and returned.
-- Money is in cents and a rate in hundredths. No definition runs on fuel: the loops of the source are
-- recursions on the list they go through.
--
-- What is not under src/ is a parameter: the arithmetic of floats (the record `Float` of Risk.Engine
-- and, with the functions of `math`, the record `Builtins` of Detections.Context), the public-suffix
-- rules behind `registrable_domain` (`registrable`), the decimal digits of Unicode
-- (`is_decimal`), and the lower case of a text, the search for bank
-- identifiers and the printing of numbers and times (`Builtins`). So are the answers of a mail server
-- (`Server`, `QuarantineServer`), of the reputation and detonation services (`Services`), of the senders
-- of notifications (`Senders`) and of a language model behind its judge (`LlmJudge`), the rules for
-- bank identifiers and the style of a text (`PipelineRules`), and those for domains with the Unicode
-- skeleton (`DomainRules`, `TrialRules`).
--
-- Not modelled: input and output (HTTP handlers, the database, mail protocols, senders), the prose of
-- explanations where nothing reads it, cryptography, the variants of the limits that keep their state
-- in Redis, and the parts that the code calls through a network.
pub mod Prelude
pub mod Core
pub mod Risk
pub mod Notify
pub mod Security
pub mod Mail
pub mod Billing
pub mod Platform
pub mod Detections
pub mod Llm
pub mod Governance
pub mod Util
