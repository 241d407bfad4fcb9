-- ===== src/Lib.antt =====
-- JobHound: its durable outbox, the transport of its digests, the journal of outcomes, and the budgets
-- that its collection of job offers draws from.
--
-- The outbox (jobhound/delivery_outbox.py) keeps reviewed revisions of a subject and the cards that
-- are to be sent about them. Outbox models the SQLite tables as a record of lists (Outbox/Rows), each
-- method of `DeliveryOutbox` as an action that reads and changes the tables and may raise
-- (Outbox/Monad), and `transaction` as the rollback of what a raising body did:
--   * Outbox/Queries, Outbox/Identity: the shared queries, aliases and the legacy crosswalk;
--   * Outbox/Revise, Outbox/Enqueue: `revise` with the superseding of unsent cards, and `enqueue`;
--   * Outbox/Leases, Outbox/Settle: `claim_next`, `begin_send`, `_expire`, `finish`, `reconcile`,
--     `_accept`, the rollback receipts;
--   * Outbox/Adoption, Outbox/Dispatch: the legacy import and adoption, and `dispatch_fake`.
-- A method is a `Triple` or a `Keeps` of an invariant (Outbox/Triples, Outbox/Keeps), by rules for the
-- monad's operations; Outbox/Soundness and its children show them for one invariant of the tables,
-- method by method, and Outbox/History for every list of calls of the outbox on a new one, without those
-- of the transport below, which writes the same intents.
--
-- The transport (jobhound/delivery_transport.py) freezes cards of the outbox into an envelope of parts,
-- and sends the parts one at a time. It shares the outbox's tables and its monad:
--   * Envelopes/Reads, Envelopes/Writes: the queries and the shared writes of `DigestTransport`;
--   * Envelopes/Claims, Envelopes/Settling: `claim`, `begin_part`, `expire_leases`; `finish_part`,
--     `reconcile_part`, `abandon`;
--   * Envelopes/Summaries, Envelopes/Drafts: `prepare`, with the checks of the run that it summarises;
--     Envelopes/Reissue: `prove_unsent_draft` and `reissue_unsent`;
--   * Envelopes/Runs: `inspect`, `ready_envelopes`, `plan_dispatch`, `dispatch_envelope` and
--     `deliver_destination`, with the sender, the tokens and the clock as arguments;
--   * Envelopes/Chunks: the cut of a text into parts (jobhound/notify/telegram.py);
--   * Envelopes/Overflow: the lines of the email on jobs without a card.
-- Envelopes/Quiet, Envelopes/Keys and Envelopes/Sends say what a call leaves alone and how sends are
-- accounted for; Envelopes/Methods, Envelopes/Settled and Envelopes/Drafted keep the account, and
-- Envelopes/Traces is about every sequence of calls, Envelopes/Plans, Envelopes/Dispatched and
-- Envelopes/Delivered (by Envelopes/Returned) about a plan, a dispatch and a run, and
-- Envelopes/Cutting, Envelopes/Counted and Envelopes/Listed about the texts.
--
-- A run collects under a `RunBudget` (jobhound/bounded_transport.py) and, where it has a reviewed plan
-- of sources (jobhound/source_policy.py), under a `SourceBudget` (jobhound/source_budget.py), which
-- shares the tables of the run budget:
--   * Source/Plan: the plan and its validator; Source/Admission: what the validator promises;
--   * Source/Rows, Source/Work, Source/Requests: the tables, the reservation of inspections and
--     searches, and the reservation, finishing and cooling down of requests;
--   * Source/Ceilings, Source/Within, Source/Bounded, Source/Reached: the plan's ceilings are kept;
--   * Source/Metering, Source/Spending: the request budget is kept; Source/Cooling: what a cooldown
--     refuses;
--   * Source/Checks, Source/Streak: reviewed checks, and the cadence signal of `source_value_report`;
--     Source/Streak/Uninterrupted: the same streak, said without a running tally.
-- Each request goes through `BoundedTransport` (jobhound/bounded_transport.py), which reserves it and
-- holds two semaphores until its `LimitedStream` is closed:
--   * Transport/Stream: the reading of a body, with zlib as a parameter; Transport/Exchange: the request,
--     its bookkeeping and the closing of the stream, by what the waits come to;
--   * Transport/Bytes, Transport/Gates: the bounds on the bytes, and the release of the semaphores.
--
-- What becomes of an application is kept as reviewed facts (jobhound/v41/outcomes.py):
--   * Outcomes/Events: the events, their scopes and the keys of their predicates; Outcomes/Kinds and
--     Outcomes/Supported: `supported_fact`, which refuses an event without the authority for it;
--   * Outcomes/Intakes, Outcomes/Cascades, Outcomes/Imports: `import_events`, which extends a journal;
--     Outcomes/Grouped: its dictionaries of lists;
--   * Outcomes/Projections, Outcomes/Queries: `project`; the queries of `OutcomeProjection` and
--     `compatibility_state`;
--   * Outcomes/Authority, Outcomes/Counts, Outcomes/Accounted, Outcomes/Standing,
--     Outcomes/Agreement, Outcomes/Gathered, Outcomes/Disposed: what they promise.
-- What pydantic parses is an argument there, as are JSON's quoting of a text, an event's encoding, the
-- characters of a word and the public routes.
--
-- Times are whole units of one clock, an id that SQLite gives out is one more than the largest, and a
-- table is a list in the order of its rows. Loops run over the rows that they selected, by recursion
-- on the list. Two loops have fuel: the cascade of `import_events` as much as there are pending events,
-- of which each round but the last drops at least one, and the digits of a number as much as the
-- number. The random token of a lease, the revision's fresh id and the clock are arguments; SHA-256 is a
-- parameter. The context variable that carries an inspection is an argument, and a crash of the process
-- is a call that does not come.
--
-- Not modelled: the set-up of the schemas, the rendering of digests and of their summary of a run (an
-- argument of `prepare`), `stage_delivery_run`, `stage_coverage_updates`, the receipts of a run, the
-- interleaving of several requests, `outbound_status`, and the rest of the program, which extracts,
-- ranks and renders job offers. The patterns and ranges of single fields are pydantic's.
pub mod Base
pub mod Outbox
pub mod Envelopes
pub mod Source
pub mod Outcomes
pub mod Transport
