-- ===== src/Lib.antt =====
-- ERP-ALL is a multi-team ERP for cross-border shops: FastAPI services over PostgreSQL, a scheduler,
-- and scraping workers. This library models the services' own protocol logic and proves what makes it
-- right. A table is a list of rows, a statement of SQL is a look-up, an update or a delete over that
-- list, and an operation is a function from the tables to the tables with its reply; an error that
-- rolls its transaction back leaves the tables out. Numbers are naturals, times whole seconds or
-- milliseconds, texts native strings or their code points.
--
-- - Prelude: shared names, Boolean tests, table operations (Prelude/Lists, Prelude/Rows, Prelude/Keys),
--   relations between all pairs of rows (Prelude/Pairs), tables that grow (Prelude/Growth), numbers of
--   rows (Prelude/Counts), ORDER BY and LIMIT (Prelude/Sorting), results (Prelude/Results), integers,
--   texts.
-- - Automation (backend/src/erp/core/automation.py): `view_policy`, `FLOWS`, `resolve_mode`.
-- - Refund (backend/src/erp/aftersale/refund.py): `create_request`, `decide_request`; it reads its level
--   from Automation.
-- - Outbox (backend/src/erp/channel/outbox.py): `enqueue`, `claim`, `complete`, `release_claim`,
--   `resolve_verify`, `sweep_expired`, `pick_next`, and the first transaction of `execute_command`. What
--   concurrent workers do is a list of operations (`Outbox.Queue.run`).
-- - Gtin (backend/src/erp/listing/gtin.py): the format and the check digit of an article number (Gtin,
--   Gtin/Sums, Gtin/Checksum), the pool and `import_batch` (Gtin/Pool, Gtin/Imports), `hold_one`,
--   `mark_used`, `release` and runs of them (Gtin/Occupation, Gtin/Moves, Gtin/Exclusive).
-- - RateLimit (backend/src/erp/channel/gateway/rate_limiter.py): the bucket of the class `GCRA`
--   (RateLimit, RateLimit/Spacing), the table and the registry (RateLimit/Registry), and
--   runs of `gate` and of the responses' headers over all keys (RateLimit/Gates, RateLimit/Isolation).
-- - Idempotency (backend/src/erp/core/idempotency.py): the transactions of `run_idempotent`, whole calls,
--   and any interleaving of concurrent ones (Idempotency/Tracking, Idempotency/Replay,
--   Idempotency/Retry).
-- - OrderChecks (backend/src/erp/order/checks.py): the check on addresses (OrderChecks,
--   OrderChecks/Phishing), the other checks and `_upsert_check` (OrderChecks/Run, OrderChecks/Upsert), and
--   `run_order_checks` (OrderChecks/Orders, OrderChecks/Flags).
-- - ProductDelete (backend/src/erp/catalog/delete.py): `delete_product`, its guards (ProductDelete/Guards)
--   and what it leaves (ProductDelete/Effect); it gives numbers back through Gtin's `release`.
-- - Pricing (backend/src/erp/pricing/engine.py): `compute_price`, `compute_price_clamped` and
--   `guard_manual_price` (Pricing, Pricing/Bands).
-- - ScrapeQueue (backend/src/erp/scrape/service.py): jobs (ScrapeQueue), nodes and `reclaim`
--   (ScrapeQueue/Tasks), `product_upsert` (ScrapeQueue/Products), `pull_tasks`, `release_tasks` and
--   `submit_result` (ScrapeQueue/Leases), and any list of these operations (ScrapeQueue/Runs). The life
--   cycle of a task is a step relation (ScrapeQueue/Lifecycle); ScrapeQueue/Accounts relates the counters
--   of a job to its rows, ScrapeQueue/Tables is the invariant, and Reclaims, Pulls, Submits, Creates and
--   History show that each operation keeps it. Outcomes, Fence, Order, Requests and Attempts are what
--   follows for callers.
-- - Procurement (backend/src/erp/order/procurement.py, backend/src/erp/order/dispatch.py): the tables and
--   the guard `_order_block_gate`, which reads its level from Automation (Procurement), `create_po`,
--   `assign_po`, `assign_po_to_buyer_account`, `claim_po` (Procurement/Manual), `backfill_po`,
--   `exception_po`, `release_po`, `plugin_manual_backfill` (Procurement/Release), and
--   `claim_tasks_for_account` (Procurement/Dispatch). Procurement/Book is the invariant, Keeps and History
--   show that the operations keep it, Outcomes, Cap and Guards are what follows. The unique index
--   `uq_po_active_dispatch` is part of the two statements that it can stop.
-- - Compliance (backend/src/erp/compliance/assertion.py): the ledger of assertions, the six blacklists and
--   `project_subject` (Compliance), `record_assertion`, `revoke_assertion`, `decide_assertion`,
--   `revoke_by_source_ref` (Compliance/Ledger), `rebuild_canonical` (Compliance/Rebuild) and any list of
--   these (Compliance/Runs). Compliance/Project is what a projection does to its subject and to the others;
--   Agree, Repair and History are what follows.
--
-- Nothing here needs fuel: every loop of the modelled code goes over a list. What the code takes from
-- elsewhere is an argument: SHA-256 over a payload, `str.lower` and `str.upper`, the gateway's check, the
-- parsing of a written time, float arithmetic and `SequenceMatcher.ratio`, and which free row a SELECT
-- without an order yields. Not modelled: HTTP, logging, row-level security, the columns that only say who
-- and when, the language-model and page-parsing code, the frontend and the migrations.
pub mod Prelude
pub mod Automation
pub mod Refund
pub mod Outbox
pub mod Gtin
pub mod RateLimit
pub mod Idempotency
pub mod OrderChecks
pub mod ProductDelete
pub mod Pricing
pub mod ScrapeQueue
pub mod Procurement
pub mod Compliance
