-- ===== src/Lib.antt =====
-- A model of the backend of Aurum POS, a point of sale for jewellers, with what its services promise.
--
-- The program: a FastAPI service over PostgreSQL. A request runs in one transaction: here a function
-- from the store (`Tables.Sales.Store`, one list for each table) to an `Outcome`, and a raise gives no
-- store, as it rolls back. The worker's jobs run in transactions of their own, one function each.
-- Row identifiers, clocks, lease tokens, random draws and hashes are arguments. Row locks appear as
-- the argument that says which rows another transaction has locked, where the code skips those. The
-- tasks of a batch, which the worker runs concurrently, run one after another here.
--
-- Files, with the code that each is about:
-- - Prelude, Prelude/Tests, Prelude/Lists, Prelude/Updates, Prelude/Errors: shared names; Boolean
--   tests, lists as tables, lookups after a rewrite, and calls that raise.
-- - Text, Text/Strip: Python's `str.strip`, and `str.lower` of ASCII letters, on code points.
-- - Decimal, Decimal/Rounding: `decimal.Decimal` for the values that occur, none of them negative.
-- - Items/Kinds, Items/Catalog, Items/Tax, Items/Pricing, Items/Pricing/Bounds, Items/MetalRates,
--   Items/Schema with its children Validation, Contract and Rounded: app/modules/items/catalog.py,
--   tax.py, pricing.py, schemas.py, the CHECK constraints of models.py, and the rate conversion of
--   app/modules/metal_rates/service.py.
-- - Tables/Access, Tables/Stock, Tables/Sales, Tables/Billing: the columns of
--   app/modules/*/models.py that the services read and write.
-- - Subscriptions, Subscriptions/Resolution, Subscriptions/Limits, Subscriptions/Advertised:
--   app/modules/subscriptions/service.py.
-- - Inventory, Inventory/Weights, Inventory/Archive, Inventory/Archive/Effect,
--   Inventory/Archive/Clear, Inventory/Barcodes, Inventory/Create, Inventory/Fields, Inventory/Update
--   with its children Kinds, Kept, Weighed and Consumed: app/modules/items/service.py, all but the
--   listing of items.
-- - Sales/Cart, Sales/Cart/Amounts, Sales/Invoice, Sales/Invoice/Fresh, Sales/Lines, Sales/Checkout
--   with its children Rows, Stock, Taken, Accepted and Totals: `create_sale` of
--   app/modules/sales/service.py, with app/modules/sales/schemas.py.
-- - Sales/Requests, Sales/Requests/Replay: the idempotency key of app/modules/sales/routes.py.
--   Sales/Requests/Delivery and its children Once and Retried: the whole endpoints, with the check that
--   the shop is writable and the queueing of an invoice for WhatsApp, where checkout and the outbox meet.
-- - Jobs/Queue, Jobs/Queue/Laws: the claim that the queues of app/jobs and app/worker.py share, as a
--   record of operations on a row, and a record of laws on these. The queues for
--   invoices, e-mails, WhatsApp deliveries and Play subscriptions are such records.
-- - Jobs/Retry, Jobs/Invoices with its children Leases, Attempts and Uploads: app/jobs/invoices.py and
--   the rest of an invoice PDF's life. Jobs/Emails with its children Claims and Once:
--   app/jobs/emails.py and app/modules/notifications. Jobs/Transfers with its children Ownership and
--   Pending: app/jobs/ownership_transfers.py.
-- - WhatsApp with its children: Phone and Requests are app/modules/whatsapp/service.py, Worker is
--   app/jobs/whatsapp.py, Suppressions and Webhook are app/modules/whatsapp/routes.py. A provider's
--   answer is an argument, and so is what reading and uploading a PDF comes to; the outbox keeps the
--   deliveries whose message was sent to the provider, in the order of the calls.
-- - Billing, Billing/Owner, Billing/Entitled: app/modules/billing/service.py. Billing/Reconcile and its
--   children Paired and Released: the reconciliation with Google Play of app/worker.py.
-- - Examples and its children: the properties at concrete rows.
--
-- Units: weights in milligrams, item money and purity in thousandths, totals in paise, time in
-- microseconds. An invoice number is kept as prefix, year and sequence.
--
-- Upper and lower case: `str.lower`, `str.upper` and `str.casefold` are written out for the ASCII
-- letters, and leave the others as they are. The columns of hundredths round half up in a created item.
--
-- Fuel: the search for an invoice number runs on fuel, one round more than there are sales,
-- which is enough, since each number that is passed over is another sale. Nothing else runs on fuel.
--
-- Not modelled: the frontend, the migrations, the rendering of PDFs, labels and e-mails, the clients
-- of Google Play, S3, SES and Meta, the dashboard and the logs, authentication, the import and export
-- of inventories, and account deletion. The check of a webhook's signature, the JSON of its payload,
-- explicit nulls in payload fields that may not be null,
-- the encryption of purchase tokens, the snapshot columns of sale items, the payloads of log entries
-- and the `updated_at` columns are left out.
pub mod Prelude
pub mod Text
pub mod Decimal
pub mod Items
pub mod Tables
pub mod Subscriptions
pub mod Inventory
pub mod Sales
pub mod Jobs
pub mod WhatsApp
pub mod Billing
pub mod Examples
