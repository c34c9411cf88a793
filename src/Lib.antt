-- ===== src/Lib.antt =====
-- stock-mgt: the stock, sales and payments rules of a shop's back end (TypeScript, NestJS, Prisma over
-- PostgreSQL), modelled and proved.
--
-- The program. A shop's goods are counted in a ledger: every change of stock is a movement of a lot of
-- a product at a place, and a balance for each product, option, place and lot is kept beside the
-- movements. Goods come in with lots of their own and go out first expired, first out. Sales price
-- their lines with the tax inside, take payments that are split over invoices, and may be corrected
-- afterwards. Amounts of money are whole minor units (kobo), signed.
--
-- The parts, by file. Names of the source in camelCase are in snake_case here.
--   Prelude/*            numbers, integers, lists, `Array.sort` as a stable sort, `Math.round` as exact
--                        rounding with halves up, results that may be an exception
--   Money, Money/Tax     src/common/money/money.ts and the bound of is-money.validator.ts
--   Catalog/Variants     checkVariant of src/modules/catalog/variants.ts
--   Inventory/Fefo       src/modules/inventory/fefo.ts; Order and Cover prove sortFefo and allocateFefo
--   Inventory/DeliveryFee
--                        src/modules/inventory/delivery-fee.ts
--   Inventory/Stock/*    src/modules/inventory/stock.service.ts: Tables the rows and inputs, Writer the
--                        database as a parameter, Calls the calls that may throw and the transaction,
--                        Service recordInbound and the guards, Outbound recordOutbound, Lots
--                        recordNewLots, Options moveIntoVariant; Ledger says what the balances and the
--                        movements of a key add up to; Reach is the requests as a step relation; Memory
--                        is a database in memory that keeps the promises of Writer. OnHand sums over
--                        the lots of a place, and Refine is the abstract shop that the ledger refines
--   Inventory/Stock/Operations
--                        adjust and transfer of src/modules/inventory/stock-operations.service.ts, as
--                        clients of Service and Outbound
--   Inventory/Stocktake/*
--                        src/modules/inventory/stocktake.service.ts: Rows the tables and reads, Count
--                        the requests that change a count alone, Post the one that changes the stock;
--                        the other children prove what they do
--   Inventory/Locations/*
--                        src/modules/inventory/location.service.ts: the reads, and Writes; Default and
--                        Resolve prove what they keep
--   Catalog/Units        resolveProductUnit of src/modules/inventory/base-units.ts
--   Catalog/Pricing      src/modules/catalog/pricing.ts
--   Common/Idempotency   src/common/idempotency/idempotency.interceptor.ts: the requests that carry one
--                        key as a step relation over the statements of claim, complete and release
--   Inventory/DeliveryCorrection
--                        src/modules/inventory/delivery-correction.ts
--   Payables/Balance     src/modules/payables/balance.ts
--   Reports/StockSummary src/modules/reports/stock-summary.ts
--   Reports/Profit, Reports/Growth
--                        src/modules/reports/profit.ts and growth.ts
--   Cash                 src/modules/cash/cash.ts
--   Reports/StockAlerts  src/modules/reports/stock-alerts.ts
--   Payments/Allocation, Payments/Balance
--                        src/modules/payments/allocation.ts and balance.ts
--   Sales/Pricing, Sales/Correction
--                        src/modules/sales/sale-pricing.ts and sale-correction.ts; Payments is how
--                        sale-correction.service.ts writes the payment that follows a plan
--   Tests/*              runs at concrete inputs
--
-- How the source is read. Numbers that the source checks to be whole are integers, or native numbers
-- where a validator keeps them at zero or more; `Math.round((a * b) / c)` is the exact quotient
-- rounded, which is what doubles give while the products stay below 2^53 (amounts fit an int4 column
-- and rates are basis points). Ids are numbers in the order of `localeCompare`, times are milliseconds
-- since 1970, a text is the list of its code points. The messages of exceptions are left out and their
-- classes kept. Loops are structural recursion over the array that the source walks, so there is no
-- fuel and every function is total.
--
-- The database is no code of the repository, so the operations of the stock service take a
-- `StockWriter`, which is what the service asks of it, and `IsDatabase` states what the database
-- documents: inserts add their rows or fail on a unique index, an update changes and counts the rows
-- that match, and an id that the caller leaves out is minted. The tables are those of one
-- organization, which is what the tenancy extension shows. A request runs alone in a transaction that
-- undoes its writes when it throws; interleavings inside the database are not modelled, except for the
-- keys of idempotency, whose statements interleave in any order.
--
-- Not modelled: costOf and lastKnownRates of the stock service, which add up quotients in doubles, so
-- that no exact number stands for what they return; the services that read and write rows around these
-- rules (sales, receiving, payments, payables, cash), the queries behind the reports, the import of
-- products, sign-in, staff, mail, documents, controllers and transfer objects, and the web dashboard.
pub mod Prelude
pub mod Money
pub mod Cash
pub mod Catalog
pub mod Common
pub mod Inventory
pub mod Payments
pub mod Sales
pub mod Payables
pub mod Reports
mod Tests
