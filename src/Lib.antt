-- ===== src/Lib.antt =====
-- TailorERP: a model of the order, stock, money and tax logic of the API (apps/api/src) and of the
-- tables that its applications share (packages/shared/src).
--
-- The program. A NestJS service over PostgreSQL. A sale makes an order, holds metres on a roll of
-- fabric and takes a deposit; the garments of the order go through the workshop as tickets; cutting
-- takes the held metres off the roll; the last payment closes the order. Every payment is posted to a
-- double-entry ledger with its VAT, and an invoice carries a ZATCA QR code. A handler is reached
-- through the permissions guard.
--
-- The model. A handler is a function from the rows that it reads and its arguments to a `Result`: the
-- rows that it writes, or the class of the exception. A database transaction that throws leaves its
-- tables as they were, so an error carries no state. The CHECK constraints of the migrations are part
-- of the writes. A UUID is a number. Money and metres are integers of hundredths (`Decimal` of
-- Prelude/Int.antt), as in the `Decimal(n, 2)` columns. Handlers run one after
-- the other. Where the code locks the rows that a transaction shares with others this is what it does;
-- where it does not, as in a booking or the rotation of a token, it is an assumption.
--
-- The parts, by file:
--   Prelude      integers, results, Boolean tests and list lemmas that the other files share.
--   Common       apps/api/src/common/counter.service.ts: the numbers of orders and invoices.
--   Inventory    apps/api/src/inventory: the stock tables and their CHECKs. Inventory/Fifo is
--                FifoService.consume, Inventory/Holds is ReservationService, Inventory/Yield is
--                YieldService with computeYield of apps/api/src/pos/pos.service.ts;
--                Inventory/Warehouse is InventoryService, whose transfer asks the feature gate, with
--                consumeExplicit of orders.service.ts; Inventory/Trail follows the movements of the
--                rolls through all of these.
--   Ledger       apps/api/src/ledger/ledger.service.ts: post; Ledger/Posting is postDeposit and
--                postSettlement, Ledger/Trial is ensureChartOfAccounts and trialBalance.
--   Zatca        apps/api/src/zatca: Zatca/Vat is zatca-vat.ts, Zatca/Tlv is zatca-tlv.ts,
--                Zatca/Chain is findChainBreak of zatca-hash.ts, Zatca/Issue is issue, allocateChainSlot and
--                verifyChain of zatca.service.ts.
--   Orders       apps/api/src/orders/orders.service.ts: updateStatus and addPayment; Orders/Settle is
--                `settle` of pos.service.ts, which pays, hands over and posts in one transaction.
--   Pos          `checkout` of apps/api/src/pos/pos.service.ts: prices and yields, the order, the holds of
--                Inventory, the deposit of Ledger and the numbers of Common, in one transaction.
--   Workshop     apps/api/src/workshop/workshop.service.ts: createTicketsForOrder, moveTicket and
--                checkOrderReady, over the stock of Inventory and the orders of Orders.
--   Shared       packages/shared/src: Shared/OrderStatus is order-status.ts, Shared/Permissions is
--                permissions.ts and roles.ts.
--   Auth         apps/api/src/auth: Auth/Guard is guards/permissions.guard.ts, Auth/Tokens the refresh
--                tokens of token.service.ts, Auth/Otp the one-time codes of otp.service.ts.
--   Platform     apps/api/src/platform: the feature gate with its cache, subscriptions and plans;
--                Platform/Webhook is the webhook of apps/api/src/billing/stripe.service.ts.
--   Appointments apps/api/src/appointments: slots, bookings and their changes.
--
-- Fuel. `decode_loop` of Zatca/Tlv has the length of the buffer as fuel: each round drops two bytes or
-- more. `slots_loop` of Appointments has two rounds more than the half hours of the day: each round moves
-- the slot by one. Every other loop runs along a list.
--
-- Parameters. The UTF-8 and base64 encodings of `Buffer.from` are the record `Encoding`; the keys that
-- the database draws are arguments. So are the hash of a refresh token, the client of Stripe, the Date
-- library's setHours and weekday, the hash and the QR code of an invoice document, and the time of a posting. In Platform Redis is a table of keys, and the
-- expiry of a key is a step that may happen at any time; in Auth/Otp it is a parameter with the laws
-- that its documentation gives.
--
-- Not modelled. Audit rows, notifications, queues, HTTP, storage, PDF and XML, signatures and
-- certificates; queries that only read; the four applications under apps that call the API; and the
-- services for customers, measurements, teams and invitations, stores, stock alerts, the sign-in of the
-- staff and the dashboard under apps/api/src.
pub mod Prelude
pub mod Common
pub mod Shared
pub mod Auth
pub mod Inventory
pub mod Zatca
pub mod Ledger
pub mod Orders
pub mod Workshop
pub mod Platform
pub mod Appointments
pub mod Pos
