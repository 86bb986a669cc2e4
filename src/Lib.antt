-- ===== src/Lib.antt =====
-- Verification of the store behind cdk-gpt: a shop that sells digital goods through a Telegram bot. Its
-- core is the API's services for money and stock, over collections of MongoDB:
--   * the wallet of a customer (apps/api/src/wallet/wallet.service.ts, and the repositories of users and
--     wallet transactions in packages/database/src/repositories): Users, Wallet;
--   * the stock (packages/database/src/repositories/inventory.repository.ts): Inventory;
--   * coupons (apps/api/src/coupons/coupons.service.ts): Coupons, with its children Listing
--     (`listAvailable`), Fields (`normalize`, `validate`) and Admin (`create`, `update`);
--   * orders (packages/database/src/repositories/order.repository.ts): Orders;
--   * purchases (apps/api/src/purchase/purchase.service.ts), which reserve stock, make orders and charge
--     the wallet in one transaction, and the sweep over expired reservations
--     (apps/api/src/inventory/inventory-reservation.service.ts), which undoes them: Purchase, with a
--     child for each: Quote (quotes and holds), Single (`purchase`), Batch (`createBatch`), Session
--     (`purchaseBatch`), Expiry (the sweeps), Split (the discount of each order).
--   * payments (apps/api/src/payment/payment.service.ts): Payment, with its children Transfers (the
--     texts of bank transfers), Bank (what a transfer does to a request), Approval
--     (`approveBankRequest` and `processBankTransaction`), Callback (a delivery of transfers),
--     Requests (`create` and `processWebhook`), Deposits (`createBankDeposit`) and Checkout
--     (`createBankCheckout`).
--   * the delivery of orders by the bot (apps/bot/src/delivery.processor.ts) and what an administrator does
--     with those that fail (apps/api/src/delivery/delivery-recovery.service.ts): Delivery, with its child
--     Recovery;
--   * the reports of customers on their orders (apps/api/src/warranty/warranty.service.ts): Warranty, over
--     collections of its own, the `Desk`, with its children Reports (`create`, `update`) and Replies
--     (`reply`, `userReply`, `messages`). Its operations are no transactions: what is written before an
--     error stays. Runs has their sequences as a step relation;
--   * the reconciliation of a bank account (apps/api/src/payment/bank-reconciliation.service.ts): Reconcile,
--     with its children Rows (`buildItem`, `walletBelongsToRow`) and Report (`reconcile`, `result`).
--   * the lines of the stock importer (packages/shared/src/index.ts): Pattern, with its child Template
--     (`parseInventoryPatternTemplate`).
--   * the original price of a product on sale (packages/shared/src/index.ts and
--     apps/api/src/product/product.service.ts): Sale.
-- A bank transfer is matched to a payment request, credited to the wallet, and spent on the checkout of the
-- request in the same transaction. A purchase calls the other components in the transaction that it opens; all
-- share the collections.
--
-- Store.Model has the documents as records, an `Option` for a field that may be missing, and the
-- database `Db`, a list for each collection, with the clock, the next ObjectId and the random texts.
-- Store.Monad has the transactions: `Tx A` takes a database and commits a value and a new database, or
-- throws an `Error` and leaves the old one. `findOneAndUpdate` is `find_and_update` of Prelude,
-- `updateMany` is `update_all`. Unique indexes are tests before an insertion. Store.Rules has the
-- rules by which a statement about a transaction that commits is taken through its steps.
-- Names follow the source in snake case; `credit` of WalletService is `credit_change`, since the
-- repository has a `credit` too, `create` of the order repository is `create_order`, and `purchase`
-- is `purchase_one`.
--
-- Bounds. A loop over a quantity is recursion on the number of units left, one over a list on the list:
-- no fuel is needed. `decimal` of Prelude takes as fuel the number itself plus one, more than its
-- digits. JavaScript numbers are `Number`: an integer, or any other value, which each guard refuses;
-- amounts behind `Number.isSafeInteger` are natural numbers. The discount is computed by BigInt in the
-- source, so no rounding is lost in the model. The ids of messages are hashes of texts; in the model the
-- texts, of which no two are taken to have one hash, are the ids.
--
-- Not modelled: transactions that run at once (MongoDB makes those that conflict run one after the other;
-- the catch clauses that look again after a duplicate key are modelled, but as nothing comes between, they
-- find nothing new), the times of creation and of the last update of documents other than payment requests
-- and messages, the trimming of texts by schemas (reasons and keys of wallet transactions are taken to be
-- trimmed), the messages to the queues after a commit, the metadata that no operation reads, the lengths
-- that schemas allow to texts, the user interfaces, analytics, authentication and encryption.
pub mod Prelude
pub mod Store
pub mod Users
pub mod Wallet
pub mod Warranty
pub mod Inventory
pub mod Coupons
pub mod Orders
pub mod Purchase
pub mod Payment
pub mod Tests
pub mod Pattern
pub mod Sale
pub mod Reconcile
pub mod Delivery
