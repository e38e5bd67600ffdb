-- ===== src/Lib.antt =====
-- Verification library of the core of OCLOB, a central limit order book whose orders stay secret:
-- a committee orders commitments, a multi-party computation matches them, every node applies the
-- published result to its copy of the private book and attests it, and settlement moves cash and
-- securities between the reservations and the accounts of the two sides of each fill.
--
-- What it follows (paths from the repository's root):
--   * rust/oclob-core/src/application_crypto.rs: Crypto. The envelope of an application signature
--     and its strict verification (`SigningKey::try_sign`, `VerifyingKey::verify_strict`).
--   * rust/oclob-core/src/lib.rs, in four parts.
--     Order: `SecretOrder::new`, `new_with_dekyx_nullifier`, `new_with_controls`, market rules and
--     the digests of controls. Order.Wire: `to_secret_wire`, `from_secret_wire` and the cursor.
--     Order.Utf8: `str::from_utf8`, as the automaton of the Unicode standard's table 3-7.
--     Order.Authority: `commitment`, `authorize_order`, `OrderAuthority::verify`.
--     Matching: `expected_batch` and `validate_public_levels`.
--     Book: `PrivateBook`. Book.Store has the two sides and their changes, Book.Roots the digests
--     and the snapshot, Book.Queries what a round reads from the book, Book.Operations the
--     steps and Book.Commands the commands that change it.
--   * rust/oclob-ordering/src/lib.rs: Ordering (policy, nodes and votes), Ordering.Certificate,
--     and Ordering.Log (`OrderingLog`, `OrderingCommittee`).
--   * rust/oclob-proofs/src/lib.rs: Proofs (the statements of a match, a cancellation and an expiry,
--     their digests and `committee_trust_root`), Proofs.Attest (`attest` and `verify` of
--     `TransitionProof`, `CancellationProof` and `ExpiryProof`) and Proofs.Binding (what settlement
--     checks of a verified transition, also `TransitionAuthorization` of optimistic.rs).
--   * rust/oclob-settlement/src/lib.rs: Settlement. Settlement.Reservations, Settlement.Fills,
--     Settlement.Remainders and Settlement.Roots have the operations of `ReservationBook`,
--     Settlement.Engine those of `SettlementEngine` on reservations, and Settlement.Batch,
--     Settlement.Rounds and Settlement.Settle `settle_batch_collaborative`. The proofs follow the
--     same line: Usage, Takes, Frees (what a change of a reservation does to what is in use),
--     Accounts and Capacities (what a fill moves, what a refresh sets), Solvency and Atomic (the
--     invariant over a fill and over a batch), Admission, Binding and Operations (over the other
--     operations), Reachable (over all histories). Names has the id and the order that a
--     reservation stands for; Admitted and Named follow them through the operations and through
--     all histories. Checked and Authorized read the guards of a batch, Receipts and Released the
--     receipts of a batch and of a release, Releasable when an order can be released, and
--     Portfolio what is left of a balance. Filled opens a round of the loop and the end of a batch
--     into their steps, which Solvency, Atomic, Spent (the spent instructions) and Refines (the
--     abstract ledger of holdings) use.
-- Base holds what the parts share, and Examples runs the theorems at small inputs.
--
-- How state is modelled. An operation of `PrivateBook` is an `Action`: from a book to its result
-- and the book after it, so that a failure in the middle of an operation shows what it changed.
-- A node's vote, the log's `append` and the committee's `certify` return the state after them in
-- the same way. A `BTreeMap` is an association list in the order of its keys, a `BTreeSet` of
-- digests a list without repetition, a `VecDeque` and a `Vec` a list. A 32-byte array is the
-- number whose big-endian bytes it is. `OrderVote`, `OrderCertificate` and `vote` take the
-- statement's fields as one record, `Statement`. The operations of `SettlementEngine` return a
-- result and the engine after it; their staged copies are values that are dropped on an error.
--
-- Machine integers. `u64` values are numbers. Where the source uses `checked_mul` and
-- `checked_add` the model returns none past 64 bits; where it subtracts unchecked, the subtracted
-- amount is a minimum that does not exceed. The unchecked additions, `sequence + 1` and the sums of
-- a level's and of the published quantities, wrap modulo 2 ^ 64, as in the release profile, which
-- sets no overflow checks. Every function is structural recursion, so nothing runs on fuel.
--
-- Not modelled. SHA-256, the hybrid signature scheme and its suite are other crates: they are the
-- fields of `Crypto.Primitives`, and `Crypto.IsCorrect` is what is relied on, namely that outputs
-- have their documented width and that a signature verifies under the key that made it. No
-- theorem rests on the hash being injective. Key generation, serde and text formatting are left
-- out. Of settlement, the group of the balance commitments, the ledgers, the zkpi packages, the
-- proof of a fill and the canonical readback are the fields of `Settlement.Batch.Rails`, of which
-- no theorem assumes anything. Its compatibility path `settle_batch`, the preparation of canonical
-- transitions and its adapters are left out, and so are the other crates (mpc, node, service, edge,
-- dekyx, demo), which call these.
pub mod Base
pub mod Crypto
pub mod Order
pub mod Matching
pub mod Book
pub mod Ordering
pub mod Proofs
pub mod Settlement
pub mod Examples
