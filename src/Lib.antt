-- ===== src/Lib.antt =====
-- Verification of CryptoValid Open Core, a library of hash-chained ledgers, Merkle logs and
-- signed receipts. Paths are from the root of the repository.
--
-- The program's parts that are modelled, and their files:
--
-- * cryptovalid_merkle.py, the Merkle tree of RFC 6962 over the entries of a ledger: Merkle. The
--   functions keep their names (leaf_hash, node_hash, mth, inclusion_proof, verify_inclusion,
--   consistency_proof, verify_consistency, consistency_verdict; _subproof is subproof_fuel and
--   _largest_pow2_below is largest_pow2_below); a loop is a function named for it (pow2_loop,
--   shift_even, shift_odd, inclusion_loop, consistency_loop), one round of it is a step. Its
--   children hold the proofs: Split (the split point), Levels and Tree (the tree built level by
--   level), Audit and Inclusion (honest inclusion proofs), Descent, Positions and Soundness
--   (arbitrary inclusion proofs), Walk, Growth, Anchor, Subproof and Consistency (honest
--   consistency proofs), Genuine and Prefix (arbitrary consistency proofs), Commitment (roots and
--   lists of leaves), Verdicts (the three answers), Tests.
-- * verifier.py, the standalone verifier of a hash-chained ledger, from the decoded lines of the
--   file to the receipt: Entry (canonical_payload, the closed key set, `==` on decoded values),
--   Outcome (the arguments, the failures and the receipt as data), Checks (one function per loop
--   of verify_ledger: line_errors, schema_check, idx_check, link_check, ts_check, signed_count)
--   and Verifier (hash_with, detect_algo, hash_check, the tip decision in tip_branch,
--   chain_integrity in integrity, verify_ledger). Its children hold the proofs: Hashes and Chain
--   (the verdict and the definition of a ledger), Commitment and Binding (equal hashes), Prefixes,
--   Tests. Nesting is json_nesting_depth; Nesting/Depth and Nesting/Values run it over the texts
--   of json.dumps.
-- * cryptovalid_tip.py, the signed chain tip: Instant (parse_instant), Encoding (hex and
--   _b64_strict) and Tip (tip_payload, verify_tip_signature, check_tip; returns of the code in a
--   row are a list of conditions with their errors, of which the first that holds is the answer).
--   Tip/Accepted, Tip/Tails and Tip/Ledger hold the proofs; Tip/Ledger puts check_tip into
--   verify_ledger. The Ed25519 and ML-DSA-65 verifications are functions that the record Schemes
--   holds.
-- * ed25519_order.py, the refusal of keys and signatures of small or mixed order, which
--   verify_tip_signature calls: Ed25519Order (decode, encode, add, scalar_mul, key_problem,
--   r_problem, strict_problem; strict_problem_cached is the call with a key_cache), with
--   Ed25519Order/Caching on the cache.
-- * cryptovalid_checkpoint.py, the signed checkpoint of a log: Checkpoint (b64decode_strict, vkey,
--   vkey_ecdsa, parse_vkey, checkpoint_text, parse_checkpoint), Checkpoint/Notes (split_note,
--   _sig_line as sig_line, sign_note, cosign_v1, mldsa44_message, cosign_v1_mldsa44),
--   Checkpoint/Verify (verify_note; known_keys and check_lines are its loops, check_signature the
--   branches on a key's type) and Checkpoint/Proofs (ledger_checkpoint, consistency_proof_b64,
--   verify_consistency_b64). An exception is a value of NoteError. Parsed, Strict and Decimal are
--   about what the parsers take, Signed and Known about the signature schemes and the known keys, and
--   Roundtrip, Accepted and Complete about the module's promises.
-- * cryptovalid_witness.py, the witness that cosigns the checkpoints of logs: Witness (the
--   state file, the evidence file, the history file and the answers as records), Witness/Requests
--   (witness_cosign up to the lock, in screen; run is any number of requests, one after the
--   other, as the lock orders them), Witness/Cosign (_cosign_locked: check_times, observe before
--   the old-size gate, the refusals in a row in rules, then contradict, sign and commit),
--   Witness/Recording (its closures _ev, _proof, _cosigned_at, _refused) and Witness/Pending
--   (_note_future), Witness/Service (the add-checkpoint body, WitnessService), Witness/Http
--   (do_POST of serve's handler), Witness/Submit (submit_checkpoint, the client) and
--   Witness/Relying (verify_witnessed). A store goes in and out of each. Of the proofs, Frames,
--   Effects and Screens say what a request can change, Chain, Kept, Runs, Served and History are
--   about the history, Notes, Recorded, Waiting, Observed and Proof about the evidence, Trimming,
--   Invariants, Bounds, Rooted and RootedRuns about what waits and how much of it, Acceptance about the decision, Freshness and Witnessed about the
--   relying party, Submitted about the client.
-- * cryptovalid_monitor.py, the check that a ledger only grows: Monitor (run, with check_baseline,
--   compare_sizes and next_state; visits is any number of runs on versions of a ledger) and
--   Monitor/Growth. Its signed tree heads are cryptovalid_receipt.py's, in Receipts
--   (signed_tree_head, verify_sth).
-- * Python's json.dumps with sorted keys and ASCII output, which canonical_payload hashes: Json. A
--   reader of its texts is in Json/Reader and runs over them in Json/Escapes, Json/Numbers and
--   Json/Roundtrip; Json/Sorting is about sorted keys.
-- * Python's bytes are lists of numbers, in Bytes. SHA-256 and SHA3-256 are not in the repository:
--   a Digest is any function from bytes to 32 bytes, and a theorem that rests on collision
--   resistance returns the colliding pair.
--
-- Raises is a result with an exception and its do blocks, Texts what the parsers ask of strings
-- (split, rfind, partition), Utf8 the encoding, Dicts a dict as a list of pairs in the order of
-- insertion. Samples holds a digest and SampleLedger a ledger for the runs. Prelude holds the
-- shared names, the Boolean tests on numbers and the list lemmas; Bits is about the test of a
-- power of two by m & (m - 1).
--
-- Fuel: the recursions of mth, inclusion_proof and _subproof take the number of leaves, and each
-- call has fewer leaves than its caller, as both parts of a split are non-empty; the loops that
-- halve an index take the index, and the loop that doubles k from 1 takes n. The digits of a
-- number take its successor, the reader the weight of the value it reads. The loop of _note_future
-- takes the number of pending roots and of sizes: a round drops a root, or raises StopIteration at
-- a size without roots. The theorems speak of
-- the functions with their fuel given, so running out would refute them.
--
-- The line decoder stands outside verify_ledger: a decoded line is an object, another value, or
-- a refusal with its message. check_tip is an argument of verify_ledger, of which its theorems
-- assume nothing; a tip that cannot be loaded is `some none`. The algorithm names are a data
-- type, so an unsupported one cannot be asked for. A failure keeps what the message of the code
-- shows, without its wording and its cut at 120 characters; the receipt's constant texts, its
-- time and its own hashes are left out.
--
-- Sizes and indices are naturals: a negative index, which the assertion of inclusion_proof refuses
-- and verify_inclusion does not look at, has no counterpart. An AssertionError or a ValueError is
-- `none`. The isinstance tests of consistency_verdict are left out, as a size is a number by its
-- type.
--
-- Of the witness's files, a store is what _load_state gives, with every key of an entry present; the
-- history is the list of its records, each with the bytes its line takes, for the scan of the last
-- 4 MiB. An exception leaves the state file as it was, while a line of evidence that was written
-- stays. Times are arguments. The `dirty` flag only saves a write of the same state.
--
-- Not modelled: the other modules of the root directory; in the modules above, files on the disk,
-- the check of a state file that something else wrote, locks, sockets, standard output and the
-- command lines; the signature schemes, which are functions that the records Schemes and NoteKeys
-- hold, and the services.
pub mod Bits
pub mod Bytes
pub mod Checkpoint
pub mod Checks
pub mod Dicts
pub mod Ed25519Order
pub mod Encoding
pub mod Entry
pub mod Instant
pub mod Json
pub mod Merkle
pub mod Monitor
pub mod Nesting
pub mod Outcome
pub mod Prelude
pub mod Raises
pub mod Receipts
pub mod SampleLedger
pub mod Samples
pub mod Texts
pub mod Tip
pub mod Utf8
pub mod Verifier
pub mod Witness
