-- ===== src/Merkle/Tests.antt =====
-- Runs of the Merkle functions on a log of five entries, and the properties at concrete inputs. The
-- digest of the runs is a checksum of 32 bytes: the functions ask no more of a digest.
use cryptovalid_opencore.Prelude.{
  ◌≤◌, ◌<◌, ◌≡◌, ◌≢◌, refl, arith, true, false, ◌⊎◌, Option, none, some, List, [], ◌∷◌, map, take,
  get_or,
}
use cryptovalid_opencore.Bytes.{Bytes, bytes_eq, Collision}
use cryptovalid_opencore.Samples.{toy}
use cryptovalid_opencore.Merkle.{
  pow2_loop, largest_pow2_below, shift_even, shift_odd, leaf_hash, node_hash, mth_fuel, mth,
  inclusion_fuel, inclusion_proof, inclusion_step, inclusion_loop, verify_inclusion, subproof_fuel,
  consistency_proof, consistency_step, consistency_loop, walk_consistency, verify_consistency,
  consistency_verdict, inconsistent,
}
use cryptovalid_opencore.Merkle.Levels.{hash_of, root, path}
use cryptovalid_opencore.Merkle.Tree.{mth-eq-root}
use cryptovalid_opencore.Merkle.Audit.{hashed, inclusion_proof-eq-path}
use cryptovalid_opencore.Merkle.Inclusion.{verify_inclusion_complete}
use cryptovalid_opencore.Merkle.Soundness.{verify_inclusion_sound}
use cryptovalid_opencore.Merkle.Walk.{AllDigests}
use cryptovalid_opencore.Merkle.Consistency.{verify_consistency_complete}
use cryptovalid_opencore.Merkle.Prefix.{verify_consistency_sound}
use cryptovalid_opencore.Merkle.Commitment.{mth-inject, append_only}
use cryptovalid_opencore.Merkle.Verdicts.{verdict_fork}

abbrev log : List Bytes
log = (10 ∷ []) ∷ (20 ∷ 1 ∷ []) ∷ (30 ∷ []) ∷ (40 ∷ 2 ∷ 3 ∷ []) ∷ (50 ∷ []) ∷ []

abbrev proof_of : Option (List Bytes) → List Bytes
proof_of none = []
proof_of (some proof) = proof

abbrev path_3 : List Bytes
path_3 = proof_of (inclusion_proof toy 3 log)

abbrev grown_3 : List Bytes
grown_3 = proof_of (consistency_proof toy 3 log)

accepts_3 : verify_inclusion toy 3 5 (40 ∷ 2 ∷ 3 ∷ []) path_3 (mth toy log) ≡ true
unfolding verify_inclusion inclusion_proof inclusion_loop inclusion_fuel inclusion_step shift_even
    largest_pow2_below pow2_loop mth mth_fuel leaf_hash node_hash bytes_eq
accepts_3 = refl

refuses_3 : verify_inclusion toy 3 5 (41 ∷ 2 ∷ 3 ∷ []) path_3 (mth toy log) ≡ false
unfolding verify_inclusion inclusion_proof inclusion_loop inclusion_fuel inclusion_step shift_even
    largest_pow2_below pow2_loop mth mth_fuel leaf_hash node_hash bytes_eq
refuses_3 = refl

grows_3 : verify_consistency toy 3 5 grown_3 (mth toy (take 3 log)) (mth toy log) ≡ true
unfolding verify_consistency consistency_proof walk_consistency consistency_loop consistency_step
    shift_odd shift_even subproof_fuel largest_pow2_below pow2_loop mth mth_fuel leaf_hash node_hash
    bytes_eq
grows_3 = refl

AllDigests-grown_3 : AllDigests grown_3
unfolding consistency_proof walk_consistency consistency_loop consistency_step shift_odd shift_even
    subproof_fuel largest_pow2_below pow2_loop mth mth_fuel leaf_hash node_hash bytes_eq
AllDigests-grown_3 = (refl, (refl, (refl, (refl, tt))))

verify_inclusion_complete_example :
    (proof : List Bytes) × (inclusion_proof toy 3 log ≡ some proof)
    × (verify_inclusion toy 3 5 (get_or log 3 []) proof (mth toy log) ≡ true)
verify_inclusion_complete_example = verify_inclusion_complete toy 3 log (omega arith)

verify_inclusion_sound_example : ((3 < 5) × (get_or log 3 [] ≡ 40 ∷ 2 ∷ 3 ∷ [])) ⊎ Collision toy
verify_inclusion_sound_example = verify_inclusion_sound toy 3 log (40 ∷ 2 ∷ 3 ∷ []) path_3 accepts_3

verify_consistency_complete_example :
    (proof : List Bytes) × (consistency_proof toy 3 log ≡ some proof)
    × (verify_consistency toy 3 5 proof (mth toy (take 3 log)) (mth toy log) ≡ true)
verify_consistency_complete_example =
    verify_consistency_complete toy 3 log (omega arith) (omega arith)

verify_consistency_sound_example :
    ((1 ≤ 3) × (3 ≤ 5) × (mth toy (take 3 log) ≡ mth toy (take 3 log))) ⊎ Collision toy
verify_consistency_sound_example =
    verify_consistency_sound toy 3 log grown_3 (mth toy (take 3 log)) AllDigests-grown_3 grows_3

mth-eq-root_example : mth toy log ≡ root toy (map (leaf_hash toy) log)
mth-eq-root_example = mth-eq-root toy log (omega arith)

inclusion_proof-eq-path_example :
    inclusion_proof toy 3 log ≡ some (map hash_of (path toy 3 (hashed toy log)))
inclusion_proof-eq-path_example = inclusion_proof-eq-path toy 3 log (omega arith)

not_the_root : [] ≢ mth toy (take 3 log)
unfolding mth mth_fuel largest_pow2_below pow2_loop leaf_hash node_hash
not_the_root e = cc

verdict_fork_example :
    (consistency_verdict toy 3 5 grown_3 [] (mth toy log) ≡ inconsistent) ⊎ Collision toy
verdict_fork_example =
    verdict_fork toy 3 log grown_3 [] AllDigests-grown_3 (omega arith) (omega arith) not_the_root

mth-inject_example : (log ≡ log) ⊎ Collision toy
mth-inject_example = mth-inject toy log log refl refl

append_only_example : (take 3 log ≡ take 3 log) ⊎ Collision toy
append_only_example = append_only toy (take 3 log) log grown_3 AllDigests-grown_3 grows_3
