-- ===== src/Sync/Join.antt =====
-- k180_stage_sync.h: the four-way join over a round of signals.
use Prim.Native.Nat.{bit_or}
use k180_project.Base.{
  ℕ, zero, suc, ◌+◌, ◌<◌, ◌^◌, ◌≡◌, refl, ◌∙◌, Bool, true, false, ◌||◌, ◌&&◌, arith, List, [], ◌∷◌,
  ◌==◌, ==→eq, if◌then◌else◌,
}
use k180_project.Sync.{StageEventJoin, signal_id, wait_all, proceeds, stops, waits, all_done}

-- A test of all four workers.
at_workers : (ℕ → Bool) → Bool
at_workers p = p 0 && p 1 && p 2 && p 3

worker_passes : (p : ℕ → Bool) (i : ℕ) → i < 4 → at_workers p ≡ true → p i ≡ true
unfolding at_workers
worker_passes p zero lt h = ground arith
worker_passes p (suc zero) lt h = ground arith
worker_passes p (suc (suc zero)) lt h = ground arith
worker_passes p (suc (suc (suc zero))) lt h = ground arith
worker_passes p (suc (suc (suc (suc i)))) lt h = absurd (omega arith)

-- The mask of four flags, bit 0 first.
pub mask : Bool → Bool → Bool → Bool → ℕ
mask a b c d =
    (if a then 1 else 0) + (if b then 2 else 0) + (if c then 4 else 0) + (if d then 8 else 0)

-- Whether a worker has signalled.
abbrev pub occurs : ℕ → List ℕ → Bool
occurs i [] = false
occurs i (j ∷ js) = i == j || occurs i js

pub signal_ids : StageEventJoin → List ℕ → StageEventJoin
signal_ids j [] = j
signal_ids j (i ∷ is) = signal_ids (signal_id j i) is

abbrev pub AllBelow : ℕ → List ℕ → Type 0
AllBelow n [] = Unit {0}
AllBelow n (i ∷ is) = (i < n) × AllBelow n is

or_false : (b : Bool) → (b || false) ≡ b
or_false true = refl
or_false false = refl

or_assoc : (a b c : Bool) → ((a || b) || c) ≡ (a || (b || c))
or_assoc true b c = refl
or_assoc false b c = refl

both : (Bool → Bool) → Bool
both p = p true && p false

both_sound : (p : Bool → Bool) (b : Bool) → both p ≡ true → p b ≡ true
unfolding both
both_sound p true h = ground arith
both_sound p false h = ground arith

abbrev bit_test : Bool → Bool → Bool → Bool → ℕ → Bool
bit_test a b c d i =
    bit_or (mask a b c d) (2 ^ i) == mask (a || 0 == i) (b || 1 == i) (c || 2 == i) (d || 3 == i)

bit_table : both (λ a. both (λ b. both (λ c. both (λ d. at_workers (bit_test a b c d))))) ≡ true
unfolding both at_workers mask
bit_table = refl

-- `done_mask |= 1 << i` sets flag `i`.
or_bit :
    (a b c d : Bool) (i : ℕ)
    → i < 4
    → bit_or (mask a b c d) (2 ^ i) ≡ mask (a || 0 == i) (b || 1 == i) (c || 2 == i) (d || 3 == i)
or_bit a b c d i h =
    let at_a = both_sound _ a bit_table in
    let at_b = both_sound _ b at_a in
    let at_c = both_sound _ c at_b in
    let at_d = both_sound _ d at_c in ==→eq _ _ (worker_passes (bit_test a b c d) i h at_d)

mask-signal_ids :
    (a b c d : Bool) (is : List ℕ)
    → AllBelow 4 is
    → signal_ids (record { done_mask = mask a b c d }) is ≡ record {
      done_mask = mask (a || occurs 0 is) (b || occurs 1 is) (c || occurs 2 is) (d || occurs 3 is);
    }
unfolding signal_ids signal_id
mask-signal_ids a b c d [] h = simp or_false
mask-signal_ids a b c d (i ∷ is) h =
    rw (or_bit a b c d i h.0) (
      mask-signal_ids (a || 0 == i) (b || 1 == i) (c || 2 == i) (d || 3 == i) is h.1
      ∙ simp or_assoc)

-- The mask is full exactly when all four flags are set.
mask_full : (a b c d : Bool) → (mask a b c d == all_done) ≡ (a && b && c && d)
unfolding mask
mask_full a b c d = ground arith

-- After a round's signals, by workers 0 to 3 in any order and any number of times, the joiner goes on
-- and clears the mask exactly when every one of the four has signalled; otherwise it waits and the
-- mask stays. With the stop flag set it stops, and the mask stays.
pub wait_all-signal_ids :
    (is : List ℕ)
    → AllBelow 4 is
    → let fresh : StageEventJoin = record { done_mask = 0 } in
      let j = signal_ids fresh is in
      (wait_all j false ≡ (
        if occurs 0 is && occurs 1 is && occurs 2 is && occurs 3 is
        then (proceeds, fresh)
        else (waits, j)))
      × (wait_all j true ≡ (stops, j))
unfolding wait_all mask
wait_all-signal_ids is h =
    let start : StageEventJoin = record { done_mask = mask false false false false } in
    let full = mask_full (occurs 0 is) (occurs 1 is) (occurs 2 is) (occurs 3 is) in
    let e = mask-signal_ids false false false false is h in
    (ground (arith, e, full), ground (arith, e, full))
