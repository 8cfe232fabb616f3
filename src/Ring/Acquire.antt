-- ===== src/Ring/Acquire.antt =====
-- Which slot `try_acquire_slot` hands out, and when it hands out none.
use k180_project.Base.{
  ℕ, zero, suc, ◌+◌, ◌-◌, ◌≤◌, ◌<◌, ◌%◌, ◌≡◌, refl, sym, ◌∙◌, ap, Bool, true, false, List, [], ◌∷◌,
  Option, none, some, length, get_or, set, arith, Option-cases, inl, inr, if◌then◌else◌, ◌==◌, ◌≢◌,
}
use native.Mathlib.Nat.{mod-eq_of_lt, mod-eq-sub-mod}
use native.Mathlib.Decide.{dec_lt}
use k180_project.Ring.{
  FrameRing, take_flag, count_now, raise_max, find_free, count_acquire, acquire_from,
  try_acquire_slot, release_slot,
}
use k180_project.Ring.Inv.{IsValid, flags, find_free-clear, get_or-length, flags_of}

-- A search that finds nothing has seen every flag on its way set.
find_free-none :
    (fs : List Bool) (slots start k left j : ℕ)
    → find_free fs slots start k left ≡ none
    → k ≤ j
    → j < k + left
    → get_or fs ((start + j) % slots) true ≡ true
unfolding find_free
find_free-none fs slots start k zero j e h h' = absurd (omega arith)
find_free-none fs slots start k (suc left) j e h h' = ground (
  arith,
  find_free-none fs slots start (k + 1) left j,
  ap (λ i. get_or fs ((start + i) % slots) true) {x = k} {y = j},
)

-- The walk round the ring comes to every index.
reach :
    (slots start i : ℕ)
    → start < slots
    → i < slots
    → (j : ℕ) × (j < slots) × ((start + j) % slots ≡ i)
reach slots start i h h' = elim (dec_lt i start) [
  | yes lt ↦ (i + slots - start, omega arith, wrap lt)
  | no ge ↦ (i - start, omega arith, straight ge)
]
  where
    wrap : i < start → (start + (i + slots - start)) % slots ≡ i
    wrap lt =
        ap (λ k. k % slots) {x = start + (i + slots - start)} {y = i + slots} (omega arith)
        ∙ mod-eq-sub-mod {n = i + slots} {m = slots} (omega arith)
        ∙ ap (λ k. k % slots) {x = i + slots - slots} {y = i} (omega arith)
        ∙ mod-eq_of_lt h'

    straight : ¬ (i < start) → (start + (i - start)) % slots ≡ i
    straight ge =
        ap (λ k. k % slots) {x = start + (i - start)} {y = i} (omega arith) ∙ mod-eq_of_lt h'

find_free-full :
    (fs : List Bool) (slots start i : ℕ)
    → find_free fs slots start 0 slots ≡ none
    → start < slots
    → i < slots
    → get_or fs i true ≡ true
find_free-full fs slots start i e h h' =
    let (j, lt, at) = reach slots start i h h' in
    ap (λ k. get_or fs k true) (sym at)
    ∙ find_free-none fs slots start 0 slots j e (omega arith) (omega arith)

-- What a caller sees of `try_acquire_slot`: a slot that nobody held and that is now held, all others
-- as they were; or no slot, because all of them are held, and no flag changed.
pub data Outcome (fs : List Bool) : Option ℕ → List Bool → Type 0 where
  lends :
      (i : ℕ) (fs' : List Bool)
      → i < length fs
      → get_or fs i true ≡ false
      → fs' ≡ set fs i true
      → Outcome fs (some i) fs'
  full :
      (fs' : List Bool)
      → ((i : ℕ) → i < length fs → get_or fs i true ≡ true)
      → fs' ≡ fs
      → Outcome fs none fs'

acquire_from-Outcome :
    (r : FrameRing) (fs : List Bool)
    → r.inuse ≡ some fs
    → r.slots ≢ 0
    → IsValid r
    → Outcome fs (acquire_from r fs).1 (flags (acquire_from r fs).0)
unfolding acquire_from count_acquire take_flag count_now raise_max
acquire_from-Outcome r fs e nz v = elim (Option-cases (find_free fs r.slots r.wr 0 r.slots)) [
  | inl none_free ↦
      rw (none_free, acquire_from)
        (full (flags r)
          (λ i h.
            find_free-full fs r.slots r.wr i none_free (omega arith)
              (omega (arith, v.sized, ap (λ o. length (flags_of o)) e)))
          (ap flags_of e))
  | inr (i, found) ↦
      let clear = find_free-clear fs r.slots r.wr 0 r.slots i found in
      rw (found, acquire_from, count_acquire) (lends i _ (get_or-length fs i clear) clear refl)
]

-- On a valid ring with slots, `try_acquire_slot` lends a slot that nobody held and marks that one
-- only, or every slot is held and no flag changes.
pub try_acquire_slot-Outcome :
    (r : FrameRing)
    → IsValid r
    → r.slots ≢ 0
    → Outcome (flags r) (try_acquire_slot r).1 (flags (try_acquire_slot r).0)
unfolding try_acquire_slot
try_acquire_slot-Outcome r v nz = elim (Option-cases r.inuse) [
  | inl e ↦ absurd (nz (sym v.sized ∙ ap (λ o. length (flags_of o)) e))
  | inr (fs, e) ↦
      let zero_test : (r.slots == 0) ≡ false = ground arith in
      simp (zero_test, e, try_acquire_slot) (acquire_from-Outcome r fs e nz v)
]

get_or-set-false :
    (fs : List Bool) (i j : ℕ)
    → get_or (set fs i false) j false ≡ (if i == j then false else get_or fs j false)
get_or-set-false [] i j = ground arith
get_or-set-false (b ∷ fs) zero zero = refl
get_or-set-false (b ∷ fs) zero (suc j) = ground arith
get_or-set-false (b ∷ fs) (suc i) zero = ground arith
get_or-set-false (b ∷ fs) (suc i) (suc j) = ground (arith, get_or-set-false fs i j)

-- A release of a slot of the ring clears its flag and no other.
pub release_slot-flags :
    (r : FrameRing) (i j : ℕ)
    → i < r.slots
    → get_or (flags (release_slot r i)) j false
      ≡ (if i == j then false else get_or (flags r) j false)
unfolding release_slot
release_slot-flags r i j h = ground (arith, get_or-set-false (flags r) i j)
