-- ===== src/Ring/Inv.antt =====
-- k180_gst_ringbuf.h: what holds of the frame ring between calls.
use k180_project.Base.{
  ℕ, zero, suc, ◌+◌, ◌≤◌, ◌<◌, ◌≡◌, refl, Bool, true, false, List, [], ◌∷◌, Option, none, some,
  length, get_or, set, replicate, length-set, length-replicate, arith, Bool-cases, Option-cases,
  inl, inr, if◌then◌else◌, leb, ◌==◌, ◌⊎◌, u32_mod,
}
use k180_project.Ring.{
  FrameRing, init, find_free, count_acquire, acquire_from, try_acquire_slot, release_in,
  release_slot, take_flag, count_now, raise_max, clear_flag, drop_now, wrap_slot_as_buffer,
}

-- How many slots are lent.
abbrev pub lent : List Bool → ℕ
lent [] = 0
lent (true ∷ fs) = suc (lent fs)
lent (false ∷ fs) = lent fs

pub lent-le : (fs : List Bool) → lent fs ≤ length fs
lent-le [] = omega arith
lent-le (true ∷ fs) = omega (arith, lent-le fs)
lent-le (false ∷ fs) = omega (arith, lent-le fs)

pub lent-set-true :
    (fs : List Bool) (i : ℕ) → get_or fs i true ≡ false → lent (set fs i true) ≡ suc (lent fs)
lent-set-true [] i h = cc
lent-set-true (true ∷ fs) zero h = cc
lent-set-true (false ∷ fs) zero h = refl
lent-set-true (true ∷ fs) (suc i) h = omega (arith, lent-set-true fs i h)
lent-set-true (false ∷ fs) (suc i) h = lent-set-true fs i h

pub lent-set-false :
    (fs : List Bool) (i : ℕ)
    → lent fs ≡ lent (set fs i false) + (if get_or fs i false then 1 else 0)
lent-set-false [] i = omega arith
lent-set-false (true ∷ fs) zero = omega arith
lent-set-false (false ∷ fs) zero = omega arith
lent-set-false (true ∷ fs) (suc i) = omega (arith, lent-set-false fs i)
lent-set-false (false ∷ fs) (suc i) = omega (arith, lent-set-false fs i)

lent-replicate : (n : ℕ) → lent (replicate n false) ≡ 0
lent-replicate zero = refl
lent-replicate (suc n) = lent-replicate n

-- The flags that a ring without storage stands for.
abbrev pub flags_of : Option (List Bool) → List Bool
flags_of none = []
flags_of (some fs) = fs

abbrev pub flags : FrameRing → List Bool
flags r = flags_of r.inuse

pub record IsValid (r : FrameRing) : Type 0 where
  pub sized : length (flags r) ≡ r.slots
  pub small : r.slots < u32_mod
  pub counted : r.inuse_now ≡ lent (flags r)
  pub peak : r.inuse_now ≤ r.inuse_max
  pub peak_small : r.inuse_max ≤ r.slots
  pub wr_in : (r.slots ≡ 0) ⊎ (r.wr < r.slots)

-- `find_free` only returns an index whose flag is clear.
pub find_free-clear :
    (fs : List Bool) (slots start k left i : ℕ)
    → find_free fs slots start k left ≡ some i
    → get_or fs i true ≡ false
unfolding find_free
find_free-clear fs slots start k zero i h = cc
find_free-clear fs slots start k (suc left) i h =
    ground (arith, find_free-clear fs slots start (k + 1) left i)

pub get_or-length : (fs : List Bool) (i : ℕ) → get_or fs i true ≡ false → i < length fs
get_or-length [] i h = cc
get_or-length (b ∷ fs) zero h = omega arith
get_or-length (b ∷ fs) (suc i) h = omega (arith, get_or-length fs i h)

-- `init` gives a valid ring with no slot lent.
pub init-IsValid :
    (r : FrameRing) (slots bytes : ℕ)
    → slots < u32_mod
    → (init r slots bytes).1 ≡ true
    → IsValid (init r slots bytes).0
unfolding init
init-IsValid r slots bytes h e = ground (arith, length-replicate slots false, lent-replicate slots)

count_acquire-IsValid :
    (r : FrameRing) (fs : List Bool) (i : ℕ)
    → r.inuse ≡ some fs
    → get_or fs i true ≡ false
    → IsValid r
    → IsValid (count_acquire r i fs)
unfolding count_acquire take_flag count_now raise_max
count_acquire-IsValid r fs i e h v = ground (
  arith,
  lent-set-true fs i h,
  length-set fs i true,
  get_or-length fs i h,
  lent-le (set fs i true),
)

-- A failed search only counts the failure.
acquire_from-IsValid :
    (r : FrameRing) (fs : List Bool) → r.inuse ≡ some fs → IsValid r → IsValid (acquire_from r fs).0
unfolding acquire_from
acquire_from-IsValid r fs e v = elim (Option-cases (find_free fs r.slots r.wr 0 r.slots)) [
  | inl none_free ↦
      rw (none_free, acquire_from)
        (record {
          sized = v.sized;
          small = v.small;
          counted = v.counted;
          peak = v.peak;
          peak_small = v.peak_small;
          wr_in = v.wr_in;
        })
  | inr (i, found) ↦
      rw (found, acquire_from)
        (count_acquire-IsValid r fs i e (find_free-clear fs r.slots r.wr 0 r.slots i found) v)
]

-- Every call of `try_acquire_slot` keeps the invariant.
pub try_acquire_slot-IsValid : (r : FrameRing) → IsValid r → IsValid (try_acquire_slot r).0
unfolding try_acquire_slot
try_acquire_slot-IsValid r v = elim (Bool-cases (r.slots == 0)) [
  | inl z ↦ rw (z, try_acquire_slot) v
  | inr nz ↦ elim (Option-cases r.inuse) [
    | inl e ↦ simp (nz, e, try_acquire_slot) v
    | inr (fs, e) ↦ simp (nz, e, try_acquire_slot) (acquire_from-IsValid r fs e v)
  ]
]

release_in-IsValid :
    (r : FrameRing) (i : ℕ) (fs : List Bool)
    → r.inuse ≡ some fs
    → IsValid r
    → IsValid (release_in r i fs)
unfolding release_in clear_flag drop_now
release_in-IsValid r i fs e v =
    ground (arith, lent-set-false fs i, length-set fs i false, lent-le fs)

-- So does every release, of a slot that is lent or not.
pub release_slot-IsValid : (r : FrameRing) (i : ℕ) → IsValid r → IsValid (release_slot r i)
unfolding release_slot
release_slot-IsValid r i v = elim (Bool-cases (leb r.slots i)) [
  | inl out ↦ rw (out, release_slot) v
  | inr within ↦ elim (Option-cases r.inuse) [
    | inl e ↦ simp (within, e, release_slot) v
    | inr (fs, e) ↦ simp (within, e, release_slot) (release_in-IsValid r i fs e v)
  ]
]

-- The ring takes back a lent slot when no buffer could be made for it, and counts it once.
pub wrap_slot_as_buffer-IsValid :
    (r : FrameRing) (i size : ℕ) (made : Bool)
    → IsValid r
    → get_or (flags r) i false ≡ true
    → IsValid (wrap_slot_as_buffer r i size made).0
unfolding wrap_slot_as_buffer
wrap_slot_as_buffer-IsValid r i size made v h =
    ground (arith, lent-set-false (flags r) i, length-set (flags r) i false, lent-le (flags r))
