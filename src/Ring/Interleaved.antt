-- ===== src/Ring/Interleaved.antt =====
-- k180_gst_ringbuf.h: the atomic steps of `try_acquire_slot` on the thread of the producer and of
-- `release_slot` on any threads, in any order.
use k180_project.Base.{
  ℕ, zero, suc, ◌+◌, ◌≤◌, ◌<◌, ◌≡◌, ◌%◌, Bool, true, false, List, [], ◌∷◌, none, some, length,
  get_or, length-set, arith, Option-cases, inl, inr, if◌then◌else◌, leb, ◌==◌, u32_mod, add64,
}
use k180_project.Ring.{FrameRing, init, take_flag, count_now, raise_max, clear_flag, drop_now}
use k180_project.Ring.Inv.{flags, lent, lent-le, lent-set-true, lent-set-false, init-IsValid}

-- Where the producer is in `try_acquire_slot`: outside, before round `k` of the search that started at a
-- position, behind the flag it has set, or with the value of the counter that the maximum is to reach.
pub data Producer : Type 0 where
  idle : Producer
  looking : ℕ → ℕ → Producer
  counting raising : ℕ → Producer

-- The ring, the producer, and how many releases have cleared a set flag and not yet counted.
pub record Threads : Type 0 where
  pub ring : FrameRing
  pub producer : Producer
  pub releasing : ℕ

unfoldable pub look : FrameRing → List Bool → ℕ → ℕ → FrameRing × Producer
unfolding take_flag
look r fs start k =
    if leb r.slots k
    then (record r { acquire_fail = add64 r.acquire_fail 1 }, idle)
    else if get_or fs ((start + k) % r.slots) true
    then (r, looking start (k + 1))
    else (take_flag r ((start + k) % r.slots) fs, counting ((start + k) % r.slots))

-- The next step of the producer, which calls again when it is outside.
unfoldable pub advance : FrameRing → Producer → FrameRing × Producer
unfolding count_now raise_max
advance r idle = elim r.inuse [
  | none ↦ (r, idle)
  | some fs ↦ if r.slots == 0 then (r, idle) else (r, looking r.wr 0)
]
advance r (looking start k) = elim r.inuse [ none ↦ (r, idle) | some fs ↦ look r fs start k ]
advance r (counting i) = let counted = count_now r i in (counted, raising counted.inuse_now)
advance r (raising now) = (raise_max r now, idle)

-- The exchange in `release_slot`, with how many more releases have to count.
unfoldable pub exchange : FrameRing → ℕ → FrameRing × ℕ
unfolding clear_flag
exchange r idx = if leb r.slots idx then (r, 0) else elim r.inuse [
  | none ↦ (r, 0)
  | some fs ↦ (clear_flag r idx fs, if get_or fs idx false then 1 else 0)
]

-- The producer goes on, a release of a slot begins, or one that has cleared a set flag counts.
pub data Step : Type 0 where
  produces : Step
  clears : ℕ → Step
  counts : Step

unfoldable pub step : Threads → Step → Threads
unfolding drop_now
step t produces = let (r, p) = advance t.ring t.producer in record t { ring = r; producer = p }
step t (clears i) =
    let (r, n) = exchange t.ring i in record t { ring = r; releasing = t.releasing + n }
step t counts = elim t.releasing [
  | zero ↦ t
  | suc n ↦ record t { ring = drop_now t.ring; releasing = n }
]

unfoldable pub run : Threads → List Step → Threads
run t [] = t
run t (s ∷ ss) = run (step t s) ss

-- How many slots the producer has taken and not yet counted.
abbrev pub uncounted : Producer → ℕ
uncounted idle = 0
uncounted (looking start k) = 0
uncounted (counting i) = 1
uncounted (raising now) = 0

-- The counter is the number of lent slots, when the steps that are still to come are added and taken off.
pub record Agrees (t : Threads) : Type 0 where
  pub sized : length (flags t.ring) ≡ t.ring.slots
  pub small : t.ring.slots < u32_mod
  pub word : t.ring.inuse_now < u32_mod
  pub balanced :
      (t.ring.inuse_now + uncounted t.producer) % u32_mod
      ≡ (lent (flags t.ring) + t.releasing) % u32_mod

look-Agrees :
    (r : FrameRing) (fs : List Bool) (start k n : ℕ)
    → r.inuse ≡ some fs
    → Agrees (record { ring = r; producer = looking start k; releasing = n })
    → Agrees
        (record { ring = (look r fs start k).0; producer = (look r fs start k).1; releasing = n })
unfolding look take_flag
look-Agrees r fs start k n e v =
    ground
      (arith, lent-set-true fs ((start + k) % r.slots), length-set fs ((start + k) % r.slots) true)

advance-Agrees :
    (r : FrameRing) (p : Producer) (n : ℕ)
    → Agrees (record { ring = r; producer = p; releasing = n })
    → Agrees (record { ring = (advance r p).0; producer = (advance r p).1; releasing = n })
unfolding advance count_now raise_max
advance-Agrees r idle n v = ground arith
advance-Agrees r (looking start k) n v = elim (Option-cases r.inuse) [
  | inl e ↦ ground (arith, e)
  | inr (fs, e) ↦ rw (e, advance) (look-Agrees r fs start k n e v)
]
advance-Agrees r (counting i) n v = ground arith
advance-Agrees r (raising now) n v = ground arith

exchange-Agrees :
    (r : FrameRing) (p : Producer) (n i : ℕ)
    → Agrees (record { ring = r; producer = p; releasing = n })
    → Agrees (record { ring = (exchange r i).0; producer = p; releasing = n + (exchange r i).1 })
unfolding exchange clear_flag
exchange-Agrees r p n i v = ground (arith, lent-set-false (flags r) i, length-set (flags r) i false)

drop-Agrees :
    (r : FrameRing) (p : Producer) (n : ℕ)
    → Agrees (record { ring = r; producer = p; releasing = suc n })
    → Agrees (record { ring = drop_now r; producer = p; releasing = n })
unfolding drop_now
drop-Agrees r p n v = ground arith

counts-Agrees :
    (r : FrameRing) (p : Producer) (n : ℕ)
    → Agrees (record { ring = r; producer = p; releasing = n })
    → Agrees (step (record { ring = r; producer = p; releasing = n }) counts)
unfolding step
counts-Agrees r p zero v = v
counts-Agrees r p (suc n) v = drop-Agrees r p n v

step-Agrees : (t : Threads) (s : Step) → Agrees t → Agrees (step t s)
unfolding step
step-Agrees t produces v = advance-Agrees t.ring t.producer t.releasing v
step-Agrees t (clears i) v = exchange-Agrees t.ring t.producer t.releasing i v
step-Agrees t counts v = counts-Agrees t.ring t.producer t.releasing v

run-Agrees : (t : Threads) (ss : List Step) → Agrees t → Agrees (run t ss)
unfolding run
run-Agrees t [] v = v
run-Agrees t (s ∷ ss) v = run-Agrees (step t s) ss (step-Agrees t s v)

-- No thread is between its step on a flag and its step on the counter.
pub record IsSettled (t : Threads) : Type 0 where
  pub counted : uncounted t.producer ≡ 0
  pub released : t.releasing ≡ 0

settled-now :
    (t : Threads)
    → Agrees t
    → IsSettled t
    → (t.ring.inuse_now ≡ lent (flags t.ring)) × (t.ring.inuse_now ≤ t.ring.slots)
settled-now t v s = ground (arith, lent-le (flags t.ring))

abbrev pub started : FrameRing → ℕ → ℕ → Threads
started r slots bytes = record { ring = (init r slots bytes).0; producer = idle; releasing = 0 }

started-Agrees :
    (r : FrameRing) (slots bytes : ℕ)
    → slots < u32_mod
    → (init r slots bytes).1 ≡ true
    → Agrees (started r slots bytes)
started-Agrees r slots bytes h e =
    let v = init-IsValid r slots bytes h e in
    ground (arith, v.sized, v.small, v.counted, lent-le (flags (init r slots bytes).0))

-- From a successful init with fewer than 2^32 slots on, whatever the order of the atomic steps of one
-- producer and of releases on any threads, the counter of the lent slots is off by no more, modulo 2^32,
-- than the steps on it that are still to come: less by one for a slot that is taken and not yet counted, and
-- more by one for each release that has cleared a flag and not yet counted. When there are none of these, it
-- is the number of lent slots, which is at most the number of slots.
pub run-started-Agrees :
    (r : FrameRing) (slots bytes : ℕ) (ss : List Step)
    → slots < u32_mod
    → (init r slots bytes).1 ≡ true
    → Agrees (run (started r slots bytes) ss)
      × (IsSettled (run (started r slots bytes) ss)
          → ((run (started r slots bytes) ss).ring.inuse_now
              ≡ lent (flags (run (started r slots bytes) ss).ring))
            × ((run (started r slots bytes) ss).ring.inuse_now
                ≤ (run (started r slots bytes) ss).ring.slots))
run-started-Agrees r slots bytes ss h e =
    let v = run-Agrees (started r slots bytes) ss (started-Agrees r slots bytes h e) in
    (v, settled-now (run (started r slots bytes) ss) v)
