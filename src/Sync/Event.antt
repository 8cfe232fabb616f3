-- ===== src/Sync/Event.antt =====
-- k180_stage_sync.h: the stage event over a run of signals, up to and at the end of its counter.
use k180_project.Base.{
  ℕ, zero, suc, ◌+◌, ◌-◌, ◌<◌, ◌%◌, ◌≡◌, refl, true, false, arith, u32_mod, if◌then◌else◌, ◌==◌,
}
use k180_project.Sync.{StageEvent, signal, wait, proceeds, stops, waits}

-- `n` signals one after the other.
pub signals : ℕ → StageEvent → StageEvent
signals zero e = e
signals (suc n) e = signals n (signal e)

seq-signals : (n : ℕ) (e : StageEvent) → e.seq < u32_mod → (signals n e).seq ≡ (e.seq + n) % u32_mod
unfolding signals signal
seq-signals zero e h = omega arith
seq-signals (suc n) e h = omega (arith, seq-signals n (signal e))

-- As long as the counter does not wrap, a waiter that has seen it goes on after any positive number
-- of signals, in one wait, and has then seen them all; after none it waits.
pub wait-signals :
    (n : ℕ) (e : StageEvent)
    → e.seq + n < u32_mod
    → wait (signals n e) e.seq false ≡ (if 0 == n then (waits, e.seq) else (proceeds, e.seq + n))
unfolding wait
wait-signals n e h = ground (arith, seq-signals n e)

-- A waiter that has seen the last value of the counter never goes on: no number of signals wakes it,
-- short of the stop flag.
pub wait-stuck :
    (n : ℕ) (e : StageEvent) → e.seq ≡ u32_mod - 1 → wait (signals n e) e.seq false ≡ (waits, e.seq)
unfolding wait
wait-stuck n e h = ground (arith, seq-signals n e)

-- With the stop flag set a wait returns at once, and `last_seen` stays.
pub wait-stop : (e : StageEvent) (seen : ℕ) → wait e seen true ≡ (stops, seen)
unfolding wait
wait-stop e seen = refl
