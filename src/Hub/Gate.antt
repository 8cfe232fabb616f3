-- ===== src/Hub/Gate.antt =====
-- `StreamFpsGate` of rtsp_server/include/k180_h265_hub.h: which frames of a stream are let through.
-- One producer thread calls `allow` on a gate, with a monotonic clock in nanoseconds.
pub mod Rate
mod Tests
use k180_project.Base.{
  ℕ, ◌*◌, ◌/◌, ◌-◌, Bool, true, false, ◌||◌, ℤ, pos, negsuc, leb_ℤ, pos_part, ltb, leb, ◌==◌,
  if◌then◌else◌, add64,
}

pub record StreamFpsGate : Type 0 where
  pub fps : ℤ
  pub last_ns : ℕ
  pub credit_ns : ℕ

pub reset : StreamFpsGate → StreamFpsGate
reset g = record g { last_ns = 0; credit_ns = 0 }

pub configure : StreamFpsGate → ℤ → StreamFpsGate
unfolding reset
configure g f = reset (record g { fps = f })

abbrev pub second_ns : ℕ
second_ns = 1000000000

-- The time of one frame. It is used only at a positive rate.
abbrev pub period_of : ℤ → ℕ
period_of f = second_ns / pos_part f

-- `credit += now_ns - last`, capped at two periods, on a clock that did not go back.
abbrev pub capped : ℕ → ℕ → ℕ
capped credit period = if ltb (period * 2) credit then period * 2 else credit

-- The part of `allow` below 60 frames a second.
pub allow_at : StreamFpsGate → ℕ → ℕ → StreamFpsGate × Bool
allow_at g period_ns now_ns =
    if g.last_ns == 0 || ltb now_ns g.last_ns
    then (record g { last_ns = now_ns; credit_ns = period_ns }, true)
    else let credit = capped (add64 g.credit_ns (now_ns - g.last_ns)) period_ns in
      if leb period_ns credit
      then (record g { last_ns = now_ns; credit_ns = credit - period_ns }, true)
      else (record g { last_ns = now_ns; credit_ns = credit }, false)

unfoldable pub allow : StreamFpsGate → ℕ → StreamFpsGate × Bool
unfolding allow_at
allow g now_ns =
    if leb_ℤ g.fps (pos 0)
    then (g, false)
    else if leb_ℤ (pos 60) g.fps
    then (g, true)
    else allow_at g (period_of g.fps) now_ns
