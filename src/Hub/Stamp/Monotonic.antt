-- ===== src/Hub/Stamp/Monotonic.antt =====
-- The stamps of one session, in their order.
use k180_project.Base.{
  ℕ, suc, ◌+◌, ◌*◌, ◌/◌, ◌-◌, ◌<◌, ◌≤◌, ◌≡◌, refl, ap, ◌∙◌, sym, List, [], ◌∷◌, leb, arith, u64_mod,
  add64, sub64, length, Bool-cases, subst, leb→gt, inl, inr,
}
use k180_project.Hub.Stamp.{Clock, stamp, init_t0}

-- The stamps of the buffers that come at the given times.
unfoldable pub stamps : Clock → ℕ → List ℕ → List ℕ
stamps c dur [] = []
stamps c dur (now ∷ later) = let (pts, c') = stamp c now dur in pts ∷ stamps c' dur later

-- Each stamp is over the one before it, and a whole number of frames.
abbrev pub RisesBy : ℕ → ℕ → List ℕ → Type 0
RisesBy dur prev [] = Unit {0}
RisesBy dur prev (pts ∷ rest) = (prev < pts) × ((k : ℕ) × (pts ≡ k * dur)) × RisesBy dur pts rest

-- The times do not go back, and stay below a bound.
abbrev pub Within : ℕ → List ℕ → ℕ → Type 0
Within from [] stop = Unit {0}
Within from (now ∷ later) stop = (from ≤ now) × (now < stop) × Within now later stop

whole_frames : (n dur : ℕ) → n / dur * dur ≤ n
whole_frames n dur = grind arith

elapsed : (now t0 : ℕ) → t0 ≤ now → now < u64_mod → sub64 now t0 ≡ now - t0
elapsed now t0 h small = omega arith

-- One stamp of a session that has begun.
stamp-running :
    (c : Clock) (now dur k bound : ℕ)
    → 0 < c.t0_ns
    → c.t0_ns ≤ now
    → now < bound
    → 0 < dur
    → c.last_pts ≡ k * dur
    → c.last_pts ≤ bound
    → bound + dur < u64_mod
    → let (pts, c') = stamp c now dur in
      (c.last_pts < pts)
      × ((k' : ℕ) × (pts ≡ k' * dur))
      × (c'.last_pts ≡ pts)
      × (c'.t0_ns ≡ c.t0_ns)
      × (pts ≤ bound + dur)
unfolding stamp init_t0
stamp-running c now dur k bound started h lt pos e le small =
    rw (no_reset, elapsed now c.t0_ns h (omega arith))
      (elim (Bool-cases (leb q c.last_pts)) [
        | inl behind ↦ rw behind (omega arith, (suc k, next), refl, refl, omega arith)
        | inr ahead ↦ rw ahead (
          omega (arith, leb→gt q c.last_pts ahead),
          ((now - c.t0_ns) / dur, refl),
          refl,
          refl,
          omega (arith, whole_frames (now - c.t0_ns) dur),
        )
      ])
  where
    q : ℕ
    q = (now - c.t0_ns) / dur * dur

    no_reset : init_t0 c now ≡ c
    no_reset = ground arith

    next : add64 c.last_pts dur ≡ suc k * dur
    next = grind arith

stamps-running :
    (c : Clock) (dur k bound from : ℕ) (times : List ℕ)
    → 0 < c.t0_ns
    → c.t0_ns ≤ from
    → 0 < dur
    → c.last_pts ≡ k * dur
    → c.last_pts ≤ bound
    → bound + length times * dur < u64_mod
    → Within from times bound
    → RisesBy dur c.last_pts (stamps c dur times)
unfolding stamps
stamps-running c dur k bound from [] started h pos e le small w = tt
stamps-running c dur k bound from (now ∷ later) started h pos e le small w =
    let (lower, (k', e'), last', t0', le') =
      stamp-running c now dur k bound started (omega arith) w.1 pos e le (grind arith) in
    let c' = (stamp c now dur).1 in
    let rest =
      stamps-running c' dur k' (bound + dur) now later (rw t0' started) (omega (arith, t0')) pos
        (last' ∙ e') (rw last' le') (omega arith) (widen now later bound w.2) in
    (lower, (k', e'), subst (λ p. RisesBy dur p (stamps c' dur later)) last' rest)
  where
    widen : (from : ℕ) (times : List ℕ) (b : ℕ) → Within from times b → Within from times (b + dur)
    widen from [] b w = tt
    widen from (t ∷ ts) b w = (w.0, omega arith, widen t ts b w.2)

first_stamp :
    (dur first : ℕ)
    → 0 < first
    → stamp (record { t0_ns = 0; last_pts = 0 }) first dur
      ≡ stamp (record { t0_ns = first; last_pts = 0 }) first dur
unfolding stamp init_t0
first_stamp dur first h = ground arith

-- From the first buffer of a session on, the stamps rise strictly and are whole numbers of frames,
-- however often buffers come, on a clock that does not go back (with room left in 64 bits).
pub stamps-RisesBy :
    (dur bound first : ℕ) (later : List ℕ)
    → 0 < dur
    → 0 < first
    → bound + (length later + 1) * dur < u64_mod
    → Within first (first ∷ later) bound
    → RisesBy dur 0 (stamps (record { t0_ns = 0; last_pts = 0 }) dur (first ∷ later))
unfolding stamps
stamps-RisesBy dur bound first later pos started small w =
    subst (λ l. RisesBy dur 0 l) (sym same)
      (stamps-running (record { t0_ns = first; last_pts = 0 }) dur 0 bound first (first ∷ later)
        started (omega arith) pos (omega arith) (omega arith) (omega arith) w)
  where
    same :
        stamps (record { t0_ns = 0; last_pts = 0 }) dur (first ∷ later)
        ≡ stamps (record { t0_ns = first; last_pts = 0 }) dur (first ∷ later)
    same = ap (λ r. r.0 ∷ stamps r.1 dur later) (first_stamp dur first started)
