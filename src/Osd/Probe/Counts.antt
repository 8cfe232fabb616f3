-- ===== src/Osd/Probe/Counts.antt =====
-- k180_osd_probe.cpp: the counters of the probe after any sequence of buffers.
use k180_project.Base.{
  subst, ℕ, ◌+◌, ◌<◌, ◌≡◌, refl, sym, inl, inr, Bool, true, false, Option, some, add64, arith,
}
use k180_project.Osd.Probe.{
  Counters, Side, Shared, Event, Boxes, Resolved, no_boxes, resolve_both, attach, count_attached,
  count_untagged,
}
use k180_project.Osd.Probe.Answer.{IsSound, IsRoomy, Counted, Chosen-Counted}
use k180_project.Osd.Probe.Choice.{resolve-Resolves}

-- `n` answers have been counted, each once, and every miss with a reason; `u` buffers had no tag.
pub record IsCounted (n u : ℕ) (c : Counters) : Type 0 where
  pub answers : c.exact_ready_ok + c.fallback_used + c.fallback_miss ≡ n
  pub reasons : c.miss_not_ready + c.miss_not_found ≡ c.fallback_miss + u

add64-below : (a : ℕ) → a + 1 < 18446744073709551616 → add64 a 1 ≡ a + 1
add64-below a h = omega arith

Counted-IsCounted :
    (n u : ℕ) (c c' : Counters)
    → n + u + 1 < 18446744073709551616
    → Counted c c'
    → IsCounted n u c
    → IsCounted (n + 1) u c'
Counted-IsCounted n u c c' h (inl e) v =
    subst (IsCounted (n + 1) u) (sym e) (record { answers = omega arith; reasons = omega arith })
Counted-IsCounted n u c c' h (inr (inl e)) v =
    subst (IsCounted (n + 1) u) (sym e) (record { answers = omega arith; reasons = omega arith })
Counted-IsCounted n u c c' h (inr (inr (inl e))) v =
    subst (IsCounted (n + 1) u) (sym e) (record { answers = omega arith; reasons = omega arith })
Counted-IsCounted n u c c' h (inr (inr (inr e))) v =
    subst (IsCounted (n + 1) u) (sym e) (record { answers = omega arith; reasons = omega arith })

module _ {D : Type 0} where
  pub record IsKept (max n u : ℕ) (s : Shared D) : Type 0 where
    pub det_sound : IsSound max s.det
    pub track_sound : IsSound max s.track
    pub det_counted : IsCounted n u s.det.counters
    pub track_counted : IsCounted n 0 s.track.counters

  abbrev pub Goes : ℕ → ℕ → ℕ → Option (Shared D × Boxes D) → Type 0
  Goes max n u r = (s' : Shared D) × (b : Boxes D) × (r ≡ some (s', b)) × IsKept max n u s'

  count_attached-IsSound :
      (max : ℕ) (s : Side D) (b : Bool) → IsSound max s → IsSound max (count_attached s b)
  unfolding count_attached
  count_attached-IsSound max s true v = record { whole = v.whole; within = v.within }
  count_attached-IsSound max s false v = record { whole = v.whole; within = v.within }

  count_attached-IsCounted :
      (n u : ℕ) (s : Side D) (b : Bool)
      → IsCounted n u s.counters
      → IsCounted n u (count_attached s b).counters
  unfolding count_attached
  count_attached-IsCounted n u s true v = record { answers = v.answers; reasons = v.reasons }
  count_attached-IsCounted n u s false v = record { answers = v.answers; reasons = v.reasons }

  count_both-IsKept :
      (max n u : ℕ) (d t : Side D) (da ta : Bool)
      → IsKept max n u (record { det = d; track = t })
      → IsKept max n u (record { det = count_attached d da; track = count_attached t ta })
  count_both-IsKept max n u d t da ta v = record {
    det_sound = count_attached-IsSound max d da v.det_sound;
    track_sound = count_attached-IsSound max t ta v.track_sound;
    det_counted = count_attached-IsCounted n u d da v.det_counted;
    track_counted = count_attached-IsCounted n 0 t ta v.track_counted;
  }

  attach-Goes :
      (max n u : ℕ) (d t : Resolved D)
      → IsKept max n u (record { det = d.0; track = t.0 })
      → Goes max n u (some (attach d t))
  unfolding attach
  attach-Goes max n u (d, w, false) (t, y, false) v =
      (record { det = d; track = t }, no_boxes, refl, v)
  attach-Goes max n u (d, w, true) (t, y, ta) v = (
    record { det = count_attached d true; track = count_attached t ta },
    record { white = w; yellow = y },
    refl,
    count_both-IsKept max n u d t true ta v,
  )
  attach-Goes max n u (d, w, false) (t, y, true) v = (
    record { det = count_attached d false; track = count_attached t true },
    record { white = w; yellow = y },
    refl,
    count_both-IsKept max n u d t false true v,
  )

  pub resolve_both-Goes :
      (max n u : ℕ) (s : Shared D) (e : Event D) (f : ℕ)
      → n + u + 1 < 18446744073709551616
      → IsKept max n u s
      → IsRoomy max e.det_cuda
      → IsRoomy max e.track_cuda
      → Goes max (n + 1) u (resolve_both s e f)
  unfolding resolve_both
  resolve_both-Goes max n u s e f h v rd rt =
      let d = resolve-Resolves max e.det_cuda s.det f v.det_sound rd in
      let t = resolve-Resolves max e.track_cuda s.track f v.track_sound rt in
      rw (d.returns, t.returns, resolve_both)
        (attach-Goes max (n + 1) u d.value t.value (record {
          det_sound = d.sound;
          track_sound = t.sound;
          det_counted =
              Counted-IsCounted n u _ _ h (Chosen-Counted e.det_cuda s.det f d.value d.chosen)
                v.det_counted;
          track_counted =
              Counted-IsCounted n 0 _ _ (omega arith)
                (Chosen-Counted e.track_cuda s.track f t.value t.chosen) v.track_counted;
        }))

  pub count_untagged-IsKept :
      (max n u : ℕ) (s : Shared D)
      → n + u + 1 < 18446744073709551616
      → IsKept max n u s
      → IsKept max n (u + 1) (count_untagged s)
  unfolding count_untagged
  count_untagged-IsKept max n u s h v = record {
    det_sound = record { whole = v.det_sound.whole; within = v.det_sound.within };
    track_sound = v.track_sound;
    det_counted = record { answers = v.det_counted.answers; reasons = omega arith };
    track_counted = v.track_counted;
  }
