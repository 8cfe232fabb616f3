-- ===== src/Hub/H265/Push.antt =====
-- What an H265 hub does with the buffers that it is given.
use k180_project.Base.{
  ℕ, ◌≡◌, Bool, true, false, ◌&&◌, not, arith, if◌then◌else◌, ◌==◌, ltb_ℤ, pos, pos_part,
}
use k180_project.Hub.Stamp.{stamp}
use k180_project.Hub.H265.{H265Hub, push_nvmm_rgba_buffer, one_if}

-- The conditions under which a buffer is offered to `appsrc`.
abbrev pub is_ready : (ℕ → ℕ) → H265Hub → Bool → Bool
is_ready scale_int h paused =
    h.started
    && h.pipeline
    && h.rawsrc
    && ltb_ℤ (pos 0) h.args.in_w
    && ltb_ℤ (pos 0) h.args.in_h
    && ltb_ℤ (pos 0) h.args.fps
    && not (scale_int (pos_part h.args.fps) == 0)
    && paused

-- A buffer is offered to `appsrc` exactly when the hub is ready for it: then it carries the next stamp
-- of the hub's clock, only the clock moves, and the call succeeds exactly when the offer does; if the
-- offer fails the hub releases the buffer as well. A buffer that is not offered is released once, the
-- hub stays as it was, and the call fails; with no buffer nothing is released.
pub push-Sent :
    (scale_int : ℕ → ℕ) (h : H265Hub) (buf now : ℕ) (paused push_ok : Bool)
    → let next = stamp h.clock now (scale_int (pos_part h.args.fps)) in
      push_nvmm_rgba_buffer scale_int h buf now paused push_ok ≡ (
        if not (buf == 0) && is_ready scale_int h paused
        then (
          record h { clock = next.1 },
          record { unrefs = one_if (not push_ok); offered = true; pts = next.0; result = push_ok },
        )
        else (
          h,
          record { unrefs = one_if (not (buf == 0)); offered = false; pts = 0; result = false },
        ))
unfolding push_nvmm_rgba_buffer
push-Sent scale_int h buf now paused push_ok = ground arith
