-- ===== src/Tuner/Pending.antt =====
-- k180_bright_tuner.cpp: the latest value for each camera, from the tuner to the cameras' threads.
use k180_project.Base.{
  ℕ, zero, suc, Bool, true, false, List, [], ◌∷◌, Option, none, some, if◌then◌else◌,
}

pub record PendingCtrl : Type 0 where
  pub expo_dirty : Bool
  pub expo_val : ℕ
  pub gain_dirty : Bool
  pub gain_val : ℕ

-- On an index that no camera has, nothing changes: `valid_idx`.
unfoldable pub update_at : List PendingCtrl → ℕ → (PendingCtrl → PendingCtrl) → List PendingCtrl
update_at [] i f = []
update_at (p ∷ ps) zero f = f p ∷ ps
update_at (p ∷ ps) (suc i) f = p ∷ update_at ps i f

unfoldable pub request_exposure : List PendingCtrl → ℕ → ℕ → List PendingCtrl
request_exposure ps cam_idx val =
    update_at ps cam_idx (λ p. record p { expo_val = val; expo_dirty = true })

unfoldable pub request_gain : List PendingCtrl → ℕ → ℕ → List PendingCtrl
request_gain ps cam_idx val =
    update_at ps cam_idx (λ p. record p { gain_val = val; gain_dirty = true })

pub elem_at : List PendingCtrl → ℕ → Option PendingCtrl
elem_at [] i = none
elem_at (p ∷ ps) zero = some p
elem_at (p ∷ ps) (suc i) = elem_at ps i

-- The value asked for since the last call, if any: the flag is tested and cleared.
unfoldable pub consume_exposure : List PendingCtrl → ℕ → List PendingCtrl × Option ℕ
unfolding elem_at
consume_exposure ps cam_idx = elim (elem_at ps cam_idx) [
  | none ↦ (ps, none)
  | some p ↦
      if p.expo_dirty
      then (update_at ps cam_idx (λ q. record q { expo_dirty = false }), some p.expo_val)
      else (ps, none)
]

unfoldable pub consume_gain : List PendingCtrl → ℕ → List PendingCtrl × Option ℕ
unfolding elem_at
consume_gain ps cam_idx = elim (elem_at ps cam_idx) [
  | none ↦ (ps, none)
  | some p ↦
      if p.gain_dirty
      then (update_at ps cam_idx (λ q. record q { gain_dirty = false }), some p.gain_val)
      else (ps, none)
]
