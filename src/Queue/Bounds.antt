-- ===== src/Queue/Bounds.antt =====
-- k180_stage_queue.h: the bound on the stage queue over a history of calls.
use k180_project.Base.{
  ℕ, zero, suc, ◌-◌, ◌≤◌, ◌<◌, ◌≡◌, refl, true, false, List, [], ◌∷◌, ◌++◌, Option, some, length,
  drop, length-append, length-drop, drop-nil, ap, sym, ◌∙◌, inl, inr, arith, leb, tests, leb→gt,
  leb-false, Bool-cases,
}
use k180_project.Queue.{wakes}
use k180_project.Queue.{
  StageQueue, Call, pushes, tries, pops, pops_latest, tries_pop, tries_pop_latest, closes,
  drop_oldest, push, try_push, take_front, drop_old, step, run,
}

pub record IsValid {ℓ} {T : Type ℓ} (s : StageQueue T) : Type 0 where
  pub room : 0 < s.max_items
  pub within : length s.q ≤ s.max_items

module _ {ℓ} {T : Type ℓ} where
  drop_one : (n k : ℕ) (x : T) (xs : List T) → n ≡ suc k → drop n (x ∷ xs) ≡ drop k xs
  drop_one n k x xs e = ap (λ i. drop i (x ∷ xs)) e

  -- The loop of `push` drops the oldest items down to one place below the bound.
  pub drop_oldest_lem :
      (m : ℕ) (xs : List T) → 0 < m → drop_oldest m xs ≡ some (drop (suc (length xs) - m) xs)
  unfolding drop_oldest
  drop_oldest_lem zero xs h = elim h [ ]
  drop_oldest_lem (suc m) [] h =
      rw (leb-false (suc m) 0 h) (ap some (sym (drop-nil {A = T} (1 - suc m))))
  drop_oldest_lem (suc m) (x ∷ xs) h = elim (Bool-cases (leb (suc m) (suc (length xs)))) [
    | inl full ↦ rw full (
        drop_oldest_lem (suc m) xs h
        ∙ ap some (sym (drop_one _ (suc (length xs) - suc m) x xs (omega tests))))
    | inr fits ↦ rw fits (
        ap some (
          ap (λ i. drop i (x ∷ xs)) {x = 0} {y = suc (suc (length xs)) - suc m}
            (omega (tests, leb→gt (suc m) (suc (length xs)) fits))))
  ]

  length-drop_old : (xs : List T) → length (drop_old xs) ≤ length xs
  unfolding drop_old
  length-drop_old [] = omega arith
  length-drop_old (x ∷ []) = omega arith
  length-drop_old (x ∷ y ∷ ys) = omega (arith, length-drop_old (y ∷ ys))

  take_front-IsValid :
      (s : StageQueue T) (xs : List T)
      → IsValid s
      → length xs ≤ length s.q
      → IsValid (take_front s xs).0
  unfolding take_front
  take_front-IsValid s [] v h = v
  take_front-IsValid s (x ∷ xs) v h = record { room = v.room; within = omega arith }

  -- What `push` leaves: the newest `max_items` of the items and the new one.
  abbrev pub pushed : StageQueue T → T → StageQueue T
  pushed s x = record s { q = drop (suc (length s.q) - s.max_items) s.q ++ x ∷ [] }

  pub push_open :
      (s : StageQueue T) (x : T)
      → IsValid s
      → s.closed ≡ false
      → (push s x ≡ some (pushed s x)) × (try_push s x ≡ some (pushed s x, true))
  unfolding push try_push
  push_open s x v o = simp (o, drop_oldest_lem s.max_items s.q v.room) (refl, refl)

  pub push_closed :
      (s : StageQueue T) (x : T)
      → s.closed ≡ true
      → (push s x ≡ some s) × (try_push s x ≡ some (s, false))
  unfolding push try_push
  push_closed s x c = simp c (refl, refl)

  pushed-IsValid : (s : StageQueue T) (x : T) → IsValid s → IsValid (pushed s x)
  pushed-IsValid s x v = record {
    room = v.room;
    within = omega (
      arith,
      length-append (drop (suc (length s.q) - s.max_items) s.q) (x ∷ []),
      length-drop (suc (length s.q) - s.max_items) s.q,
    );
  }

  -- A call on a valid queue never faults, and leaves a valid queue of the same bound.
  abbrev pub Keeps : StageQueue T → Option (StageQueue T) → Type ℓ
  Keeps s r = (s' : StageQueue T) × (r ≡ some s') × IsValid s' × (s'.max_items ≡ s.max_items)

  push-Keeps : (s : StageQueue T) (x : T) → IsValid s → Keeps s (push s x)
  push-Keeps s x v = elim (Bool-cases s.closed) [
    | inl c ↦ (s, (push_closed s x c).0, v, refl)
    | inr o ↦ (pushed s x, (push_open s x v o).0, pushed-IsValid s x v, refl)
  ]

  max-take_front : (s : StageQueue T) (xs : List T) → (take_front s xs).0.max_items ≡ s.max_items
  unfolding take_front
  max-take_front s [] = refl
  max-take_front s (x ∷ xs) = refl

  front-Keeps :
      (s : StageQueue T) (xs : List T)
      → IsValid s
      → length xs ≤ length s.q
      → Keeps s (some (take_front s xs).0)
  front-Keeps s xs v h =
      ((take_front s xs).0, refl, take_front-IsValid s xs v h, max-take_front s xs)

  pub step-Keeps : (s : StageQueue T) (c : Call T) → IsValid s → Keeps s (step s c)
  unfolding step
  step-Keeps s (pushes x) v = push-Keeps s x v
  step-Keeps s (tries x) v = elim (Bool-cases s.closed) [
    | inl c ↦ (s, rw ((push_closed s x c).1, step) refl, v, refl)
    | inr o ↦ (pushed s x, rw ((push_open s x v o).1, step) refl, pushed-IsValid s x v, refl)
  ]
  step-Keeps s pops v = elim (Bool-cases (wakes s)) [
    | inl w ↦ rw w (front-Keeps s s.q v (omega arith))
    | inr w ↦ rw w (s, refl, v, refl)
  ]
  step-Keeps s pops_latest v = elim (Bool-cases (wakes s)) [
    | inl w ↦ rw w (front-Keeps s (drop_old s.q) v (length-drop_old s.q))
    | inr w ↦ rw w (s, refl, v, refl)
  ]
  step-Keeps s tries_pop v = front-Keeps s s.q v (omega arith)
  step-Keeps s tries_pop_latest v = front-Keeps s (drop_old s.q) v (length-drop_old s.q)
  step-Keeps s closes v =
      (record s { closed = true }, refl, record { room = v.room; within = v.within }, refl)

  -- A queue made with room for at least one item takes every history of calls without a fault,
  -- and holds at most that many items after it.
  pub run-IsValid : (s : StageQueue T) (cs : List (Call T)) → IsValid s → Keeps s (run s cs)
  unfolding run
  run-IsValid s [] v = (s, refl, v, refl)
  run-IsValid s (c ∷ cs) v =
      let (s1, e1, v1, m1) = step-Keeps s c v in
      let (s2, e2, v2, m2) = run-IsValid s1 cs v1 in (s2, rw (e1, run) e2, v2, m2 ∙ m1)
