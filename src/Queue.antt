-- ===== src/Queue.antt =====
-- rtsp_server/include/k180_stage_queue.h: the bounded queue that hands frames from one pipeline
-- stage to the next. A call is atomic under the queue's mutex; the list holds the oldest item first.
pub mod Bounds
pub mod Order
mod Tests
use k180_project.Base.{
  ℕ, Bool, true, false, ◌||◌, not, List, [], ◌∷◌, ◌++◌, Option, none, some, leb, if◌then◌else◌,
  length,
}

pub record StageQueue {ℓ} (T : Type ℓ) : Type ℓ where
  pub q : List T
  pub max_items : ℕ
  pub closed : Bool

-- What a call of a pop does: it returns an item, returns false, or stays in `cv_.wait`.
pub data Popped {ℓ} (T : Type ℓ) : Type ℓ where
  got : T → Popped T
  nothing : Popped T
  waits : Popped T

module _ {ℓ} {T : Type ℓ} where
  pub make : ℕ → StageQueue T
  make max_items = record { q = []; max_items = max_items; closed = false }

  -- `while (q_.size() >= max_) q_.pop();`. On an empty queue `std::queue::pop` is undefined
  -- behaviour, which is `none`.
  pub drop_oldest : ℕ → List T → Option (List T)
  drop_oldest max_items [] = if leb max_items 0 then none else some []
  drop_oldest max_items (x ∷ xs) =
      let rest = drop_oldest max_items xs in
      if leb max_items (length (x ∷ xs)) then rest else some (x ∷ xs)

  -- `none` is the undefined behaviour of a queue made with no room.
  pub push : StageQueue T → T → Option (StageQueue T)
  unfolding drop_oldest
  push s item = if s.closed then some s else elim (drop_oldest s.max_items s.q) [
    | none ↦ none
    | some kept ↦ some (record s { q = kept ++ item ∷ [] })
  ]

  pub try_push : StageQueue T → T → Option (StageQueue T × Bool)
  unfolding drop_oldest
  try_push s item = if s.closed then some (s, false) else elim (drop_oldest s.max_items s.q) [
    | none ↦ none
    | some kept ↦ some (record s { q = kept ++ item ∷ [] }, true)
  ]

  -- `q_.front()` and `q_.pop()`.
  pub take_front : StageQueue T → List T → StageQueue T × Popped T
  take_front s [] = (s, nothing)
  take_front s (x ∷ xs) = (record s { q = xs }, got x)

  -- `while (q_.size() > 1) q_.pop();`
  pub drop_old : List T → List T
  drop_old [] = []
  drop_old (x ∷ []) = x ∷ []
  drop_old (x ∷ y ∷ ys) = drop_old (y ∷ ys)

  pub is_empty : List T → Bool
  is_empty [] = true
  is_empty (x ∷ xs) = false

  -- `cv_.wait(lk, [&]{ return closed_ || !q_.empty(); })`
  pub wakes : StageQueue T → Bool
  unfolding is_empty
  wakes s = s.closed || not (is_empty s.q)

  pub try_pop : StageQueue T → StageQueue T × Popped T
  unfolding take_front
  try_pop s = take_front s s.q

  pub try_pop_latest : StageQueue T → StageQueue T × Popped T
  unfolding take_front drop_old
  try_pop_latest s = take_front s (drop_old s.q)

  pub pop : StageQueue T → StageQueue T × Popped T
  unfolding wakes take_front
  pop s = if wakes s then take_front s s.q else (s, waits)

  pub pop_latest : StageQueue T → StageQueue T × Popped T
  unfolding wakes take_front drop_old
  pop_latest s = if wakes s then take_front s (drop_old s.q) else (s, waits)

  pub close : StageQueue T → StageQueue T
  close s = record s { closed = true }

-- The calls that the threads make, in the order in which they get the mutex.
pub data Call {ℓ} (T : Type ℓ) : Type ℓ where
  pushes tries : T → Call T
  pops pops_latest tries_pop tries_pop_latest closes : Call T

module _ {ℓ} {T : Type ℓ} where
  pub step : StageQueue T → Call T → Option (StageQueue T)
  unfolding push try_push pop pop_latest try_pop try_pop_latest close
  step s (pushes x) = push s x
  step s (tries x) = elim (try_push s x) [ none ↦ none | some (s', _) ↦ some s' ]
  step s pops = some (pop s).0
  step s pops_latest = some (pop_latest s).0
  step s tries_pop = some (try_pop s).0
  step s tries_pop_latest = some (try_pop_latest s).0
  step s closes = some (close s)

  pub run : StageQueue T → List (Call T) → Option (StageQueue T)
  run s [] = some s
  run s (c ∷ cs) = elim (step s c) [ none ↦ none | some s' ↦ run s' cs ]
