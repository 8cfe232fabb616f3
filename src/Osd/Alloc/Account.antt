-- ===== src/Osd/Alloc/Account.antt =====
-- k180_osd_slots.cpp: the account of the CUDA buffers.
use k180_project.Base.{
  ℕ, ◌+◌, ◌≤◌, ◌≡◌, refl, sym, ◌∙◌, ap, inl, inr, List, [], ◌∷◌, length, map, arith, ℤ, Bool-cases,
  ◌||◌, ◌==◌, leb_ℤ, pos,
}
use k180_project.Osd.Alloc.{
  Buffers, null_buffers, held, held_by, Ledger, init_slot, init_slot_vector, destroy_slot,
  destroy_slot_vector, Store, init_slots, init_track_slots, osd_init_slots, osd_destroy_slots, Call,
  inits, destroys, step, run, empty_store,
}

-- What the slots hold.
abbrev pub held_in : Store → ℕ
held_in s = held s.slots + held s.track_slots

-- Slots are made only where there are none: before each `inits` stands a `destroys`, or nothing.
abbrev pub IsPaired : List Call → Type 0
IsPaired [] = Unit {0}
IsPaired (destroys ∷ cs) = IsPaired cs
IsPaired (inits n ans bs ∷ []) = Unit {0}
IsPaired (inits n ans bs ∷ destroys ∷ cs) = IsPaired cs
IsPaired (inits n ans bs ∷ inits m xs ys ∷ cs) = ⊥

-- A new slot holds what its calls were given.
abbrev Holds : Ledger → Ledger → ℕ → Type 0
Holds l l' n = (l'.allocated ≡ l.allocated + n) × (l'.freed ≡ l.freed)

init_slot-Holds :
    (l : Ledger) (a : Buffers) → Holds l (init_slot l a).0.0 (held_by (init_slot l a).0.1)
unfolding init_slot held_by
init_slot-Holds l a = ground arith

held-nulls : (ans : List Buffers) → held (map (λ _. null_buffers) ans) ≡ 0
unfolding held held_by
held-nulls [] = refl
held-nulls (a ∷ ans) = omega (arith, held-nulls ans)

init_slot_vector-Holds :
    (l : Ledger) (ans : List Buffers)
    → Holds l (init_slot_vector l ans).0.0 (held (init_slot_vector l ans).0.1)
unfolding init_slot_vector held
init_slot_vector-Holds l [] = (omega arith, refl)
init_slot_vector-Holds l (a ∷ ans) =
    let one = init_slot-Holds l a in
    let rest = init_slot_vector-Holds (init_slot l a).0.0 ans in
    elim (Bool-cases (init_slot l a).1) [
      | inl e ↦ simp (e) (omega (arith, one.0, rest.0), rest.1 ∙ one.1)
      | inr e ↦ simp (e, held-nulls ans) (omega (arith, one.0), one.1)
    ]

-- A slot that is destroyed gives back what it holds.
destroy_slot-freed :
    (l : Ledger) (b : Buffers)
    → ((destroy_slot l b).0.freed ≡ l.freed + held_by b)
      × ((destroy_slot l b).0.allocated ≡ l.allocated)
unfolding destroy_slot held_by
destroy_slot-freed l b = ground arith

destroy_slot_vector-freed :
    (l : Ledger) (bs : List Buffers)
    → ((destroy_slot_vector l bs).0.freed ≡ l.freed + held bs)
      × ((destroy_slot_vector l bs).0.allocated ≡ l.allocated)
      × ((destroy_slot_vector l bs).1 ≡ [])
unfolding destroy_slot_vector held
destroy_slot_vector-freed l [] = (omega arith, refl, refl)
destroy_slot_vector-freed l (b ∷ bs) =
    let one = destroy_slot-freed l b in
    let rest = destroy_slot_vector-freed (destroy_slot l b).0 bs in
    (omega (arith, one.0, rest.0), rest.1 ∙ one.1, rest.2)

-- CUDA has handed out what it has taken back and what the slots hold.
abbrev pub IsAccounted : Store → Type 0
IsAccounted s = s.ledger.allocated ≡ s.ledger.freed + held_in s

-- It has handed out at least that much.
abbrev pub IsCovered : Store → Type 0
IsCovered s = s.ledger.freed + held_in s ≤ s.ledger.allocated

init-IsCovered :
    (s : Store) (n : ℤ) (ans bs : List Buffers)
    → IsCovered s
    → IsCovered (osd_init_slots s n ans bs).0
unfolding osd_init_slots init_slots init_track_slots
init-IsCovered s n ans bs h =
    let first = init_slot_vector-Holds s.ledger ans in
    let second = init_slot_vector-Holds (init_slot_vector s.ledger ans).0.0 bs in
    elim (Bool-cases (length ans == 0 || leb_ℤ n (pos 0))) [
      | inl e ↦ simp (e) h
      | inr e ↦ elim (Bool-cases (init_slot_vector s.ledger ans).1) [
        | inl o ↦ simp (e, o) (omega (arith, first.0, first.1, second.0, second.1))
        | inr o ↦ simp (e, o) (omega (arith, first.0, first.1))
      ]
    ]

-- Where no slot holds anything, an init loses nothing.
init-IsAccounted :
    (s : Store) (n : ℤ) (ans bs : List Buffers)
    → held s.slots ≡ 0
    → held s.track_slots ≡ 0
    → IsAccounted s
    → IsAccounted (osd_init_slots s n ans bs).0
unfolding osd_init_slots init_slots init_track_slots
init-IsAccounted s n ans bs z z' h =
    let first = init_slot_vector-Holds s.ledger ans in
    let second = init_slot_vector-Holds (init_slot_vector s.ledger ans).0.0 bs in
    elim (Bool-cases (length ans == 0 || leb_ℤ n (pos 0))) [
      | inl e ↦ simp (e) h
      | inr e ↦ elim (Bool-cases (init_slot_vector s.ledger ans).1) [
        | inl o ↦ simp (e, o) (omega (arith, first.0, first.1, second.0, second.1))
        | inr o ↦ simp (e, o) (omega (arith, first.0, first.1))
      ]
    ]

-- After a destroy no slot is left, and all that they held is given back.
destroys-freed :
    (s : Store)
    → let d = osd_destroy_slots s in
      (d.slots ≡ [])
      × (d.track_slots ≡ [])
      × (d.ledger.freed ≡ s.ledger.freed + held_in s)
      × (d.ledger.allocated ≡ s.ledger.allocated)
unfolding osd_destroy_slots
destroys-freed s =
    let one = destroy_slot_vector-freed s.ledger s.slots in
    let two = destroy_slot_vector-freed (destroy_slot_vector s.ledger s.slots).0 s.track_slots in
    (one.2, two.2, omega (arith, one.0, two.0), two.1 ∙ one.1)

abbrev IsEmpty : Store → Type 0
IsEmpty s = (held s.slots ≡ 0) × (held s.track_slots ≡ 0)

destroy-IsEmpty : (s : Store) → IsEmpty (osd_destroy_slots s)
unfolding held
destroy-IsEmpty s = let d = destroys-freed s in (ap held d.0, ap held d.1)

destroy-IsAccounted : (s : Store) → IsAccounted s → IsAccounted (osd_destroy_slots s)
destroy-IsAccounted s h =
    let d = destroys-freed s in let z = destroy-IsEmpty s in omega (arith, d.2, d.3, z.0, z.1)

destroy-IsCovered : (s : Store) → IsCovered s → IsCovered (osd_destroy_slots s)
destroy-IsCovered s h =
    let d = destroys-freed s in let z = destroy-IsEmpty s in omega (arith, d.2, d.3, z.0, z.1)

run-IsCovered : (s : Store) (cs : List Call) → IsCovered s → IsCovered (run s cs)
unfolding run step
run-IsCovered s [] h = h
run-IsCovered s (inits n ans bs ∷ cs) h =
    run-IsCovered (osd_init_slots s n ans bs).0 cs (init-IsCovered s n ans bs h)
run-IsCovered s (destroys ∷ cs) h = run-IsCovered (osd_destroy_slots s) cs (destroy-IsCovered s h)

run-IsAccounted :
    (s : Store) (cs : List Call) → IsEmpty s → IsAccounted s → IsPaired cs → IsAccounted (run s cs)
unfolding run step
run-IsAccounted s [] z h p = h
run-IsAccounted s (destroys ∷ cs) z h p =
    run-IsAccounted (osd_destroy_slots s) cs (destroy-IsEmpty s) (destroy-IsAccounted s h) p
run-IsAccounted s (inits n ans bs ∷ []) z h p = init-IsAccounted s n ans bs z.0 z.1 h
run-IsAccounted s (inits n ans bs ∷ destroys ∷ cs) z h p =
    let s1 = (osd_init_slots s n ans bs).0 in
    run-IsAccounted (osd_destroy_slots s1) cs (destroy-IsEmpty s1)
      (destroy-IsAccounted s1 (init-IsAccounted s n ans bs z.0 z.1 h)) p
run-IsAccounted s (inits n ans bs ∷ inits m xs ys ∷ cs) z h p = elim p [ ]

-- Whatever CUDA answers and whatever is called on a new shared record, in any order, no more buffers are
-- given back or held by a slot than CUDA has handed out. If between any two inits there is a destroy, the
-- slots hold exactly what CUDA has handed out and not taken back, also where an init fails half-way, and
-- after one more destroy all that CUDA has handed out is given back.
pub run-empty-IsAccounted :
    (cs : List Call)
    → IsCovered (run empty_store cs)
      × (IsPaired cs
          → IsAccounted (run empty_store cs)
            × ((osd_destroy_slots (run empty_store cs)).ledger.allocated
                ≡ (osd_destroy_slots (run empty_store cs)).ledger.freed))
unfolding empty_store held
run-empty-IsAccounted cs = (
  run-IsCovered empty_store cs (omega arith),
  λ p.
      let all = run-IsAccounted empty_store cs (refl, refl) refl p in
      let d = destroys-freed (run empty_store cs) in (all, d.3 ∙ all ∙ sym d.2),
)
