-- ===== src/Osd/Alloc.antt =====
-- rtsp_server/src/k180_osd_slots.cpp: the CUDA buffers of the slots. A pointer is the Boolean that says it
-- is not null; the answers of the CUDA calls are arguments. `clear` drops slots with their pointers.
pub mod Account
mod Tests
use k180_project.Base.{
  ℕ, ◌+◌, Bool, true, false, not, ◌||◌, List, [], ◌∷◌, length, map, ◌==◌, if◌then◌else◌, ℤ, pos,
  leb_ℤ,
}

-- `det_device`, `det_count_device`, `det_host`, `det_count_host` and `ready_event` of a slot.
pub record Buffers : Type 0 where
  pub det_device : Bool
  pub det_count_device : Bool
  pub det_host : Bool
  pub det_count_host : Bool
  pub ready_event : Bool

abbrev pub null_buffers : Buffers
null_buffers = record {
  det_device = false;
  det_count_device = false;
  det_host = false;
  det_count_host = false;
  ready_event = false;
}

abbrev pub one_if : Bool → ℕ
one_if true = 1
one_if false = 0

-- How many buffers a slot holds.
pub held_by : Buffers → ℕ
held_by b =
    one_if b.det_device
    + one_if b.det_count_device
    + one_if b.det_host
    + one_if b.det_count_host
    + one_if b.ready_event

pub held : List Buffers → ℕ
held [] = 0
held (b ∷ bs) = held_by b + held bs

-- How many buffers CUDA has handed out and taken back.
pub record Ledger : Type 0 where
  pub allocated : ℕ
  pub freed : ℕ

-- A call that allocates and succeeds.
abbrev pub handed : Ledger → Ledger
handed l = record l { allocated = l.allocated + 1 }

-- `if (p) { cudaFree(p); p = nullptr; }`, with the call that fits the pointer.
abbrev pub free_one : Bool → Ledger → Ledger
free_one p l = if p then record l { freed = l.freed + 1 } else l

-- The calls for one slot, in their order, each with its own entry in the ledger; the record says which of
-- them would succeed.
pub init_slot : Ledger → Buffers → (Ledger × Buffers) × Bool
init_slot l a =
    let b0 = null_buffers in
    if not a.det_device
    then ((l, b0), false)
    else let l1 = handed l in
      let b1 : Buffers = record b0 { det_device = true } in
      if not a.det_count_device
      then ((l1, b1), false)
      else let l2 = handed l1 in
        let b2 : Buffers = record b1 { det_count_device = true } in
        if not a.det_host
        then ((l2, b2), false)
        else let l3 = handed l2 in
          let b3 : Buffers = record b2 { det_host = true } in
          if not a.det_count_host
          then ((l3, b3), false)
          else let l4 = handed l3 in
            let b4 : Buffers = record b3 { det_count_host = true } in
            if not a.ready_event
            then ((l4, b4), false)
            else ((handed l4, record b4 { ready_event = true }), true)

-- The loop over the new slots, one answer for each; the slots after a failure stay null.
pub init_slot_vector : Ledger → List Buffers → (Ledger × List Buffers) × Bool
unfolding init_slot
init_slot_vector l [] = ((l, []), true)
init_slot_vector l (a ∷ ans) =
    let ((l1, b), ok) = init_slot l a in
    let ((l2, bs), all_ok) = init_slot_vector l1 ans in
    if ok then ((l2, b ∷ bs), all_ok) else ((l1, b ∷ map (λ _. null_buffers) ans), false)

-- Each pointer of a slot that is not null is given back and made null.
pub destroy_slot : Ledger → Buffers → Ledger × Buffers
destroy_slot l b =
    let l1 = free_one b.ready_event l in
    let l2 = free_one b.det_device l1 in
    let l3 = free_one b.det_count_device l2 in
    let l4 = free_one b.det_host l3 in (free_one b.det_count_host l4, null_buffers)

-- `vec.clear()` drops the slots at the end, with the pointers that they still hold.
pub destroy_slot_vector : Ledger → List Buffers → Ledger × List Buffers
unfolding destroy_slot
destroy_slot_vector l [] = (l, [])
destroy_slot_vector l (b ∷ bs) = destroy_slot_vector (destroy_slot l b).0 bs

-- Both vectors, with the ledger.
pub record Store : Type 0 where
  pub slots : List Buffers
  pub track_slots : List Buffers
  pub ledger : Ledger

pub init_slots : Store → List Buffers → Store × Bool
unfolding init_slot_vector
init_slots s answers =
    let r = init_slot_vector s.ledger answers in (record s { slots = r.0.1; ledger = r.0.0 }, r.1)

pub init_track_slots : Store → List Buffers → Store × Bool
unfolding init_slot_vector
init_track_slots s answers =
    let r = init_slot_vector s.ledger answers in
    (record s { track_slots = r.0.1; ledger = r.0.0 }, r.1)

-- `answers` and `track_answers` have `slot_count` entries.
pub osd_init_slots : Store → ℤ → List Buffers → List Buffers → Store × Bool
osd_init_slots s max_det answers track_answers =
    if length answers == 0 || leb_ℤ max_det (pos 0)
    then (s, false)
    else let r = init_slots s answers in
      if not r.1 then (r.0, false) else init_track_slots r.0 track_answers

pub osd_destroy_slots : Store → Store
unfolding destroy_slot_vector
osd_destroy_slots s =
    let r = destroy_slot_vector s.ledger s.slots in
    let r' = destroy_slot_vector r.0 s.track_slots in
    record { slots = r.1; track_slots = r'.1; ledger = r'.0 }

pub data Call : Type 0 where
  inits : ℤ → List Buffers → List Buffers → Call
  destroys : Call

pub step : Store → Call → Store
step s (inits n ans bs) = (osd_init_slots s n ans bs).0
step s destroys = osd_destroy_slots s

pub run : Store → List Call → Store
run s [] = s
run s (c ∷ cs) = run (step s c) cs

-- A shared record as it is constructed.
pub empty_store : Store
empty_store = record { slots = []; track_slots = []; ledger = record { allocated = 0; freed = 0 } }
