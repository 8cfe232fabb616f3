-- ===== src/Tracker/Service/Requests.antt =====
-- k180_nvtracker.cpp: the request ids of the tracking service.
use k180_project.Base.{
  ℕ, ◌+◌, ◌≤◌, ◌<◌, ◌≡◌, true, false, List, [], ◌∷◌, Option, none, some, arith, u64_mod, length,
}
use k180_project.Tracker.Service.{
  Service, is_start_pending, request_start_from_detection, set_tracking_started, Call, inits,
  requests, step, run,
}

module _ {D : Type 0} (blank : D) where
  step-next :
      (s : Service D) (c : Call D)
      → s.next_request_id + 1 < u64_mod
      → (s.next_request_id ≤ (step blank s c).next_request_id)
        × ((step blank s c).next_request_id ≤ s.next_request_id + 1)
  unfolding step
  step-next s inits h = ground arith
  step-next s c h = ground arith

  run-next :
      (s : Service D) (cs : List (Call D))
      → s.next_request_id + length cs < u64_mod
      → s.next_request_id ≤ (run blank s cs).next_request_id
  unfolding run
  run-next s [] h = omega arith
  run-next s (c ∷ cs) h =
      let (low, high) = step-next s c (omega arith) in
      omega (arith, run-next (step blank s c) cs (omega arith))

  run-next_most :
      (s : Service D) (cs : List (Call D))
      → s.next_request_id + length cs < u64_mod
      → (run blank s cs).next_request_id ≤ s.next_request_id + length cs
  unfolding run
  run-next_most s [] h = omega arith
  run-next_most s (c ∷ cs) h =
      let (low, high) = step-next s c (omega arith) in
      omega (arith, run-next_most (step blank s c) cs (omega arith))

  -- The id that a request is given, if it is accepted.
  unfoldable pub request_id_of : Service D → D → ℕ → Option ℕ
  unfolding request_start_from_detection
  request_id_of s d f =
      let (s', ok) = request_start_from_detection blank s d f in
      elim ok [ true ↦ some s'.pending_req.request_id | false ↦ none ]

  id-request :
      (s : Service D) (d : D) (f : ℕ) {id : ℕ}
      → request_id_of s d f ≡ some id
      → (id ≡ s.next_request_id)
        × ((step blank s (requests d f)).pending_req.request_id ≡ id)
        × (s.next_request_id + 1 < u64_mod
            → (step blank s (requests d f)).next_request_id ≡ s.next_request_id + 1)
  unfolding request_id_of step
  id-request s d f e = (ground arith, ground arith, λ h. ground arith)

  -- Every start that is pending has a later id than `old`, and so have the ids to come.
  record IsPast (old : ℕ) (s : Service D) : Type 0 where
    pending : is_start_pending s.state ≡ true → old < s.pending_req.request_id
    coming : old < s.next_request_id

  step-IsPast :
      (old : ℕ) (s : Service D) (c : Call D)
      → s.next_request_id + 1 < u64_mod
      → IsPast old s
      → IsPast old (step blank s c)
  unfolding step
  step-IsPast old s (requests d f) h p = record {
    pending = ground (arith, p.pending, p.coming);
    coming = ground (arith, p.coming);
  }
  step-IsPast old s c h p = record {
    pending = ground (arith, p.pending, p.coming);
    coming = ground (arith, p.coming);
  }

  run-IsPast :
      (old : ℕ) (s : Service D) (cs : List (Call D))
      → s.next_request_id + length cs < u64_mod
      → IsPast old s
      → IsPast old (run blank s cs)
  unfolding run
  run-IsPast old s [] h p = p
  run-IsPast old s (c ∷ cs) h p =
      let (_, high) = step-next s c (omega arith) in
      run-IsPast old (step blank s c) cs (omega arith) (step-IsPast old s c (omega arith) p)

  past_refused :
      (old : ℕ) (s : Service D) (track_id : ℕ) (det : D) (frame : ℕ)
      → IsPast old s
      → set_tracking_started s old track_id det frame ≡ (s, false)
  unfolding set_tracking_started
  past_refused old s track_id det frame p = ground (arith, p.pending)

  -- A start that carries the id of an accepted request is refused, and changes nothing, once a later
  -- request has been accepted, whatever was called between the two and whatever is called between the
  -- later one and the start (with ids left in 64 bits); the later id is greater.
  pub stale_start_refused :
      (s : Service D) (d d' : D) (f f' : ℕ) (cs after : List (Call D)) (old new : ℕ) (track_id : ℕ)
      (det : D) (frame : ℕ)
      → s.next_request_id + length cs + length after + 3 < u64_mod
      → request_id_of s d f ≡ some old
      → request_id_of (run blank (step blank s (requests d f)) cs) d' f' ≡ some new
      → let between = run blank (step blank s (requests d f)) cs in
        let later = run blank (step blank between (requests d' f')) after in
        (set_tracking_started later old track_id det frame ≡ (later, false)) × (old < new)
  stale_start_refused s d d' f f' cs after old new track_id det frame h e e' =
      let s1 = step blank s (requests d f) in
      let between = run blank s1 cs in
      let first = id-request s d f e in
      let second = id-request between d' f' e' in
      let grows = run-next s1 cs (omega (arith, first.2 (omega arith))) in
      let few = run-next_most s1 cs (omega (arith, first.2 (omega arith))) in
      let newer : old < new = omega (arith, first.2 (omega arith)) in
      let room : between.next_request_id + 1 < u64_mod = omega (arith, first.2 (omega arith)) in
      let past : IsPast old (step blank between (requests d' f')) = record {
        pending = λ _. omega arith;
        coming = omega (arith, second.2 room);
      } in
      (
        past_refused old (run blank (step blank between (requests d' f')) after) track_id det frame
            (run-IsPast old (step blank between (requests d' f')) after
              (omega (arith, second.2 room, first.2 (omega arith))) past),
        newer,
      )
