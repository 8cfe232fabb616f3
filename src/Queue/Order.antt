-- ===== src/Queue/Order.antt =====
-- k180_stage_queue.h: the order of the items over a history of calls.
use k180_project.Base.{
  ℕ, suc, ◌-◌, ◌≡◌, refl, sym, ap, ◌∙◌, Bool, true, false, List, [], ◌∷◌, ◌++◌, Option, some,
  length, drop, take, take-append-drop, subst, Bool-cases, inl, inr, if◌then◌else◌,
}
use mathlib.Core.List.{append_assoc, append-nil}
use k180_project.Queue.{
  StageQueue, Call, pushes, tries, pops, pops_latest, tries_pop, tries_pop_latest, closes, got,
  nothing, waits, pop, pop_latest, try_pop, try_pop_latest, take_front, drop_old, step, run, wakes,
  is_empty,
}
use k180_project.Queue.Bounds.{IsValid, pushed, push_open, push_closed, step-Keeps}

module _ {ℓ} {T : Type ℓ} where
  drop_old-append : (xs : List T) (x : T) → drop_old (xs ++ x ∷ []) ≡ x ∷ []
  unfolding drop_old
  drop_old-append [] x = refl
  drop_old-append (y ∷ []) x = refl
  drop_old-append (y ∷ z ∷ zs) x = drop_old-append (z ∷ zs) x

  wakes-append :
      (s : StageQueue T) (xs : List T) (x : T) → wakes (record s { q = xs ++ x ∷ [] }) ≡ true
  unfolding wakes is_empty
  wakes-append s [] x = elim (Bool-cases s.closed) [ inl c ↦ simp c | inr o ↦ simp o ]
  wakes-append s (y ∷ xs) x = elim (Bool-cases s.closed) [ inl c ↦ simp c | inr o ↦ simp o ]

  -- The pops that take the newest item: behind any older items, `x` comes out and nothing stays.
  pub pop_latest-newest :
      (s : StageQueue T) (xs : List T) (x : T)
      → let full : StageQueue T = record s { q = xs ++ x ∷ [] } in
        (pop_latest full ≡ (record s { q = [] }, got x))
        × (try_pop_latest full ≡ (record s { q = [] }, got x))
  unfolding pop_latest try_pop_latest
  pop_latest-newest s xs x = rw (wakes-append s xs x, drop_old-append xs x) (refl, refl)

  -- The other pops take the oldest item and keep the rest in order. On an empty queue a waiting
  -- pop returns false once the queue is closed and else keeps waiting; the others return false.
  pub pop-oldest :
      (s : StageQueue T) (x : T) (xs : List T)
      → let full : StageQueue T = record s { q = x ∷ xs } in
        let empty : StageQueue T = record s { q = [] } in
        (pop full ≡ (record s { q = xs }, got x))
        × (try_pop full ≡ (record s { q = xs }, got x))
        × (pop empty ≡ (empty, (if s.closed then nothing else waits)))
        × (pop_latest empty ≡ (empty, (if s.closed then nothing else waits)))
        × (try_pop empty ≡ (empty, nothing))
        × (try_pop_latest empty ≡ (empty, nothing))
  unfolding pop pop_latest try_pop try_pop_latest is_empty
  pop-oldest s x xs = elim (Bool-cases s.closed) [
    | inl c ↦ simp c (refl, refl, refl, refl, refl, refl)
    | inr o ↦ simp o (refl, refl, refl, refl, refl, refl)
  ]

-- The items that the queue takes in: those pushed before it is closed.
abbrev pub accepted {ℓ} : {T : Type ℓ} → Bool → List (Call T) → List T
accepted true cs = []
accepted false [] = []
accepted false (pushes x ∷ cs) = x ∷ accepted false cs
accepted false (tries x ∷ cs) = x ∷ accepted false cs
accepted false (pops ∷ cs) = accepted false cs
accepted false (pops_latest ∷ cs) = accepted false cs
accepted false (tries_pop ∷ cs) = accepted false cs
accepted false (tries_pop_latest ∷ cs) = accepted false cs
accepted false (closes ∷ cs) = []

-- `xs` is the end of `ys`.
abbrev pub EndOf {ℓ} : {T : Type ℓ} → List T → List T → Type ℓ
EndOf {T = T} xs ys = (older : List T) × (older ++ xs ≡ ys)

module _ {ℓ} {T : Type ℓ} where
  EndOf-append : (xs ys zs : List T) → EndOf xs ys → EndOf (xs ++ zs) (ys ++ zs)
  EndOf-append xs ys zs (older, e) = (older, sym (append_assoc older xs zs) ∙ ap (λ l. l ++ zs) e)

  EndOf-trans : (xs ys zs : List T) → EndOf xs ys → EndOf ys zs → EndOf xs zs
  EndOf-trans xs ys zs (a, e) (b, f) = (b ++ a, append_assoc b a xs ∙ ap (◌++◌ b) e ∙ f)

  EndOf-drop : (k : ℕ) (xs : List T) → EndOf (drop k xs) xs
  EndOf-drop k xs = (take k xs, take-append-drop k xs)

  EndOf-drop_old : (xs : List T) → EndOf (drop_old xs) xs
  unfolding drop_old
  EndOf-drop_old [] = ([], refl)
  EndOf-drop_old (x ∷ []) = ([], refl)
  EndOf-drop_old (x ∷ y ∷ ys) =
      let (older, e) = EndOf-drop_old (y ∷ ys) in (x ∷ older, ap (◌∷◌ x) e)

  EndOf-take_front :
      (s : StageQueue T) (xs : List T) → EndOf xs s.q → EndOf (take_front s xs).0.q s.q
  unfolding take_front
  EndOf-take_front s [] h = ([], refl)
  EndOf-take_front s (x ∷ xs) h = EndOf-trans xs (x ∷ xs) s.q (x ∷ [], refl) h

  -- What one call does to the queue and to the items still to be taken in, whatever follows.
  abbrev Feeds : StageQueue T → Call T → Option (StageQueue T) → Type ℓ
  Feeds s c r =
      (s' : StageQueue T) × (r ≡ some s')
      × ((cs : List (Call T))
          → EndOf (s'.q ++ accepted s'.closed cs) (s.q ++ accepted s.closed (c ∷ cs)))

  closed-take_front : (s : StageQueue T) (xs : List T) → (take_front s xs).0.closed ≡ s.closed
  unfolding take_front
  closed-take_front s [] = refl
  closed-take_front s (x ∷ xs) = refl

  -- A call that adds nothing, and takes the queue to an end of itself.
  shrinks :
      (s s' : StageQueue T) (c : Call T)
      → ((b : Bool) (cs : List (Call T)) → accepted b (c ∷ cs) ≡ accepted b cs)
      → s'.closed ≡ s.closed
      → EndOf s'.q s.q
      → Feeds s c (some s')
  shrinks s s' c none_added e h =
      (s', refl, λ cs. rw (e, none_added s.closed cs) (EndOf-append s'.q s.q _ h))

  takes :
      (s : StageQueue T) (xs : List T) (c : Call T)
      → ((b : Bool) (cs : List (Call T)) → accepted b (c ∷ cs) ≡ accepted b cs)
      → EndOf xs s.q
      → Feeds s c (some (take_front s xs).0)
  takes s xs c none_added h =
      shrinks s _ c none_added (closed-take_front s xs) (EndOf-take_front s xs h)

  all_of : (xs : List T) → EndOf xs xs
  all_of xs = ([], refl)

  pushed-EndOf :
      (s : StageQueue T) (x : T)
      → s.closed ≡ false
      → (cs : List (Call T))
      → EndOf ((pushed s x).q ++ accepted s.closed cs) (s.q ++ x ∷ accepted s.closed cs)
  pushed-EndOf s x o cs =
      let k = suc (length s.q) - s.max_items in
      let (older, e) = EndOf-drop k s.q in
      let later = accepted s.closed cs in
      (
        older,
        ap (◌++◌ older) (append_assoc (drop k s.q) (x ∷ []) later)
            ∙ sym (append_assoc older (drop k s.q) (x ∷ later))
            ∙ ap (λ l. l ++ x ∷ later) e,
      )

  -- Both pushes, by their two cases.
  push-Feeds :
      (s : StageQueue T) (x : T) (c : Call T)
      → ((cs : List (Call T)) → accepted true (c ∷ cs) ≡ [])
      → ((cs : List (Call T)) → accepted false (c ∷ cs) ≡ x ∷ accepted false cs)
      → (s.closed ≡ true → step s c ≡ some s)
      → (s.closed ≡ false → step s c ≡ some (pushed s x))
      → Feeds s c (step s c)
  push-Feeds s x c none_added adds shut open' = elim (Bool-cases s.closed) [
    | inl e ↦ (s, shut e, λ cs. simp (e, none_added cs) (all_of _))
    | inr o ↦ (pushed s x, open' o, λ cs. simp (o, adds cs) (simp o at (pushed-EndOf s x o cs)))
  ]

  step-Feeds : (s : StageQueue T) (c : Call T) → IsValid s → Feeds s c (step s c)
  unfolding step
  step-Feeds s (pushes x) v =
      push-Feeds s x (pushes x) (λ cs. refl) (λ cs. refl) (λ e. (push_closed s x e).0)
        (λ o. (push_open s x v o).0)
  step-Feeds s (tries x) v =
      push-Feeds s x (tries x) (λ cs. refl) (λ cs. refl)
        (λ e. rw ((push_closed s x e).1, step) refl) (λ o. rw ((push_open s x v o).1, step) refl)
  step-Feeds s pops v = elim (Bool-cases (wakes s)) [
    | inl w ↦ rw (w, step) (takes s s.q pops same (all_of s.q))
    | inr w ↦ rw (w, step) (shrinks s s pops same refl (all_of s.q))
  ]
    where
      same : (b : Bool) (cs : List (Call T)) → accepted b (pops ∷ cs) ≡ accepted b cs
      same true cs = refl
      same false cs = refl
  step-Feeds s pops_latest v = elim (Bool-cases (wakes s)) [
    | inl w ↦ rw (w, step) (takes s (drop_old s.q) pops_latest same (EndOf-drop_old s.q))
    | inr w ↦ rw (w, step) (shrinks s s pops_latest same refl (all_of s.q))
  ]
    where
      same : (b : Bool) (cs : List (Call T)) → accepted b (pops_latest ∷ cs) ≡ accepted b cs
      same true cs = refl
      same false cs = refl
  step-Feeds s tries_pop v = takes s s.q tries_pop same (all_of s.q)
    where
      same : (b : Bool) (cs : List (Call T)) → accepted b (tries_pop ∷ cs) ≡ accepted b cs
      same true cs = refl
      same false cs = refl
  step-Feeds s tries_pop_latest v =
      takes s (drop_old s.q) tries_pop_latest same (EndOf-drop_old s.q)
    where
      same : (b : Bool) (cs : List (Call T)) → accepted b (tries_pop_latest ∷ cs) ≡ accepted b cs
      same true cs = refl
      same false cs = refl
  step-Feeds s closes v = (record s { closed = true }, refl, λ cs. ends s.closed cs)
    where
      ends : (b : Bool) (cs : List (Call T)) → EndOf (s.q ++ []) (s.q ++ accepted b (closes ∷ cs))
      ends true cs = all_of _
      ends false cs = all_of _

  some_eq : {s t : StageQueue T} → some s ≡ some t → s ≡ t
  some_eq e = cc

  -- After any history of calls the queue holds the newest of the items taken in, in the order of
  -- their pushes, none twice: its content is an end of the first content followed by the items
  -- pushed before the first close.
  pub run-EndOf :
      (s s' : StageQueue T) (cs : List (Call T))
      → IsValid s
      → run s cs ≡ some s'
      → EndOf s'.q (s.q ++ accepted s.closed cs)
  unfolding run
  run-EndOf s s' [] v e =
      let same : s ≡ s' = cc in
      subst (λ t. EndOf t.q (s.q ++ accepted s.closed [])) same (s_end s.closed)
    where
      s_end : (b : Bool) → EndOf s.q (s.q ++ accepted b [])
      s_end true = ([], sym (append-nil s.q))
      s_end false = ([], sym (append-nil s.q))
  run-EndOf s s' (c ∷ cs) v e =
      let (s1, e1, feeds) = step-Feeds s c v in
      let (s2, e2, v2, _) = step-Keeps s c v in
      let same : s2 ≡ s1 = some_eq (sym e2 ∙ e1) in
      EndOf-trans s'.q _ _ (run-EndOf s1 s' cs (subst IsValid same v2) (rw (e1, run) at e))
        (feeds cs)
