-- ===== src/Http/Slots.antt =====
-- internal/httpapi/server.go: the slots for requests in flight. A request takes a slot for as long as it
-- runs, or is rejected; `wrap` gives the slot back by `defer`.
use alfa_hakaton.Common.{
  ℕ, suc, ◌+◌, ◌-◌, ◌≤◌, ◌≡◌, refl, subst, Bool, true, false, List, [], ◌∷◌, length, ltb, ◌==◌,
  if◌then◌else◌, arith, any, ==_iff,
}

-- The channel `sem`: its capacity and how many of its places are taken; and the requests that run.
pub record Slots : Type 0 where
  pub max_inflight : ℕ
  pub taken : ℕ
  pub running : List ℕ

unfoldable pub new_slots : ℕ → Slots
new_slots max_inflight = record { max_inflight = max_inflight; taken = 0; running = [] }

-- The `select`: a place of the channel is taken, or none is free.
unfoldable pub acquire_slot : Slots → Slots × Bool
acquire_slot s =
    if ltb s.taken s.max_inflight then (record s { taken = s.taken + 1 }, true) else (s, false)

unfoldable pub release_slot : Slots → Slots
release_slot s = record s { taken = s.taken - 1 }

abbrev pub started : ℕ → Slots × Bool → Slots
started id (s, true) = record s { running = id ∷ s.running }
started id (s, false) = s

-- A request comes, and runs if it gets a slot.
unfoldable pub arrive : ℕ → Slots → Slots
unfolding acquire_slot
arrive id s = started id (acquire_slot s)

unfoldable pub without : ℕ → List ℕ → List ℕ
without id [] = []
without id (r ∷ running) = if r == id then running else r ∷ without id running

-- A request that runs ends, and its slot is released.
unfoldable pub leave : ℕ → Slots → Slots
unfolding release_slot without
leave id s = release_slot (record s { running = without id s.running })

-- What can happen: requests come in any order, and any that runs may end.
pub data Step : Slots → Slots → Type 0 where
  comes : (s : Slots) (id : ℕ) → Step s (arrive id s)
  ends : (s : Slots) (id : ℕ) → any (λ r. r == id) s.running ≡ true → Step s (leave id s)

pub data Reach (s : Slots) : Slots → Type 0 where
  here : Reach s s
  next : {t u : Slots} → Reach s t → Step t u → Reach s u

pub record IsBounded (max : ℕ) (s : Slots) : Type 0 where
  pub same : s.max_inflight ≡ max
  pub counted : s.taken ≡ length s.running
  pub within : s.taken ≤ max

length-without :
    (id : ℕ) (rs : List ℕ) → any (λ r. r == id) rs ≡ true → suc (length (without id rs)) ≡ length rs
unfolding without
length-without id [] h = cc
length-without id (r ∷ rs) h = ground (arith, length-without id rs)

arrive-IsBounded : (max id : ℕ) (s : Slots) → IsBounded max s → IsBounded max (arrive id s)
unfolding arrive
arrive-IsBounded max id s b = ground arith

leave-IsBounded :
    (max id : ℕ) (s : Slots)
    → any (λ r. r == id) s.running ≡ true
    → IsBounded max s
    → IsBounded max (leave id s)
unfolding leave
leave-IsBounded max id s h b = ground (arith, length-without id s.running h)

Step-IsBounded : {max : ℕ} {s t : Slots} → Step s t → IsBounded max s → IsBounded max t
Step-IsBounded {max} (comes s id) b = arrive-IsBounded max id s b
Step-IsBounded {max} (ends s id h) b = leave-IsBounded max id s h b

Reach-IsBounded : {max : ℕ} {s t : Slots} → IsBounded max s → Reach s t → IsBounded max t
Reach-IsBounded b here = b
Reach-IsBounded b (next r st) = Step-IsBounded st (Reach-IsBounded b r)

new_slots-IsBounded : (max : ℕ) → IsBounded max (new_slots max)
unfolding new_slots
new_slots-IsBounded max = ground arith

-- However requests come and end, as many slots are taken as requests run, and never more run than
-- `max_inflight`.
pub slots-IsBounded :
    (max : ℕ) (s : Slots)
    → Reach (new_slots max) s
    → (s.taken ≡ length s.running) × (length s.running ≤ max)
slots-IsBounded max s r =
    let b = Reach-IsBounded (new_slots-IsBounded max) r in
    (b.counted, omega (arith, b.counted, b.within))

Reach-trans : {s t u : Slots} → Reach s t → Reach t u → Reach s u
Reach-trans r here = r
Reach-trans r (next q st) = next (Reach-trans r q) st

leave_first :
    (r : ℕ) (rs : List ℕ) (max taken : ℕ)
    → leave r (record { max_inflight = max; taken = taken; running = r ∷ rs })
      ≡ record { max_inflight = max; taken = taken - 1; running = rs }
unfolding leave
leave_first r rs max taken = rw ((==_iff r r).1 refl) refl

-- The requests that run can end one after the other.
drained :
    (rs : List ℕ) (max taken : ℕ)
    → taken ≡ length rs
    → Reach
        (record { max_inflight = max; taken = taken; running = rs })
        (record { max_inflight = max; taken = 0; running = [] })
drained [] max taken e = rw e here
drained (r ∷ rs) max taken e =
    let s : Slots = record { max_inflight = max; taken = taken; running = r ∷ rs } in
    Reach-trans (next here (ends s r (rw ((==_iff r r).1 refl) refl)))
      (rw (leave_first r rs max taken) (drained rs max (taken - 1) (omega (arith, e))))

-- No slot is lost: from wherever the server has come to, the requests that run can end, and then all
-- slots are free.
pub slots_can_drain : (max : ℕ) (s : Slots) → Reach (new_slots max) s → Reach s (new_slots max)
unfolding new_slots
slots_can_drain max s r =
    let b = Reach-IsBounded (new_slots-IsBounded max) r in
    subst (λ m. Reach s (record { max_inflight = m; taken = 0; running = [] })) b.same
      (drained s.running s.max_inflight s.taken b.counted)

-- When a request ends, the next one that comes gets a slot.
slot_after_leave :
    (max id : ℕ) (s : Slots)
    → Reach (new_slots max) s
    → any (λ r. r == id) s.running ≡ true
    → (acquire_slot (leave id s)).1 ≡ true
unfolding acquire_slot leave
slot_after_leave max id s r h =
    let b = Reach-IsBounded (new_slots-IsBounded max) r in
    ground (arith, length-without id s.running h, b.same, b.counted, b.within)
