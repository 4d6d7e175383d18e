-- ===== src/Poolmgr/Pool/Debts.antt =====
-- When a Pool owes a poll. `settle_debts` is where an event leaves the question open.
use flintlock_runner.Prelude.{
  ℕ, ◌+◌, ◌%◌, ◌<◌, ◌≤◌, ◌≡◌, Bool, true, false, ◌∙◌, all, is_some, List, [], ◌∷◌, String, arith,
  ◌||◌, length, string_key, not,
}
use native.Mathlib.Decide.{dec_lt}
use flintlock_runner.Prelude.Words.{mod64, half32, lt32, le32}
use flintlock_runner.Prelude.Uids.{put, length-put, length-drop_le}
use flintlock_runner.Poolmgr.Count.{UidCount, total, take, add, remove, leaves}
use flintlock_runner.Poolmgr.Event.{
  Event, EventType, vm_available, vm_claimed, pool_size_below_target, Wire, below_target_counts,
}
use flintlock_runner.Poolmgr.Pool.{
  Chans, TrackedPool, available_count, switch, settle_debts, fold_event,
}

-- The Pool reads zero only while it owes the poll that would correct a wrong zero.
abbrev pub ZeroOwes : TrackedPool → Type 0
ZeroOwes p = available_count p ≡ 0 → p.needs_poll ≡ true

-- A doubt about an anonymous MicroVM is owed a poll as soon as the Pool reads short.
abbrev pub DoubtOwes : TrackedPool → Type 0
DoubtOwes p =
    p.unsettled ≡ true
    → (le32 p.size 0 || lt32 (available_count p) p.size) ≡ true
    → p.needs_poll ≡ true

settle_debts-DoubtOwes : (n : ℕ) (p : TrackedPool) → DoubtOwes (settle_debts n p)
unfolding settle_debts available_count
settle_debts-DoubtOwes n p doubt short = ground arith

settle_debts-zero :
    (n : ℕ) (p : TrackedPool)
    → 0 < n
    → n < half32
    → available_count (settle_debts n p) ≡ 0
    → (settle_debts n p).needs_poll ≡ true
unfolding settle_debts available_count
settle_debts-zero n p h k z = ground arith

settle_debts_keeps :
    (n : ℕ) (p : TrackedPool) → p.needs_poll ≡ true → (settle_debts n p).needs_poll ≡ true
unfolding settle_debts
settle_debts_keeps n p h = ground arith

-- After every event, of whatever kind, a Pool whose count may be one short owes a poll whenever it has
-- no target size or reads below it.
pub fold_event-DoubtOwes :
    (w : Wire) (e : Event) (p : TrackedPool) (cs : Chans) → DoubtOwes (fold_event w e p cs).0
unfolding fold_event
fold_event-DoubtOwes w e p cs =
    settle_debts-DoubtOwes (available_count (record p { generation = (p.generation + 1) % mod64 }))
      (switch w e e.type (record p { generation = (p.generation + 1) % mod64 }) cs).0

-- An event that counts a Pool down to nothing leaves it owing a poll.
pub fold_event-owes :
    (w : Wire) (e : Event) (p : TrackedPool) (cs : Chans)
    → 0 < available_count p
    → available_count p < half32
    → available_count (fold_event w e p cs).0 ≡ 0
    → (fold_event w e p cs).0.needs_poll ≡ true
unfolding fold_event available_count
fold_event-owes w e p cs h k z =
    settle_debts-zero (available_count p)
      (switch w e e.type (record p { generation = (p.generation + 1) % mod64 }) cs).0 h k z

-- The event carries the Pool Manager's own counts, which settle the Pool.
abbrev settles_as : Wire → Event → EventType → Bool
settles_as w e pool_size_below_target = is_some (below_target_counts w e)
settles_as w e _ = false

abbrev pub settles : Wire → Event → Bool
settles w e = settles_as w e e.type

needs_poll-switch :
    (w : Wire) (e : Event) (t : EventType) (p : TrackedPool) (cs : Chans)
    → settles_as w e t ≡ false
    → (switch w e t p cs).0.needs_poll ≡ p.needs_poll
unfolding switch
needs_poll-switch w e vm_available p cs h = ground arith
needs_poll-switch w e _ p cs h = ground arith

fold_event_keeps_debt :
    (w : Wire) (e : Event) (p : TrackedPool) (cs : Chans)
    → settles w e ≡ false
    → p.needs_poll ≡ true
    → (fold_event w e p cs).0.needs_poll ≡ true
unfolding fold_event
fold_event_keeps_debt w e p cs h owed =
    let p' = record p { generation = (p.generation + 1) % mod64 } in
    settle_debts_keeps (available_count p') (switch w e e.type p' cs).0
      (needs_poll-switch w e e.type p' cs h ∙ owed)

fold_event-ZeroOwes :
    (w : Wire) (e : Event) (p : TrackedPool) (cs : Chans)
    → settles w e ≡ false
    → available_count p < half32
    → ZeroOwes p
    → ZeroOwes (fold_event w e p cs).0
fold_event-ZeroOwes w e p cs h k z zero_now = elim (dec_lt 0 (available_count p)) [
  | yes pos ↦ fold_event-owes w e p cs pos k zero_now
  | no empty ↦ fold_event_keeps_debt w e p cs h (z (omega arith))
]

-- How many MicroVMs the available count holds, before it is cut to 32 bits.
abbrev pub bulk : UidCount → ℕ
bulk c = length c.named + c.unnamed

bulk-take : (c : UidCount) (u : String) → c.unnamed ≤ half32 → bulk (take c u).0 ≤ bulk c
unfolding take
bulk-take c u h = ground arith

bulk-add : (c : UidCount) (u : String) → c.unnamed ≤ half32 → bulk (add c u).0 ≤ bulk c + 1
unfolding add
bulk-add c u h =
    ground (arith, bulk-take (record c { named = put u c.named }) u, length-put u c.named)

bulk-remove : (c : UidCount) (u : String) → bulk (remove c u).0 ≤ bulk c
unfolding remove
bulk-remove c u = ground (arith, length-drop_le u c.named)

bulk-leaves : (c : UidCount) (u : String) → c.unnamed ≤ half32 → bulk (leaves c u) ≤ bulk c
unfolding leaves remove
bulk-leaves c u h = ground (arith, bulk-take c u, length-drop_le u c.named)

bulk-switch :
    (w : Wire) (e : Event) (t : EventType) (p : TrackedPool) (cs : Chans)
    → settles_as w e t ≡ false
    → p.available.unnamed ≤ half32
    → bulk (switch w e t p cs).0.available ≤ bulk p.available + 1
unfolding switch
bulk-switch w e vm_available p cs h k = ground (arith, bulk-add p.available e.vm_uid)
bulk-switch w e vm_claimed p cs h k = ground (arith, bulk-leaves p.available e.vm_uid)
bulk-switch w e _ p cs h k = ground (arith, bulk-remove p.available e.vm_uid)

available-settle_debts : (n : ℕ) (p : TrackedPool) → (settle_debts n p).available ≡ p.available
unfolding settle_debts
available-settle_debts n p = ground arith

bulk-fold_event :
    (w : Wire) (e : Event) (p : TrackedPool) (cs : Chans)
    → settles w e ≡ false
    → p.available.unnamed ≤ half32
    → bulk (fold_event w e p cs).0.available ≤ bulk p.available + 1
unfolding fold_event
bulk-fold_event w e p cs h k =
    let p' = record p { generation = (p.generation + 1) % mod64 } in
    rw (available-settle_debts (available_count p') (switch w e e.type p' cs).0)
      (bulk-switch w e e.type p' cs h k)

available_count-le-bulk : (p : TrackedPool) → available_count p ≤ bulk p.available
unfolding available_count total
available_count-le-bulk p = ground arith

-- A run of events for one Pool.
unfoldable pub fold_events : Wire → List Event → TrackedPool → Chans → TrackedPool × Chans
fold_events w [] p cs = (p, cs)
fold_events w (e ∷ es) p cs = let (q, cs', woken) = fold_event w e p cs in fold_events w es q cs'

-- While events alone tell the Tracker about a Pool, whatever they are and however often they repeat,
-- the Pool never reads zero without owing the poll that would correct it. (The Pool Manager's own
-- counts settle a Pool, so none of the events carries them; the counts stay within int32.)
pub fold_events-ZeroOwes :
    (w : Wire) (es : List Event) (p : TrackedPool) (cs : Chans)
    → all (λ e. not (settles w e)) es ≡ true
    → bulk p.available + length es < half32
    → ZeroOwes p
    → ZeroOwes (fold_events w es p cs).0
unfolding fold_events
fold_events-ZeroOwes w [] p cs h k z = z
fold_events-ZeroOwes w (e ∷ es) p cs h k z =
    let quiet : settles w e ≡ false = ground arith in
    let rest : all (λ e'. not (settles w e')) es ≡ true = ground arith in
    let q = fold_event w e p cs in
    let grown = bulk-fold_event w e p cs quiet (omega arith) in
    let small : available_count p < half32 = omega (arith, available_count-le-bulk p) in
    fold_events-ZeroOwes w es q.0 q.1 rest (omega (arith, grown))
      (fold_event-ZeroOwes w e p cs quiet small z)
