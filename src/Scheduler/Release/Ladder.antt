-- ===== src/Scheduler/Release/Ladder.antt =====
-- `releaseLease`: the calls that one release makes, and how it ends.
use flintlock_runner.Prelude.{
  ℕ, zero, suc, ◌+◌, ◌≤◌, ◌<◌, ◌≡◌, ◌⊎◌, inl, inr, Bool, true, false, arith, ltb, Bool-cases,
  if◌then◌else◌,
}
use flintlock_runner.Scheduler.Release.{
  Answer, failed, Calls, Outcome, released, gave_up, abandoned_at_shutdown, release_from,
  release_lease, release_retry_limit,
}

-- The Lease is not held any longer.
abbrev pub settles : Answer → Bool
settles failed = false
settles _ = true

-- An attempt that is followed by another one.
abbrev pub goes_on : Calls → ℕ → Bool
goes_on c i = if settles (c.answer i) then false else if c.done i then false else true

-- How the attempt that ends the release ends it.
abbrev pub ending : Calls → ℕ → ℕ → Outcome
ending c limit n =
    if settles (c.answer n)
    then released
    else if ltb n limit
    then abandoned_at_shutdown
    else gave_up

-- Every attempt before the last goes on, the last does not or is at the limit.
pub record IsRelease (c : Calls) (limit from : ℕ) (r : Outcome × ℕ) : Type 0 where
  pub last : ℕ
  pub calls : r.1 ≡ suc last
  pub started : from ≤ last
  pub bounded : last ≤ limit
  pub before : (i : ℕ) → from ≤ i → i < last → goes_on c i ≡ true
  pub stops : last < limit → goes_on c last ≡ false
  pub outcome : r.0 ≡ ending c limit last

eq_or_lt : (m n : ℕ) → m ≤ n → (m ≡ n) ⊎ (suc m ≤ n)
eq_or_lt m n le = ground (arith, le)

release_from-IsRelease :
    (c : Calls) (left attempt limit : ℕ)
    → attempt + left ≡ limit
    → IsRelease c limit attempt (release_from c left attempt)
unfolding release_from
release_from-IsRelease c zero attempt limit at = record {
  last = attempt;
  calls = ground (arith, at);
  started = ground (arith, at);
  bounded = ground (arith, at);
  before = λ i a b. ground (arith, at);
  stops = λ a. ground (arith, at);
  outcome = ground (arith, at);
}
release_from-IsRelease c (suc left) attempt limit at = elim (Bool-cases (goes_on c attempt)) [
  | inr over ↦ record {
    last = attempt;
    calls = ground (arith, over, at);
    started = ground (arith, at);
    bounded = ground (arith, at);
    before = λ i a b. ground (arith, at);
    stops = λ a. over;
    outcome = ground (arith, over, at);
  }
  | inl on ↦
      let r = release_from-IsRelease c left (suc attempt) limit (omega (arith, at)) in
      let same : release_from c (suc left) attempt ≡ release_from c left (suc attempt) =
        ground (arith, on) in
      record {
        last = r.last;
        calls = ground (arith, same, r.calls);
        started = ground (arith, r.started);
        bounded = ground (arith, r.bounded);
        before = λ i a b. elim (eq_or_lt attempt i a) [
          | inl here ↦ ground (arith, on, here)
          | inr later ↦ r.before i later b
        ];
        stops = λ a. r.stops (omega (arith, a));
        outcome = ground (arith, same, r.outcome, at);
      }
]

-- A release makes at most one call more than the configured retry limit (five where that is zero). It
-- ends at the first call that frees the Lease or is followed by the end of the background work, or
-- else at the limit: as released exactly if its last call frees the Lease, where NOT_FOUND counts.
pub release_lease-IsRelease :
    (c : Calls) (configured : ℕ)
    → IsRelease c (release_retry_limit configured) 0 (release_lease c configured)
unfolding release_lease
release_lease-IsRelease c configured =
    release_from-IsRelease c (release_retry_limit configured) 0 (release_retry_limit configured)
      (omega arith)
