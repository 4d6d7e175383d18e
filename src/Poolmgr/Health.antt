-- ===== src/Poolmgr/Health.antt =====
-- internal/poolmgr/health.go: whether the Pool Manager can be reached. A time is a number of
-- nanoseconds since the zero Time, and the outcome of a ListPools call is an argument.
pub mod History
mod Tests
use flintlock_runner.Prelude.{
  ℕ, suc, ◌+◌, leb, ltb, Bool, true, false, not, List, [], ◌∷◌, if◌then◌else◌,
}

pub record Config : Type 0 where
  pub failure_threshold : ℕ
  pub unhealthy_for : ℕ

pub record Monitor : Type 0 where
  pub cfg : Config
  pub contacted : Bool
  pub failures : ℕ
  pub healthy : Bool
  pub unhealthy_until : ℕ

-- The defaults that `NewHealth` puts in for a threshold and a period that are not positive.
unfoldable pub new_health : Config → Monitor
new_health c = record {
  cfg = record {
    failure_threshold = if leb c.failure_threshold 0 then 3 else c.failure_threshold;
    unhealthy_for = if leb c.unhealthy_for 0 then 30000000000 else c.unhealthy_for;
  };
  contacted = false;
  failures = 0;
  healthy = false;
  unhealthy_until = 0;
}

unfoldable pub mark_failure : Monitor → Monitor
mark_failure h = record h {
  failures = suc h.failures;
  healthy = if leb h.cfg.failure_threshold (suc h.failures) then false else h.healthy;
}

unfoldable pub mark_healthy : Monitor → Monitor
mark_healthy h = record h { failures = 0; healthy = true; unhealthy_until = 0; contacted = true }

-- Marked at the time `now`.
unfoldable pub mark_unavailable : Monitor → ℕ → Monitor
mark_unavailable h now = record h { unhealthy_until = now + h.cfg.unhealthy_for }

unfoldable pub is_healthy : Monitor → ℕ → Bool
is_healthy h now = if not h.healthy then false else not (ltb now h.unhealthy_until)

-- How a call of ListPools ends: an error behind a cancelled context counts for nothing.
pub data Outcome : Type 0 where
  success failure cancelled : Outcome

unfoldable pub probe : Monitor → Outcome → Monitor
probe h success = mark_healthy h
probe h failure = mark_failure h
probe h cancelled = h

-- The loop of `firstContact` over the outcomes of its calls; the flag says that it made contact. A
-- failed call waits and is made again, and a cancelled context ends the loop.
unfoldable pub first_contact : Monitor → List Outcome → Monitor × Bool
first_contact h [] = (h, false)
first_contact h (success ∷ outcomes) = (mark_healthy h, true)
first_contact h (failure ∷ outcomes) = first_contact h outcomes
first_contact h (cancelled ∷ outcomes) = (h, false)

-- What reaches a running monitor: a probe, or a claim that could not reach the Pool Manager.
pub data Report : Type 0 where
  probes : Outcome → Report
  unavailable : ℕ → Report

unfoldable pub report : Monitor → Report → Monitor
unfolding probe
report h (probes o) = probe h o
report h (unavailable now) = mark_unavailable h now
