-- ===== src/Poolmgr/Health/History.antt =====
-- The monitor against the history of what reached it.
use flintlock_runner.Prelude.{
  ℕ, suc, ◌+◌, ◌<◌, ◌≡◌, refl, Bool, true, false, ◌&&◌, List, [], ◌∷◌, arith, leb, ltb,
  if◌then◌else◌,
}
use flintlock_runner.Poolmgr.Health.{
  Config, Monitor, Outcome, success, failure, cancelled, Report, probes, unavailable, new_health,
  mark_failure, mark_healthy, mark_unavailable, is_healthy, first_contact, report,
}

-- The history, newest report first.
abbrev pub failures_since : List Report → ℕ
failures_since [] = 0
failures_since (probes success ∷ older) = 0
failures_since (probes failure ∷ older) = suc (failures_since older)
failures_since (r ∷ older) = failures_since older

-- Some probe has succeeded.
abbrev pub reached : List Report → Bool
reached [] = false
reached (probes success ∷ older) = true
reached (r ∷ older) = reached older

-- When the newest claim failed since the last success; 0 if none did.
abbrev pub blamed_until : ℕ → List Report → ℕ
blamed_until period [] = 0
blamed_until period (probes success ∷ older) = 0
blamed_until period (unavailable now ∷ older) = now + period
blamed_until period (r ∷ older) = blamed_until period older

-- The monitor after a history, oldest report first applied.
abbrev pub after : Monitor → List Report → Monitor
after h [] = h
after h (r ∷ older) = report (after h older) r

pub record Reads (h : Monitor) (c : Config) (rs : List Report) : Type 0 where
  pub same_config : h.cfg ≡ c
  pub counted : h.failures ≡ failures_since rs
  pub contact : h.contacted ≡ reached rs
  pub until : h.unhealthy_until ≡ blamed_until c.unhealthy_for rs
  pub state : h.healthy ≡ (reached rs && ltb (failures_since rs) c.failure_threshold)

report-Reads :
    (h : Monitor) (c : Config) (r : Report) (rs : List Report)
    → 0 < c.failure_threshold
    → Reads h c rs
    → Reads (report h r) c (r ∷ rs)
unfolding report mark_failure mark_healthy mark_unavailable
report-Reads h c (probes success) rs pos k = ground arith
report-Reads h c (probes failure) rs pos k = ground arith
report-Reads h c (probes cancelled) rs pos k = ground arith
report-Reads h c (unavailable now) rs pos k = ground arith

after-Reads :
    (c : Config) (rs : List Report) → Reads (after (new_health c) rs) (new_health c).cfg rs
after-Reads c [] = unfold new_health in ground arith
after-Reads c (r ∷ rs) =
    report-Reads (after (new_health c) rs) (new_health c).cfg r rs
      (unfold new_health in ground arith) (after-Reads c rs)

-- After any history, a new monitor calls the Pool Manager healthy exactly if a probe has succeeded,
-- fewer than the threshold have failed since the last success, and the period that the newest failed
-- claim since then started is over.
pub is_healthy_iff_history :
    (c : Config) (rs : List Report) (now : ℕ)
    → is_healthy (after (new_health c) rs) now ≡ (
        reached rs
        && ltb (failures_since rs) (new_health c).cfg.failure_threshold
        && leb (blamed_until (new_health c).cfg.unhealthy_for rs) now)
unfolding is_healthy
is_healthy_iff_history c rs now = ground (arith, after-Reads c rs)

-- The first contact is made exactly when a call succeeds before the context is cancelled, and until
-- then the monitor stays as it is.
abbrev pub contact_made : List Outcome → Bool
contact_made [] = false
contact_made (success ∷ os) = true
contact_made (failure ∷ os) = contact_made os
contact_made (cancelled ∷ os) = false

pub first_contact_lem :
    (h : Monitor) (os : List Outcome)
    → first_contact h os ≡ (if contact_made os then mark_healthy h else h, contact_made os)
unfolding first_contact
first_contact_lem h [] = refl
first_contact_lem h (success ∷ os) = refl
first_contact_lem h (failure ∷ os) = first_contact_lem h os
first_contact_lem h (cancelled ∷ os) = refl
