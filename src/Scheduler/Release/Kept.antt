-- ===== src/Scheduler/Release/Kept.antt =====
-- What each end of an Allocation leaves of its Lease.
use flintlock_runner.Prelude.{
  ℕ, ◌≤◌, ◌≡◌, refl, sym, ◌∙◌, true, false, some, arith, nat_key, ==_iff,
}
use flintlock_runner.Scheduler.State.{Impl, Handle, get_handle}
use flintlock_runner.Scheduler.Release.Ends.{
  End, releases_it, retains_it, retained_long_enough, loses_it, finds_it_ended, aborts_it, end_by,
  in_charge, is_gone, handed_back, in_charge-release, in_charge-end_allocation, in_charge-retain,
  in_charge-retained, in_charge-lease_is_lost, in_charge-abort, release-Spares,
  end_allocation-Spares, retain-Spares, retained-Spares, abort-Spares, lost_gone, Spares,
}

-- What an end leaves of a Lease: nobody new is in charge of it, and somebody is unless it is lost.
pub record Keeps (id : ℕ) (s s' : Impl) : Type 0 where
  pub at_most : in_charge id s' ≤ in_charge id s
  pub no_less : is_gone id s' ≡ false → in_charge id s' ≡ in_charge id s
  pub stays_gone : is_gone id s ≡ true → is_gone id s' ≡ true
  pub no_more_calls : is_gone id s ≡ true → handed_back id s'.releases ≡ handed_back id s.releases

keeps :
    {id : ℕ} {s s' : Impl}
    → (in_charge id s' ≤ in_charge id s) × (is_gone id s ≡ false → in_charge id s' ≡ in_charge id s)
    → Spares id s s'
    → Keeps id s s'
keeps (le, same) (gone, calls) = record {
  at_most = le;
  no_less = λ still. same (sym gone ∙ still);
  stays_gone = λ was. gone ∙ was;
  no_more_calls = calls;
}

pub same_Keeps : (id : ℕ) (s : Impl) → Keeps id s s
same_Keeps id s = record {
  at_most = omega arith;
  no_less = λ a. refl;
  stays_gone = λ a. a;
  no_more_calls = λ a. refl;
}

pub then_Keeps : {id : ℕ} {s t u : Impl} → Keeps id s t → Keeps id t u → Keeps id s u
then_Keeps {id} {s} {t} {u} a b = record {
  at_most = omega (arith, a.at_most, b.at_most);
  no_less = λ still.
      let before : is_gone id t ≡ false = ground (arith, still, b.stays_gone) in
      b.no_less still ∙ a.no_less before;
  stays_gone = λ was. b.stays_gone (a.stays_gone was);
  no_more_calls = λ was. b.no_more_calls (a.stays_gone was) ∙ a.no_more_calls was;
}

pub end_by-Keeps :
    (e : End) (s : Impl) (h : Handle) (id : ℕ)
    → get_handle s h.id ≡ some h
    → in_charge id s ≤ 1
    → Keeps id s (end_by e s h)
end_by-Keeps releases_it s h id at one =
    keeps (ground (arith, at, in_charge-release s h id, ==_iff h.id id)) (release-Spares s h id at)
end_by-Keeps retains_it s h id at one =
    keeps (ground (arith, at, one, in_charge-retain s h id one, ==_iff h.id id))
      (retain-Spares s h id at)
end_by-Keeps retained_long_enough s h id at one =
    keeps (ground (arith, at, in_charge-retained s h id, ==_iff h.id id))
      (retained-Spares s h id at)
end_by-Keeps finds_it_ended s h id at one =
    keeps (ground (arith, at, in_charge-end_allocation s h id, ==_iff h.id id))
      (end_allocation-Spares s h id at)
end_by-Keeps (aborts_it cause) s h id at one =
    keeps (ground (arith, at, in_charge-abort s h cause id, ==_iff h.id id))
      (abort-Spares s h cause id at)
end_by-Keeps loses_it s h id at one = record {
  at_most = ground (arith, in_charge-lease_is_lost s h id);
  no_less = ground (arith, in_charge-lease_is_lost s h id, lost_gone s h id at);
  stays_gone = ground (arith, lost_gone s h id at);
  no_more_calls = λ gone. (lost_gone s h id at).1;
}
