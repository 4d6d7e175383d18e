-- ===== src/Poolmgr/Pool/Tests.antt =====
-- Runs of one tracked Pool.
use flintlock_runner.Prelude.{◌≡◌, refl, [], ◌∷◌, some, true, String, arith}
use flintlock_runner.Prelude.Uids.{contains, put, drop}
use flintlock_runner.Poolmgr.Count.{total, take, add, remove, leaves}
use flintlock_runner.Poolmgr.Event.{PoolRef, Event, EventType, vm_available, vm_claimed, Wire}
use flintlock_runner.Poolmgr.Pool.{
  Chans, TrackedPool, new_pool, available_count, fold_event, switch, settle_debts, fold_event,
}
use flintlock_runner.Poolmgr.Pool.Laws.{counts, counts_replay, new_pool-IsPool}
use flintlock_runner.Poolmgr.Pool.Debts.{ZeroOwes, fold_events, fold_events-ZeroOwes}

-- A decoder for the tests: the counts are the first bytes.
abbrev pub bytes : Wire
bytes = record {
  unmarshal_counts = λ bs.
      some (record { target = 2; available = 1; leased = 0; provisioning = 0; quarantined = 0 });
  unmarshal_hook = λ bs. some (record { hook = "create"; error = "exit 1"; policy = "QUARANTINE" });
  quarantine = "QUARANTINE";
}

abbrev pub warm : PoolRef
warm = record { name = "warm"; namespace = "runners" }

abbrev pub event : EventType → String → Event
event type uid = record { type = type; pool = warm; vm_uid = uid; payload = [] }

abbrev pub no_chans : Chans
no_chans = record { made = 1; closed = [] }

-- A declared Pool of target size 1, with one named MicroVM.
abbrev pub one_warm : TrackedPool
one_warm = record (new_pool 0) {
  available = record { named = "a" ∷ []; unnamed = 0; accounted = [] };
  declared = true;
  size = 1;
}

claim_owes : (fold_event bytes (event vm_claimed "a") one_warm no_chans).0.needs_poll ≡ true
unfolding fold_event switch settle_debts available_count total leaves remove take add contains put
    drop new_pool
claim_owes = refl

fold_events-ZeroOwes_example :
    ZeroOwes
      (fold_events bytes
        (event vm_claimed "a" ∷ event vm_available "b" ∷ event vm_claimed "b" ∷ [])
        one_warm
        no_chans).0
unfolding available_count total new_pool
fold_events-ZeroOwes_example =
    fold_events-ZeroOwes bytes
      (event vm_claimed "a" ∷ event vm_available "b" ∷ event vm_claimed "b" ∷ []) one_warm no_chans
      refl (omega arith) (λ e. absurd (omega arith))

counts_replay_example :
    counts
      (fold_event bytes
        (event vm_available "b")
        (fold_event bytes (event vm_available "b") (new_pool 0) no_chans).0
        no_chans).0
    ≡ counts (fold_event bytes (event vm_available "b") (new_pool 0) no_chans).0
counts_replay_example =
    counts_replay bytes (event vm_available "b") (new_pool 0) no_chans no_chans (new_pool-IsPool 0)
