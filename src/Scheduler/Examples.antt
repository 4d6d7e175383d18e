-- ===== src/Scheduler/Examples.antt =====
-- A Scheduler with two Slots, one of which an Allocation holds, for the runs of the other modules.
use flintlock_runner.Prelude.{true, false, [], ◌∷◌, none}
use flintlock_runner.Poolmgr.Event.{PoolRef}
use flintlock_runner.Scheduler.State.{
  Impl, Profile, Lease, Placement, Allocation, Handle, HostState, from_claim, beating,
  state_running,
}
use flintlock_runner.Scheduler.Capacity.{Surroundings}

abbrev pub small_pool : PoolRef
small_pool = record { name = "small"; namespace = "ci" }

abbrev pub small : Profile
small = record {
  name = "small";
  images = "golang" ∷ [];
  image_globs = "go*" ∷ [];
  default = false;
  max_concurrency = 1;
  heartbeat_expiry = 0;
  heartbeat_interval = 0;
  pool_ref = small_pool;
}

abbrev pub first_lease : Lease
first_lease = record {
  id = "lease-1";
  pool = small_pool;
  expires_at = 60000000000;
  last_heartbeat_at = 0;
}

abbrev pub on_alpha : Placement
on_alpha = record { host = "alpha"; source = from_claim; resolved_at = 5 }

abbrev pub first_alloc : Allocation
first_alloc = record {
  job_id = 7;
  profile = "small";
  vm_uid = "vm-1";
  lease = first_lease;
  placement = on_alpha;
  host = record { name = "alpha"; address = "10.0.0.1" };
  reservation_id = 1;
  claimed_at = 5;
}

abbrev pub first_handle : Handle
first_handle = record {
  id = 2;
  alloc = first_alloc;
  err = none;
  lease_gone = false;
  heartbeats = beating;
}

abbrev pub alpha_up : HostState
alpha_up = record { healthy = true; failures = 0; last_probe_at = 0 }

abbrev pub busy : Impl
busy = record {
  slots = 2;
  keep_on_failure = true;
  state = state_running;
  ready = true;
  reservations = (3, 9) ∷ [];
  allocations = 2 ∷ [];
  handles = (2, first_handle) ∷ [];
  placements = ("vm-1", on_alpha) ∷ [];
  profile_use = ("small", 1) ∷ [];
  profile_free = 0;
  drain = none;
  chans = record { made = 1; closed = [] };
  waiting = [];
  hosts = ("alpha", alpha_up) ∷ [];
  next_id = 3;
  bg_closed = false;
  retaining = [];
  releases = [];
  abandoned = [];
}

abbrev pub idle_impl : Impl
idle_impl = record busy {
  reservations = [];
  allocations = [];
  handles = [];
  placements = [];
  profile_use = [];
}

abbrev pub warm_pools : Surroundings
warm_pools = record {
  ctx_done = false;
  made_contact = true;
  healthy = true;
  pools =
      record {
        pool = small_pool;
        status = record { available = 1; leased = 1; provisioning = 0; quarantined = 0 };
        declared = true;
        waiting = 0;
      }
      ∷ [];
  now = 20;
}
