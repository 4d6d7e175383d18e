-- ===== src/Executor/Preparing.antt =====
-- A Job's MicroVM, transport and Host through Prepare and Cleanup.
use flintlock_runner.Prelude.{
  ℕ, ◌+◌, ◌≤◌, ◌≡◌, refl, sym, ap, ◌∙◌, subst, Bool, true, false, ◌&&◌, List, [], ◌∷◌, ◌++◌, Option,
  none, some, if◌then◌else◌, string_key, nat_key, arith, length, Option-cases, Bool-cases, inl, inr,
  ◌⊎◌,
}
use flintlock_runner.Executor.{
  BuildError, Executor, Ending, released, retained, close_guest, release_after_failed_prepare,
  cleanup,
}
use flintlock_runner.Executor.Prepare.{
  Setting, prepare, prepare_guest, start_guest, guest_target, host_target, agent_target,
}

abbrev pub ids : List (ℕ × Ending) → List ℕ
ids [] = []
ids ((h, how) ∷ rest) = h ∷ ids rest

abbrev pub held : Option ℕ → List ℕ
held none = []
held (some h) = h ∷ []

abbrev pub one : Bool → ℕ
one true = 1
one false = 0

-- The one MicroVM is held or has been handed back, and what has been opened is open or has been closed.
pub record IsExecutor (e : Executor) : Type 0 where
  pub one_job : length e.allocated ≤ one e.prepared
  pub kept : held e.handle ++ ids e.ended ≡ e.allocated
  pub transports : e.opened ≡ e.closed + one e.tr
  pub leases : e.leased ≡ e.returned + one e.host_done
  pub behind : e.prepared ≡ false → (e.tr ≡ false) × (e.host_done ≡ false)

close_guest-IsExecutor : (e : Executor) → IsExecutor e → IsExecutor (close_guest e)
unfolding close_guest
close_guest-IsExecutor e i = record {
  one_job = i.one_job;
  kept = i.kept;
  transports = ground (arith, i.transports);
  leases = ground (arith, i.leases);
  behind = λ off. (refl, refl);
}

abbrev ending : Executor → ℕ → Ending → Executor
ending e h how = record e { handle = none; ended = (h, how) ∷ e.ended }

ending-IsExecutor :
    (e : Executor) (h : ℕ) (how : Ending)
    → e.handle ≡ some h
    → IsExecutor e
    → IsExecutor (ending e h how)
ending-IsExecutor e h how has i = record {
  one_job = i.one_job;
  kept = sym (ap (λ o. held o ++ ids e.ended) has) ∙ i.kept;
  transports = i.transports;
  leases = i.leases;
  behind = i.behind;
}

-- An executor that holds a MicroVM and has not opened anything for it.
pub record IsIdle (e : Executor) : Type 0 where
  pub no_transport : e.tr ≡ false
  pub no_lease : e.host_done ≡ false
  pub transports : e.opened ≡ e.closed
  pub leases : e.leased ≡ e.returned

-- What `startGuest` changes.
record Starts (e g : Executor) : Type 0 where
  same_prepared : g.prepared ≡ e.prepared
  same_allocated : g.allocated ≡ e.allocated
  same_handle : g.handle ≡ e.handle
  same_ended : g.ended ≡ e.ended
  transports : g.opened ≡ g.closed + one g.tr
  leases : g.leased ≡ g.returned + one g.host_done

start_guest-Starts : (s : Setting) (e : Executor) → IsIdle e → Starts e ((start_guest s e).0)
unfolding start_guest guest_target agent_target host_target
start_guest-Starts s e i = record {
  same_prepared = ground arith;
  same_allocated = ground arith;
  same_handle = ground arith;
  same_ended = ground arith;
  transports = ground (arith, i.no_transport, i.transports);
  leases = ground (arith, i.no_lease, i.leases);
}

pub release_after_failed_prepare-IsExecutor :
    (e : Executor) → IsExecutor e → IsExecutor (release_after_failed_prepare e)
unfolding release_after_failed_prepare close_guest
release_after_failed_prepare-IsExecutor e i = elim (Option-cases e.handle) [
  | inl none_held ↦ subst IsExecutor (sym (nothing none_held)) (close_guest-IsExecutor e i)
  | inr (h, has) ↦
      subst IsExecutor (sym (something h has))
        (ending-IsExecutor (close_guest e) h released has (close_guest-IsExecutor e i))
]
  where
    nothing : e.handle ≡ none → release_after_failed_prepare e ≡ close_guest e
    nothing none_held = ground (arith, none_held)

    something :
        (h : ℕ)
        → e.handle ≡ some h
        → release_after_failed_prepare e ≡ ending (close_guest e) h released
    something h has = ground (arith, has)

pub cleanup-IsExecutor : (keep : Bool) (e : Executor) → IsExecutor e → IsExecutor (cleanup keep e)
unfolding cleanup close_guest
cleanup-IsExecutor keep e i = elim (Option-cases e.handle) [
  | inl none_held ↦ subst IsExecutor (sym (nothing none_held)) (close_guest-IsExecutor e i)
  | inr (h, has) ↦ subst IsExecutor (sym (something h has)) (
      ending-IsExecutor (close_guest e) h (if e.job_failed && keep then retained else released) has
        (close_guest-IsExecutor e i))
]
  where
    nothing : e.handle ≡ none → cleanup keep e ≡ close_guest e
    nothing none_held = ground (arith, none_held)

    something :
        (h : ℕ)
        → e.handle ≡ some h
        → cleanup keep e
          ≡ ending (close_guest e) h (if e.job_failed && keep then retained else released)
    something h has = ground (arith, has)

-- An executor whose Prepare has begun, and that has allocated nothing.
pub record IsBegun (e : Executor) : Type 0 where
  pub begun : e.prepared ≡ true
  pub nothing_allocated : e.allocated ≡ []
  pub nothing_held : e.handle ≡ none
  pub nothing_ended : ids e.ended ≡ []
  pub idle : IsIdle e

abbrev with_handle : Executor → ℕ → Executor
with_handle e h = record e { handle = some h; allocated = h ∷ e.allocated }

started-IsExecutor :
    (e g : Executor) (h : ℕ) → IsBegun e → Starts (with_handle e h) g → IsExecutor g
started-IsExecutor e g h b st = record {
  one_job = ground (arith, st.same_allocated, st.same_prepared, b.begun, b.nothing_allocated);
  kept = ground (
    arith, st.same_handle, st.same_ended, st.same_allocated, b.nothing_allocated, b.nothing_ended,
  );
  transports = st.transports;
  leases = st.leases;
  behind = λ off. absurd (ground (arith, off, st.same_prepared, b.begun));
}

begun-IsExecutor : (e : Executor) → IsBegun e → IsExecutor e
begun-IsExecutor e b = record {
  one_job = ground (arith, b.nothing_allocated);
  kept = ground (arith, b.nothing_held, b.nothing_ended, b.nothing_allocated);
  transports = ground (arith, b.idle.no_transport, b.idle.transports);
  leases = ground (arith, b.idle.no_lease, b.idle.leases);
  behind = λ off. (b.idle.no_transport, b.idle.no_lease);
}

with_handle-IsIdle : (e : Executor) (h : ℕ) → IsBegun e → IsIdle (with_handle e h)
with_handle-IsIdle e h b = record {
  no_transport = b.idle.no_transport;
  no_lease = b.idle.no_lease;
  transports = b.idle.transports;
  leases = b.idle.leases;
}

prepare_guest-IsExecutor :
    (s : Setting) (e : Executor) → IsBegun e → IsExecutor ((prepare_guest s e).0)
unfolding prepare_guest
prepare_guest-IsExecutor s e b = elim (Option-cases s.allocates) [
  | inl refused ↦ subst IsExecutor (sym (not_allocated refused)) (begun-IsExecutor e b)
  | inr (h, given) ↦ elim (Option-cases ((start_guest s (with_handle e h)).1)) [
    | inl up ↦ subst IsExecutor (sym (guest_up h given up)) (guest_executor h)
    | inr (err, down) ↦ subst IsExecutor (sym (guest_down h err given down)) (
        release_after_failed_prepare-IsExecutor ((start_guest s (with_handle e h)).0)
          (guest_executor h))
  ]
]
  where
    guest_executor : (h : ℕ) → IsExecutor ((start_guest s (with_handle e h)).0)
    guest_executor h =
        started-IsExecutor e ((start_guest s (with_handle e h)).0) h b
          (start_guest-Starts s (with_handle e h) (with_handle-IsIdle e h b))

    not_allocated : s.allocates ≡ none → (prepare_guest s e).0 ≡ e
    not_allocated refused = ground (arith, refused)

    guest_up :
        (h : ℕ)
        → s.allocates ≡ some h
        → (start_guest s (with_handle e h)).1 ≡ none
        → (prepare_guest s e).0 ≡ (start_guest s (with_handle e h)).0
    guest_up h given up = ground (arith, given, up)

    guest_down :
        (h : ℕ) (err : BuildError)
        → s.allocates ≡ some h
        → (start_guest s (with_handle e h)).1 ≡ some err
        → (prepare_guest s e).0 ≡ release_after_failed_prepare ((start_guest s (with_handle e h)).0)
    guest_down h err given down = ground (arith, given, down)

abbrev pub begins : Executor → Executor
begins e = record e { prepared = true }

pub begins-IsBegun : (e : Executor) → e.prepared ≡ false → IsExecutor e → IsBegun (begins e)
begins-IsBegun e new i = record {
  begun = refl;
  nothing_allocated = empty_list e.allocated (ground (arith, new, i.one_job));
  nothing_held =
      nothing_in e.handle (i.kept ∙ empty_list e.allocated (ground (arith, new, i.one_job)));
  nothing_ended =
      rest_empty e.handle (i.kept ∙ empty_list e.allocated (ground (arith, new, i.one_job)));
  idle = record {
    no_transport = (i.behind new).0;
    no_lease = (i.behind new).1;
    transports = ground (arith, i.transports, i.behind new);
    leases = ground (arith, i.leases, i.behind new);
  };
}
  where
    empty_list : (xs : List ℕ) → length xs ≤ 0 → xs ≡ []
    empty_list [] short = refl
    empty_list (x ∷ xs) short = absurd (omega (arith, short))

    nothing_in : (o : Option ℕ) → held o ++ ids e.ended ≡ [] → o ≡ none
    nothing_in none empty = refl
    nothing_in (some h) empty = absurd (ground (arith, empty))

    rest_empty : (o : Option ℕ) → held o ++ ids e.ended ≡ [] → ids e.ended ≡ []
    rest_empty none empty = empty
    rest_empty (some h) empty = absurd (ground (arith, empty))

pub prepare-IsExecutor : (s : Setting) (e : Executor) → IsExecutor e → IsExecutor ((prepare s e).0)
unfolding prepare
prepare-IsExecutor s e i = elim (Bool-cases e.prepared) [
  | inl again ↦ subst IsExecutor (sym (second again)) i
  | inr new ↦ elim (reached new) [
    | inl early ↦
        subst IsExecutor (sym early) (begun-IsExecutor (begins e) (begins-IsBegun e new i))
    | inr late ↦
        subst IsExecutor (sym late) (prepare_guest-IsExecutor s (begins e) (begins-IsBegun e new i))
  ]
]
  where
    second : e.prepared ≡ true → (prepare s e).0 ≡ e
    second again = ground (arith, again)

    reached :
        e.prepared ≡ false
        → ((prepare s e).0 ≡ begins e) ⊎ ((prepare s e).0 ≡ (prepare_guest s (begins e)).0)
    reached new = ground (arith, new)
