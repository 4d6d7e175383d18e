-- ===== src/Flintlock/Registry/Tests.antt =====
-- Runs of the registry of internal/flintlock/registry.go: two hosts, of which a reload moves one and drops
-- the other while a lease is out.
use flintlock_runner.Prelude.{sort_by}
use flintlock_runner.Prelude.Map.{delete}
use flintlock_runner.Prelude.Map.{insert}
use flintlock_runner.Prelude.{
  ◌+◌, ◌≤◌, ◌≡◌, refl, leb, ltb, ℕ, ◌&&◌, List, Bool, true, false, [], ◌∷◌, some, none, arith,
  if◌then◌else◌, ◌⊎◌, nat_key, string_key,
}
use flintlock_runner.Prelude.Map.{lookup}
use flintlock_runner.Flintlock.Registry.{
  TlsOptions, HostEntry, Endpoint, Registry, empty_registry, apply_publish, apply, lease, release,
  endpoint, names, no_name, not_dialled, new_registry,
}
use flintlock_runner.Flintlock.Registry.Store.{count_of, is_open}
use flintlock_runner.Flintlock.Registry.Endpoints.{wanted}
use flintlock_runner.Flintlock.Registry.Invariant.{holders, planned}
use flintlock_runner.Flintlock.Registry.Reload.{
  Reached, start, then_, leased, begun, published, client-accounted, leased_client-kept,
  open_client-wanted,
}
use flintlock_runner.Flintlock.Registry.Applied.{apply-refused, apply-endpoint, refused-loses}

abbrev no_tls : TlsOptions
no_tls = record { ca_file = ""; cert_file = ""; key_file = ""; insecure = true }

abbrev host_a : Endpoint
host_a = record { name = "a"; address = "10.0.0.1:9090"; token = ""; tls = no_tls }

abbrev host_b : Endpoint
host_b = record { name = "b"; address = "10.0.0.2:9090"; token = ""; tls = no_tls }

abbrev moved_a : Endpoint
moved_a = record { name = "a"; address = "10.0.0.7:9090"; token = ""; tls = no_tls }

abbrev nameless : Endpoint
nameless = record { name = ""; address = "10.0.0.9:9090"; token = ""; tls = no_tls }

abbrev always : Endpoint → Bool
always ep = true

abbrev never : Endpoint → Bool
never ep = false

abbrev two_hosts : Registry
two_hosts = (apply always empty_registry (host_a ∷ host_b ∷ [])).0

abbrev one_lease : Registry
one_lease = (lease two_hosts "a").0

abbrev reloaded : Registry
reloaded = (apply always one_lease (moved_a ∷ [])).0

two_hosts-Reached : Reached two_hosts
unfolding apply_publish apply lookup insert
two_hosts-Reached =
    then_ (then_ start (begun always empty_registry (host_a ∷ host_b ∷ []) refl)) (published _)

one_lease-Reached : Reached one_lease
one_lease-Reached = then_ two_hosts-Reached (leased two_hosts "a")

reloaded-Reached : Reached reloaded
unfolding lease lookup apply insert
reloaded-Reached =
    then_ (then_ one_lease-Reached (begun always one_lease (moved_a ∷ []) refl)) (published _)

-- The client of host b, which nothing held, has been closed.
reloaded-closes : reloaded.closes ≡ 1 ∷ []
unfolding apply lease lookup insert
reloaded-closes = refl

-- The last release closes the client of the host that has moved.
release-closes : (release reloaded 0).closes ≡ 0 ∷ 1 ∷ []
unfolding release lookup apply lease insert
release-closes = refl

release-once : release (release reloaded 0) 0 ≡ release reloaded 0
unfolding apply release lease lookup insert delete
release-once = refl

names-reloaded : names two_hosts ≡ "a" ∷ "b" ∷ []
unfolding names sort_by apply lookup insert
names-reloaded = refl

new_registry-refused : (new_registry never (host_a ∷ [])).1 ≡ some not_dialled
unfolding new_registry lookup
new_registry-refused = refl

client-accounted_example :
    count_of 0 reloaded.closes
      + count_of 0 reloaded.lost
      + planned 0 reloaded.plan
      + is_open (lookup 0 reloaded.entries)
    ≡ (if ltb 0 reloaded.made then 1 else 0)
client-accounted_example = client-accounted reloaded-Reached 0

leased_client-kept_example :
    (count_of 0 reloaded.closes ≡ 0) × (is_open (lookup 0 reloaded.entries) ≡ 1)
unfolding apply lease lookup insert
leased_client-kept_example = leased_client-kept reloaded-Reached 0 0 refl refl

open_client-wanted_example :
    (count_of 0 reloaded.lost ≡ 1)
    ⊎ (planned 0 reloaded.plan ≡ 1)
    ⊎ ((e : HostEntry) × (lookup 0 reloaded.entries ≡ some e)
        × ((lookup e.ep.name reloaded.hosts ≡ some 0)
            ⊎ ((e.retired ≡ true) × (1 ≤ holders 0 reloaded.held))))
unfolding apply lease lookup insert
open_client-wanted_example = open_client-wanted reloaded-Reached 0 refl (omega arith) refl

apply-refused_example :
    ((apply never two_hosts (moved_a ∷ [])).0.hosts ≡ two_hosts.hosts)
    × ((apply never two_hosts (moved_a ∷ [])).0.entries ≡ two_hosts.entries)
    × ((apply never two_hosts (moved_a ∷ [])).0.retired ≡ two_hosts.retired)
    × ((apply never two_hosts (moved_a ∷ [])).0.held ≡ two_hosts.held)
    × ((true ≡ false) ⊎ ((apply never two_hosts (moved_a ∷ [])).0.lost ≡ two_hosts.lost))
unfolding apply lookup insert
apply-refused_example = apply-refused never two_hosts (moved_a ∷ []) not_dialled refl

apply-endpoint_example :
    endpoint ((apply always one_lease (moved_a ∷ [])).0) "a" ≡ wanted "a" (moved_a ∷ [])
unfolding lease lookup apply insert
apply-endpoint_example =
    apply-endpoint always one_lease (moved_a ∷ []) one_lease-Reached refl refl "a"

-- A new host, a known one that has moved, and an entry without a name behind them.
abbrev nameless_last : List Endpoint
nameless_last =
    record { name = "c"; address = "10.0.0.3:9090"; token = ""; tls = no_tls }
    ∷ moved_a
    ∷ nameless
    ∷ []

refused-loses_example :
    ((apply always two_hosts nameless_last).0.closes ≡ two_hosts.closes)
    × ((id : ℕ)
        → count_of id (apply always two_hosts nameless_last).0.lost
          ≡ count_of id two_hosts.lost
            + (if leb two_hosts.made id && ltb id (apply always two_hosts nameless_last).0.made
                then 1
                else 0))
    × ((id : ℕ)
        → two_hosts.made ≤ id
        → lookup id (apply always two_hosts nameless_last).0.entries ≡ none)
unfolding apply lookup insert
refused-loses_example =
    refused-loses always two_hosts nameless_last no_name two_hosts-Reached refl refl

-- The clients of both dials are lost.
nameless_last-lost : (apply always two_hosts nameless_last).0.lost ≡ 3 ∷ 2 ∷ []
unfolding apply lookup insert
nameless_last-lost = refl
