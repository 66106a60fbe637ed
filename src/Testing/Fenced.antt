-- ===== src/Testing/Fenced.antt =====
-- src/distributed_runtime/testing/continuous.py: a lease of `FakeLeaseManager` is stale for ever once
-- the partition was acquired again.
use ptf.Prelude.{
  ℕ, ◌≤◌, ◌<◌, ◌≡◌, refl, String, Bool, true, false, List, [], ◌∷◌, arith, not, Bool-cases, inl,
  inr, Option-cases, All,
}
use ptf.Prelude.Table.{find_where, update_where, All-select, All-where, All-find, find_satisfies}
use ptf.Core.Errors.{ok}
use ptf.Continuous.Contracts.{LeaseHandle, authorizes}
use ptf.Testing.Leases.{
  LeaseState, LeaseManager, has_key, has_expired, lease_of, authorized_state, grant, acquire,
  set_expiry, renew, release, force_expire, is_current,
}

-- a call on the manager, with the reading of the clock at the call
pub data Call : Type 0 where
  acquire_call : ℕ → String → String → String → Call
  renew_call : ℕ → LeaseHandle → Call
  release_call : LeaseHandle → Call
  expire_call : ℕ → String → String → Call

abbrev pub perform : ℕ → Call → LeaseManager → LeaseManager
perform lease_seconds (acquire_call now d p o) m = (acquire lease_seconds now d p o m).1
perform lease_seconds (renew_call now lease) m = (renew lease_seconds now lease m).1
perform lease_seconds (release_call lease) m = (release lease m).1
perform lease_seconds (expire_call now d p) m = force_expire now d p m

unfoldable pub perform_all : ℕ → List Call → LeaseManager → LeaseManager
perform_all lease_seconds [] m = m
perform_all lease_seconds (call ∷ calls) m =
    perform_all lease_seconds calls (perform lease_seconds call m)

module _ (deployment partition : String) (n : ℕ) where
  abbrev IsAbove : LeaseState → Type 0
  IsAbove s = has_key deployment partition s ≡ true → n < s.fencing_token

  -- every lease of the partition has a token above `n`, and so has the next one
  record IsFenced (m : LeaseManager) : Type 0 where
    above : All IsAbove m.leases
    next : n ≤ m.token

  All-expiry :
      (at : ℕ) (p : LeaseState → Bool) (leases : List LeaseState)
      → All IsAbove leases
      → All IsAbove (update_where p (λ s. record s { expires_at = at }) leases)
  unfolding update_where
  All-expiry at p [] h = tt
  All-expiry at p (s ∷ ss) h = elim (Bool-cases (p s)) [
    | inl hit ↦ rw hit (h.0, All-expiry at p ss h.1)
    | inr miss ↦ rw miss (h.0, All-expiry at p ss h.1)
  ]

  grant-IsFenced :
      (lease_seconds now : ℕ) (d p o : String) (m : LeaseManager)
      → IsFenced m
      → IsFenced (grant lease_seconds now d p o m).1
  unfolding grant
  grant-IsFenced lease_seconds now d p o m h = record {
    above = (
      (λ same. ground (arith, h.next)),
      All-select IsAbove (λ s. not (has_key d p s)) m.leases h.above,
    );
    next = ground (arith, h.next);
  }

  expiry-IsFenced :
      (at : ℕ) (d p : String) (m : LeaseManager) → IsFenced m → IsFenced (set_expiry at d p m)
  expiry-IsFenced at d p m h = record {
    above = All-expiry at (has_key d p) m.leases h.above;
    next = h.next;
  }

  perform-IsFenced :
      (lease_seconds : ℕ) (call : Call) (m : LeaseManager)
      → IsFenced m
      → IsFenced (perform lease_seconds call m)
  unfolding acquire renew release force_expire
  perform-IsFenced lease_seconds (acquire_call now d p o) m h =
      elim (Option-cases (lease_of d p m)) [
        | inl free ↦ rw (free, perform, acquire) (grant-IsFenced lease_seconds now d p o m h)
        | inr (s, held) ↦ elim (Bool-cases (has_expired now s)) [
          | inl over ↦
              rw (held, over, perform, acquire) (grant-IsFenced lease_seconds now d p o m h)
          | inr runs ↦ rw (held, runs, perform, acquire) h
        ]
      ]
  perform-IsFenced lease_seconds (renew_call now lease) m h =
      elim (Option-cases (authorized_state lease m)) [
        | inl foreign ↦ rw (foreign, perform, renew) h
        | inr (s, held) ↦ elim (Bool-cases (has_expired now s)) [
          | inl over ↦ rw (held, over, perform, renew) h
          | inr runs ↦
              rw (held, runs, perform, renew)
                (expiry-IsFenced _ lease.deployment_id lease.partition_id m h)
        ]
      ]
  perform-IsFenced lease_seconds (release_call lease) m h =
      elim (Option-cases (authorized_state lease m)) [
        | inl foreign ↦ rw (foreign, perform, release) h
        | inr (s, held) ↦
            rw (held, perform, release)
              (record {
                above =
                    All-select IsAbove (λ x. not (has_key lease.deployment_id lease.partition_id x))
                      m.leases h.above;
                next = h.next;
              })
      ]
  perform-IsFenced lease_seconds (expire_call now d p) m h = expiry-IsFenced now d p m h

  perform_all-IsFenced :
      (lease_seconds : ℕ) (calls : List Call) (m : LeaseManager)
      → IsFenced m
      → IsFenced (perform_all lease_seconds calls m)
  unfolding perform_all
  perform_all-IsFenced lease_seconds [] m h = h
  perform_all-IsFenced lease_seconds (call ∷ calls) m h =
      perform_all-IsFenced lease_seconds calls (perform lease_seconds call m)
        (perform-IsFenced lease_seconds call m h)

  grant-starts :
      (lease_seconds now : ℕ) (o : String) (m : LeaseManager)
      → m.token ≡ n
      → IsFenced (grant lease_seconds now deployment partition o m).1
  unfolding grant
  grant-starts lease_seconds now o m at = record {
    above = (
      (λ same. ground (arith, at)),
      All-where IsAbove (λ s. not (has_key deployment partition s)) m.leases
          (λ s free same. absurd (ground (arith, free, same))),
    );
    next = ground (arith, at);
  }

  acquire-starts :
      (lease_seconds now : ℕ) (o : String) (m : LeaseManager) (granted : LeaseHandle)
      → m.token ≡ n
      → (acquire lease_seconds now deployment partition o m).0 ≡ ok granted
      → IsFenced (acquire lease_seconds now deployment partition o m).1
  unfolding acquire
  acquire-starts lease_seconds now o m granted at given =
      elim (Option-cases (lease_of deployment partition m)) [
        | inl free ↦ rw (free, acquire) (grant-starts lease_seconds now o m at)
        | inr (s, held) ↦ elim (Bool-cases (has_expired now s)) [
          | inl over ↦ rw (held, over, acquire) (grant-starts lease_seconds now o m at)
          | inr runs ↦ absurd (ground (arith, given, held, runs))
        ]
      ]

IsFenced-stale :
    (n t : ℕ) (old : LeaseHandle) (m : LeaseManager)
    → old.fencing_token ≤ n
    → IsFenced old.deployment_id old.partition_id n m
    → is_current t old m ≡ false
unfolding is_current authorized_state authorizes lease_of
IsFenced-stale n t old m older h =
    let key = has_key old.deployment_id old.partition_id in
    elim (Option-cases (find_where key m.leases)) [
      | inl none_left ↦ ground (arith, none_left)
      | inr (s, found) ↦
          let newer =
            All-find (IsAbove old.deployment_id old.partition_id n) key m.leases s h.above found
              (find_satisfies key m.leases s found) in
          ground (arith, found, newer, older)
    ]

-- A grant of a lease retires every lease of that partition whose token was issued before it: after
-- any further calls on the manager, at any times, such a lease is not current.
pub acquire_retires :
    (lease_seconds now : ℕ) (owner : String) (m : LeaseManager) (old granted : LeaseHandle)
    → old.fencing_token ≤ m.token
    → (acquire lease_seconds now old.deployment_id old.partition_id owner m).0 ≡ ok granted
    → (calls : List Call) (t : ℕ)
    → let after = (acquire lease_seconds now old.deployment_id old.partition_id owner m).1 in
      is_current t old (perform_all lease_seconds calls after) ≡ false
acquire_retires lease_seconds now owner m old granted older given calls t =
    IsFenced-stale m.token t old _ older (
      perform_all-IsFenced old.deployment_id old.partition_id m.token lease_seconds calls _ (
        acquire-starts old.deployment_id old.partition_id m.token lease_seconds now owner m granted
          refl given))
