-- ===== src/MultiShare/Worker/Balance.antt =====
-- A worker of multi_share gives back what it obtains.
use ascend_hal_sharing_probe.Prelude.{
  true, List, [], ℕ, ◌+◌, ◌<◌, ◌≡◌, ◌==◌, not, refl, arith, pos, Bool, length,
}
use ascend_hal_sharing_probe.Effects.{
  Driver, Trace, World, MemProp, address_free, reset_device, acl_finalize, close_socket,
}
use ascend_hal_sharing_probe.Effects.Ledger.{Resource, address, memory, mapping}
use ascend_hal_sharing_probe.DataStrategy.Accounts.{held_all}
use ascend_hal_sharing_probe.Effects.Outcomes.{Ends, Ends-bind}
use ascend_hal_sharing_probe.Effects.Meets.{Meets, Meets-attempt, Meets-modify, Meets-weaken}
use ascend_hal_sharing_probe.Common.Books.{IsKept, Keeps}
use ascend_hal_sharing_probe.Common.Rules.{Kept, Keeps-Meets, Keeps-bind, Keeps-gets}
use ascend_hal_sharing_probe.Common.Evens.{IsPlain}
use ascend_hal_sharing_probe.Common.Retry.{IsPatient}
use ascend_hal_sharing_probe.Common.Quiet.{Whatever}
use ascend_hal_sharing_probe.Common.AioOperation.{IoEvent}
use ascend_hal_sharing_probe.Common.Pattern.{Memory, fill-Keeps, verify-Keeps}
use ascend_hal_sharing_probe.Common.Teardown.{
  Owing, IsReturned, Never, Left, step-Owing, called-Outstanding, if_cleanup-Left,
}
use ascend_hal_sharing_probe.MultiShare.Cpu.{Cpus}
use ascend_hal_sharing_probe.MultiShare.Options.{MultiOptions, slice}
use ascend_hal_sharing_probe.MultiShare.Worker.{MultiShare, note}
use ascend_hal_sharing_probe.MultiShare.Worker.Parts.{share, attempted, finish, worker}
use ascend_hal_sharing_probe.MultiShare.Worker.Slices.{holds, count}
use ascend_hal_sharing_probe.MultiShare.Worker.Stages.{
  IsFresh, MappedFrom, barrier-Keeps, set_up-Keeps,
}
use ascend_hal_sharing_probe.MultiShare.Worker.Mapping.{map_all-Keeps, unmap_from-Keeps}
use ascend_hal_sharing_probe.MultiShare.Worker.Tests.{IsAside, bind_cpu-Keeps, buffered_aio-Keeps}
use ascend_hal_sharing_probe.MultiShare.Worker.Copies.{hbm_scope-Keeps}
use ascend_hal_sharing_probe.MultiShare.Worker.Owing.{
  owed, Any, release_from-Owing, free-owed, freed-owed,
}

mapped-IsAside : (o : MultiOptions) → IsAside (MappedFrom o 0)
mapped-IsAside o = record { noted = λ s h. h; with_ctx = λ c s h. h; with_acl = λ a s h. h }

-- The process is over, and nothing is left to give back.
abbrev pub AllReturned : Bool → World MultiShare → Type 0
AllReturned failed v = IsReturned v.trace

module _ (d : Driver) (mem : Memory) (rounds : ℕ) (events : Trace → List IoEvent)
    (properties : Trace → MemProp) (plain : IsPlain d) (patient : IsPatient d rounds) (cpus : Cpus)
    (o : MultiOptions) (rank device node fd : ℕ) where
  share-Keeps :
      rank < length o.devices
      → Keeps
          (holds o)
          (IsFresh o)
          Whatever
          (share d mem rounds events properties cpus o rank device node fd)
  unfolding share
  share-Keeps lt =
      let at_barrier : (P : MultiShare → Type 0) → Keeps (holds o) P P _ = λ P.
        barrier-Keeps d mem rounds events properties plain patient cpus o rank device node fd in
      let all = MappedFrom o 0 in
      Keeps-bind (bind_cpu-Keeps d mem rounds events properties plain patient cpus o node) λ u.
        Keeps-bind
          (set_up-Keeps d mem rounds events properties plain patient cpus o rank device node fd)
          λ u1.
            Keeps-bind
              (map_all-Keeps d mem rounds events properties plain patient cpus o rank device node fd
                lt)
              λ u2. Keeps-bind (at_barrier all) λ u3.
                Keeps-bind (Keeps-gets (λ s. slice o s.base rank)) λ own.
                  Keeps-bind
                    (Keeps-bind (fill-Keeps d own o.bytes (100 + rank)) λ v.
                      Keeps-bind (verify-Keeps mem own o.bytes (100 + rank)) λ v1.
                        buffered_aio-Keeps d mem rounds events properties plain patient cpus o
                          (mapped-IsAside o) own o.bytes (200 + rank))
                    λ u4. Keeps-bind (at_barrier all) λ u5.
                      Keeps-bind
                        (hbm_scope-Keeps d mem rounds events properties plain patient cpus o
                          (mapped-IsAside o) rank device node fd own)
                        λ u6. Keeps-bind (at_barrier all) λ u7.
                          Keeps-bind
                            (unmap_from-Keeps d mem rounds events properties plain patient cpus o
                              rank device node fd (count o) 0 (omega arith))
                            λ u8. at_barrier Whatever

  attempted-Meets :
      rank < length o.devices
      → Meets
          (Kept (holds o) (IsFresh o))
          (IsKept (holds o))
          Never
          (attempted d mem rounds events properties cpus o rank device node fd)
  attempted-Meets lt =
      Meets-attempt (Meets-weaken (λ w h. h) (λ w h. h.0) (λ w h. h) (Keeps-Meets (share-Keeps lt)))
        λ e.
          Meets-modify (λ s. record s { result = true })
            λ w kept x real. omega (arith, kept x real, same x w.self)
    where
      same : (x : Resource) (s : MultiShare) → holds o x (record s { result = true }) ≡ holds o x s
      same (address a) s = refl
      same (memory a) s = refl
      same (mapping a) s = refl

  all-owed : (x : Resource) (s : MultiShare) → owed o s 0 (count o) 0 (count o) x ≡ holds o x s
  all-owed (address a) s = refl
  all-owed (memory a) s = refl
  all-owed (mapping a) s = refl

  finish-AllReturned :
      (w : World MultiShare)
      → IsKept (holds o) w
      → Ends AllReturned Never (finish d mem rounds events properties cpus o rank device node fd w)
  unfolding finish held_all
  finish-AllReturned w kept =
      let s = w.self in
      Ends-bind (λ u v. Owing (owed o s 0 0 0 0) v.trace) AllReturned Never _ _
        (release_from-Owing d mem rounds events properties cpus o rank device node fd s (count o) 0
          w (λ x real. omega (arith, kept x real, all-owed x s)))
        λ u v h.
          Ends-bind (Left Any []) AllReturned Never _ _
            (step-Owing d note Any (λ s h. tt) (not (s.base == 0)) (address_free s.base)
              (owed o s 0 0 0 0) (λ x. 0) v (λ x real e. free-owed o s _ x)
              (λ x real e. freed-owed o s x real e) h tt)
            λ u1 v1 h1.
              Ends-bind (Left Any []) AllReturned Never _ _
                (if_cleanup-Left d note Any (λ s h. tt) s.device_set (reset_device (pos device)) []
                  v1 refl h1)
                λ u2 v2 h2.
                  Ends-bind (Left Any []) AllReturned Never _ _
                    (if_cleanup-Left d note Any (λ s h. tt) s.acl_init acl_finalize [] v2 refl h2)
                    λ u3 v3 (h3, any3). called-Outstanding d (close_socket fd) [] v3 refl h3

  -- With a driver that leaves the handle null when a creation or an import fails, and interrupts no call
  -- more often in a row than the rounds allow, a worker of multi_share whose rank is below the number of
  -- devices and that holds nothing ends without an exception, whatever the driver, the coordinator, the
  -- kernel, the files and the memory answer: the reserved range, each handle and the mapping of each
  -- slice have been given back, or the driver has refused to take them, and none has been given back
  -- more often than obtained.
  pub worker-AllReturned :
      (w : World MultiShare)
      → rank < length o.devices
      → IsKept (holds o) w
      → IsFresh o w.self
      → Ends AllReturned Never (worker d mem rounds events properties cpus o rank device node fd w)
  unfolding worker
  worker-AllReturned w lt kept fresh =
      Ends-bind (λ u v. IsKept (holds o) v) AllReturned Never _ _
        ((attempted-Meets lt).ends w (kept, fresh)) λ u v h. finish-AllReturned v h
