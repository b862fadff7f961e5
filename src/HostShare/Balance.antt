-- ===== src/HostShare/Balance.antt =====
-- A process of host_share gives back what it obtains.
use ascend_hal_sharing_probe.Prelude.{◌∷◌, ℕ, ◌≤◌, refl, Bool, pos, [], List, arith, if◌then◌else◌}
use ascend_hal_sharing_probe.Effects.{
  Driver, Trace, World, close_socket, reset_device, acl_finalize,
}
use ascend_hal_sharing_probe.Effects.Outcomes.{Ends, Ends-bind, Ends-weaken, after}
use ascend_hal_sharing_probe.Effects.Meets.{
  Meets, Meets-modify, Meets-attempt, Meets-scoped, Meets-weaken,
}
use ascend_hal_sharing_probe.Common.{allocation}
use ascend_hal_sharing_probe.Common.Books.{IsKept}
use ascend_hal_sharing_probe.Common.Rules.{Kept, Keeps-Meets}
use ascend_hal_sharing_probe.Common.Evens.{IsPlain, IsBlank}
use ascend_hal_sharing_probe.Common.Retry.{IsPatient}
use ascend_hal_sharing_probe.Common.Pattern.{Memory}
use ascend_hal_sharing_probe.Common.Teardown.{
  IsReturned, Never, Left, called-Outstanding, kept-Outstanding, destroy-Outstanding,
  if_cleanup-Left,
}
use ascend_hal_sharing_probe.Common.AioOperation.{IoEvent}
use ascend_hal_sharing_probe.HostShare.{HostShare, AioMode, note, add_failures}
use ascend_hal_sharing_probe.HostShare.Worker.{leave_host, attempted, finish, worker}
use ascend_hal_sharing_probe.HostShare.Cases.{holds}
use ascend_hal_sharing_probe.HostShare.Stages.{In, IsIdle, Any, share-Keeps}

-- The process is over, and nothing is left to give back.
abbrev pub Ended : ℕ → World HostShare → Type 0
Ended code v = (code ≤ 1) × IsReturned v.trace

module _ (d : Driver) (mem : Memory) (rounds : ℕ) (events : Trace → List IoEvent)
    (plain : IsPlain d) (patient : IsPatient d rounds) where
  module _ (mode : AioMode) (device : ℕ) (reader : Bool) (channel bytes : ℕ) where
    abbrev Returned : World HostShare → Type 0
    Returned v = IsReturned v.trace

    leave_host-Meets :
        Meets
          (IsKept holds)
          Returned
          Never
          (leave_host d mem rounds events mode device reader channel bytes)
    leave_host-Meets = record {
      ends = λ w kept.
          Ends-weaken {P = Left Any []} {P' = λ u v. Returned v} {Q = Never} {Q' = Never} _
            (λ u v h. h.0) (λ v h. h)
            (destroy-Outstanding d note Any (λ s h. tt) w.self.host []
              (record w { self = record w.self { host = allocation } })
              (kept-Outstanding holds (w.self.host ∷ []) w (λ x. refl) kept) tt);
    }

    attempted-Meets :
        Meets
          (Kept holds (In IsBlank))
          Returned
          Never
          (attempted d mem rounds events mode device reader channel bytes)
    attempted-Meets =
        Meets-attempt
          (Meets-scoped
            (Keeps-Meets
              (share-Keeps d mem rounds events plain patient mode device reader channel bytes))
            (Meets-weaken (λ w h. h.0) (λ w h. h) (λ w h. h) leave_host-Meets) leave_host-Meets)
          λ e. Meets-modify (add_failures 100) (λ w h. h)

    finish-Ended :
        (w : World HostShare)
        → IsReturned w.trace
        → Ends Ended Never (finish d mem rounds events mode device reader channel bytes w)
    unfolding finish
    finish-Ended w h =
        let v = after d (close_socket channel) w in
        let back : IsReturned v.trace = called-Outstanding d (close_socket channel) [] w refl h in
        Ends-bind (Left Any []) Ended Never _ _
          (if_cleanup-Left d note Any (λ s h. tt) v.self.device_set (reset_device (pos device)) [] v
            refl (back, tt))
          λ u y h1.
            Ends-bind (Left Any []) Ended Never _ _
              (if_cleanup-Left d note Any (λ s h. tt) v.self.initialized acl_finalize [] y refl h1)
              λ u' x (h2, any'). (at_most_one _, h2)
      where
        at_most_one : (b : Bool) → (if b then 1 else 0) ≤ 1
        at_most_one b = ground arith

    -- With a driver that leaves the handle null when a creation or an import fails, and interrupts no
    -- call more often in a row than the rounds allow, a process of host_share with a blank allocation,
    -- no ACL resources and no AIO context ends with an exit code of at most 1 and no exception, whatever
    -- the driver, the peer, the files and the memory answer: each address, handle and mapping has been
    -- given back, or the driver has refused to take it, and none has been given back more often than
    -- obtained.
    pub worker-Ended :
        (w : World HostShare)
        → IsKept holds w
        → IsBlank w.self.host
        → IsIdle w.self
        → Ends Ended Never (worker d mem rounds events mode device reader channel bytes w)
    unfolding worker
    worker-Ended w kept blank idle =
        Ends-bind (λ u v. Returned v) Ended Never _ _ (attempted-Meets.ends w (kept, (blank, idle)))
          λ u v h. finish-Ended v h
