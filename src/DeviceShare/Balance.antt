-- ===== src/DeviceShare/Balance.antt =====
-- A process of device_share gives back what it obtains.
use ascend_hal_sharing_probe.Prelude.{ℕ, refl, Bool, [], ◌∷◌, ◌==◌}
use ascend_hal_sharing_probe.Effects.{
  Driver, Outcome, ok, threw, fault, World, close_socket, close_device, close_tsd, close_library,
  pure,
}
use ascend_hal_sharing_probe.Effects.Outcomes.{Ends, Ends-bind, Ends-if, after}
use ascend_hal_sharing_probe.Common.{cleanup, destroy}
use ascend_hal_sharing_probe.Common.Books.{IsKept}
use ascend_hal_sharing_probe.Common.Evens.{IsPlain, IsBlank}
use ascend_hal_sharing_probe.Common.Retry.{IsPatient}
use ascend_hal_sharing_probe.Common.Pattern.{Memory}
use ascend_hal_sharing_probe.Common.Teardown.{
  IsReturned, Never, Left, called-Outstanding, kept-Outstanding, neutral-Outstanding,
  destroy-Outstanding, if_cleanup-Left,
}
use ascend_hal_sharing_probe.DeviceShare.{
  DeviceShare, note, device_id, leave, caught, finish, worker,
}
use ascend_hal_sharing_probe.DeviceShare.Stages.{holds, Any, share-Keeps}

-- The process is over, and nothing is left to give back.
abbrev pub Over : Bool → World DeviceShare → Type 0
Over failed v = IsReturned v.trace

noted : (s : DeviceShare) → Any s → Any (note s)
noted s h = tt

module _ (d : Driver) (mem : Memory) (rounds : ℕ) (plain : IsPlain d)
    (patient : IsPatient d rounds) where
  module _ (importer : Bool) (channel bytes : ℕ) where
    leave-Left :
        (w : World DeviceShare)
        → IsKept holds w
        → Ends (Left Any []) Never (leave d mem rounds importer channel bytes w)
    leave-Left w kept =
        Ends-bind (Left Any (w.self.mapping ∷ [])) (Left Any []) Never _
          (destroy d note w.self.hbm w)
          (destroy-Outstanding d note Any noted w.self.hbm (w.self.mapping ∷ []) w
            (kept-Outstanding holds (w.self.hbm ∷ w.self.mapping ∷ []) w (λ x. refl) kept) tt)
          λ u v (h, any). destroy-Outstanding d note Any noted w.self.mapping [] v h tt

    caught-Left :
        (r : Outcome (Unit {0}) × World DeviceShare)
        → Ends (λ a v. IsKept holds v × Any v.self) (IsKept holds) r
        → Ends (Left Any []) Never (caught d mem rounds importer channel bytes r)
    caught-Left (ok a, w) (h, any) = leave-Left w h
    caught-Left (threw e, w) h =
        Ends-bind (Left Any []) (Left Any []) Never _ _ (leave-Left w h) λ u v h'. h'
    caught-Left (fault f, w) h = h

    finish-Over :
        (w : World DeviceShare)
        → IsReturned w.trace
        → Ends Over Never (finish d mem rounds importer channel bytes w)
    unfolding finish
    finish-Over w h =
        let v = after d (close_socket channel) w in
        let back : IsReturned v.trace = called-Outstanding d (close_socket channel) [] w refl h in
        Ends-bind (Left Any []) Over Never _ _
          (if_cleanup-Left d note Any noted v.self.device_open (close_device device_id) [] v refl
            (back, tt))
          λ u y h1.
            Ends-bind (Left Any []) Over Never _ _
              (if_cleanup-Left d note Any noted v.self.tsd_open (close_tsd device_id) [] y refl h1)
              λ u' x (h2, any').
                Ends-bind (Left Any []) Over Never _ _
                  (Ends-if (Left Any []) Never (v.self.library == 0) (pure tt)
                    (cleanup d note (close_library v.self.library)) x (λ z. (h2, tt))
                    (λ z.
                      neutral-Outstanding d note Any noted (close_library v.self.library) [] x refl
                        h2 tt))
                  λ u'' z (h3, any''). h3

    -- With a driver that leaves the handle null when a creation or an import fails, and interrupts no
    -- call more often in a row than the rounds allow, a process of device_share whose two allocations
    -- are blank ends without an exception, whatever the libraries, the driver, the peer and the memory
    -- answer: each address, handle and mapping has been given back, or the driver has refused to take
    -- it, and none has been given back more often than obtained.
    pub worker-IsReturned :
        (w : World DeviceShare)
        → IsKept holds w
        → IsBlank w.self.mapping
        → IsBlank w.self.hbm
        → Ends Over Never (worker d mem rounds importer channel bytes w)
    unfolding worker
    worker-IsReturned w kept blank blank' =
        Ends-bind (Left Any []) Over Never _ _
          (caught-Left _ (
            (share-Keeps d mem rounds plain patient importer channel bytes).ends w kept
              (blank, blank')))
          λ u v (h, any). finish-Over v h
