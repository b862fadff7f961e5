-- ===== src/Common/Quiet.antt =====
-- Parts that leave the allocations alone keep the books: cleanups, the ACL resources, the AIO operation,
-- try blocks and scopes.
use ascend_hal_sharing_probe.Prelude.{
  List, ℕ, ◌/◌, ◌≡◌, refl, true, Bool, is_zero, if◌then◌else◌, not, ◌==◌, take,
}
use ascend_hal_sharing_probe.Effects.{
  Call, Driver, Exception, Outcome, ok, threw, fault, Trace, World, M, io_submit, io_getevents,
  io_destroy, pure, raise, ◌>>=◌,
}
use ascend_hal_sharing_probe.Effects.Ledger.{Resource, is_neutral}
use ascend_hal_sharing_probe.Effects.Outcomes.{Ends}
use ascend_hal_sharing_probe.Effects.Meets.{attempt, scoped, handle, close}
use ascend_hal_sharing_probe.Common.{cleanup}
use ascend_hal_sharing_probe.Common.Books.{IsKept, Keeps}
use ascend_hal_sharing_probe.Common.Rules.{
  Keeps-bind, Keeps-if, Keeps-pure, Keeps-raise, Keeps-gets, Keeps-call, Keeps-check_reply,
  Keeps-modify,
}
use ascend_hal_sharing_probe.Common.Acl.{
  AclResources, acl_resources, AclPlace, obtains, destroy_acl, leave_acl,
}
use ascend_hal_sharing_probe.Common.AioOperation.{
  IoEvent, requests, is_count, has_failed, blocks_from, failed_operation, give_up, judge,
  aio_operation,
}

-- A write to the object that is beside the allocations.
abbrev pub IsBeside : {S : Type 0} → (Resource → S → ℕ) → (S → Type 0) → (S → S) → Type 0
IsBeside {S} holds P f =
    ((x : Resource) (s : S) → holds x (f s) ≡ holds x s) × ((s : S) → P s → P (f s))

-- Nothing is said of the object.
abbrev pub Whatever : {S : Type 0} → S → Type 0
Whatever s = Unit {0}

module _ {S : Type 0} {holds : Resource → S → ℕ} where
  -- The handler is reached with nothing but the books.
  pub Keeps-attempt :
      {A : Type 0} {P Q : S → Type 0} {m : M S A} {h : Exception → M S A}
      → Keeps holds P Q m
      → ((e : Exception) → Keeps holds Whatever Q (h e))
      → Keeps holds P Q (attempt m h)
  unfolding attempt
  Keeps-attempt {A} {P} {Q} {m} {h} k l = record {
    ends = λ w kept p. handled (m w) (k.ends w kept p);
  }
    where
      handled :
          (r : Outcome A × World S)
          → Ends (λ a v. IsKept holds v × Q v.self) (IsKept holds) r
          → Ends (λ a v. IsKept holds v × Q v.self) (IsKept holds) (handle h r)
      handled (ok a, w) q = q
      handled (threw e, w) q = (l e).ends w q tt
      handled (fault f, w) q = absurd q

  -- The end of the scope is reached on either way.
  pub Keeps-scoped :
      {A : Type 0} {P Q : S → Type 0} {m : M S A} {last : M S (Unit {0})}
      → Keeps holds P Q m
      → Keeps holds Q Q last
      → Keeps holds Whatever Whatever last
      → Keeps holds P Q (scoped m last)
  unfolding scoped
  Keeps-scoped {A} {P} {Q} {m} {last} k l l' = record {
    ends = λ w kept p. closing (m w) (k.ends w kept p);
  }
    where
      closing :
          (r : Outcome A × World S)
          → Ends (λ a v. IsKept holds v × Q v.self) (IsKept holds) r
          → Ends (λ a v. IsKept holds v × Q v.self) (IsKept holds) (close last r)
      closing (ok a, w) (kept, q) =
          let k' : Keeps holds Q Q (last >>= λ u. pure a) = Keeps-bind l (λ u. Keeps-pure a) in
          k'.ends w kept q
      closing (threw e, w) kept =
          let k' : Keeps holds Whatever Q (last >>= λ u. raise {A = A} e) =
            Keeps-bind l' (λ u. Keeps-raise e) in
          k'.ends w kept tt
      closing (fault f, w) q = absurd q

  module _ {P : S → Type 0} where
    pub Keeps-cleanup :
        (d : Driver) (note : S → S) (c : Call)
        → IsBeside holds P note
        → is_neutral c ≡ true
        → Keeps holds P P (cleanup d note c)
    Keeps-cleanup d note c beside quiet =
        Keeps-bind (Keeps-call d c quiet)
          λ r. Keeps-if (is_zero r.ret) (Keeps-pure tt) (Keeps-modify note beside.0 beside.1)

    pub Keeps-obtains :
        (d : Driver) (p : AclPlace S) (c : Call) (u : ℕ → AclResources → AclResources)
        → ((a : AclResources) → IsBeside holds P (p.put a))
        → is_neutral c ≡ true
        → Keeps holds P P (obtains d p c u)
    Keeps-obtains d p c u beside quiet = Keeps-bind (Keeps-call d c quiet) λ r.
        Keeps-bind
          (Keeps-modify {Q = P} (λ s. p.put (u r.out (p.get s)) s)
            (λ x s. (beside (u r.out (p.get s))).0 x s) (λ s h. (beside (u r.out (p.get s))).1 s h))
          λ z. Keeps-check_reply d r

    Keeps-cleanup_if :
        (d : Driver) (note : S → S) (b : Bool) (c : Call)
        → IsBeside holds P note
        → is_neutral c ≡ true
        → Keeps holds P P (if b then cleanup d note c else pure tt)
    Keeps-cleanup_if d note b c beside quiet =
        Keeps-if b (Keeps-cleanup d note c beside quiet) (Keeps-pure tt)

    pub Keeps-leave_acl :
        (d : Driver) (note : S → S) (p : AclPlace S)
        → IsBeside holds P note
        → ((a : AclResources) → IsBeside holds P (p.put a))
        → Keeps holds P P (leave_acl d note p)
    unfolding destroy_acl
    Keeps-leave_acl d note p beside puts = Keeps-bind (Keeps-gets p.get) λ a.
        Keeps-bind
          (Keeps-modify {Q = P} (p.put acl_resources) (puts acl_resources).0 (puts acl_resources).1)
          λ u.
            Keeps-bind
              (Keeps-cleanup_if d note (not (a.stream == 0)) (Call.sync_stream a.stream) beside
                refl)
              λ u1.
                Keeps-bind
                  (Keeps-cleanup_if d note (not (a.event == 0)) (Call.destroy_event a.event) beside
                    refl)
                  λ u2.
                    Keeps-bind
                      (Keeps-cleanup_if d note (not (a.stream == 0)) (Call.destroy_stream a.stream)
                        beside refl)
                      λ u3.
                        Keeps-cleanup_if d note (not (a.device == 0)) (Call.free_device a.device)
                          beside refl

    module _ (d : Driver) (events : Trace → List IoEvent) (set_ctx : ℕ → S → S) (note : S → S)
        (beside : IsBeside holds P note) (sets : (c : ℕ) → IsBeside holds P (set_ctx c)) where
      give_up-Keeps : (ctx : ℕ) → Keeps holds P P (give_up d events set_ctx note ctx)
      give_up-Keeps ctx = Keeps-bind (Keeps-cleanup d note (io_destroy ctx) beside refl) λ u.
          Keeps-bind (Keeps-modify {Q = P} (set_ctx 0) (sets 0).0 (sets 0).1)
            λ u1. Keeps-raise failed_operation

      judge-Keeps : (chunk : ℕ) → Keeps holds P P (judge d events set_ctx note chunk)
      judge-Keeps chunk = record {
        ends = λ w kept p.
            let failed = has_failed chunk 0 (take requests (events w.trace)) in
            let k : Keeps holds P P (if failed then raise failed_operation else pure tt) =
              Keeps-if failed (Keeps-raise failed_operation) (Keeps-pure tt) in
            k.ends w kept p;
      }

      pub aio_operation-Keeps :
          (ctx fd ptr bytes : ℕ) (write : Bool)
          → Keeps holds P P (aio_operation d events set_ctx note ctx fd ptr bytes write)
      unfolding aio_operation
      aio_operation-Keeps ctx fd ptr bytes write =
          Keeps-bind
            (Keeps-call d (io_submit ctx (blocks_from requests 0 write fd ptr (bytes / requests)))
              refl)
            λ submitted.
              Keeps-if (is_count requests submitted.ret)
                (Keeps-bind (Keeps-call d (io_getevents ctx requests) refl) λ completed.
                  Keeps-if (is_count requests completed.ret) (judge-Keeps (bytes / requests))
                    (give_up-Keeps ctx))
                (give_up-Keeps ctx)
