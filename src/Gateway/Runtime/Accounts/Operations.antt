-- ===== src/Gateway/Runtime/Accounts/Operations.antt =====
-- The accounts of the gates over each operation.
use senix.Prelude.{
  by_test, ℕ, ◌<◌, Bool, true, false, String, List, All, length, All-at, All-replace, All-remove,
  Option, none, some, some_injective, get_elem?, remove, replace, ◌≡◌, refl, sym, subst, ◌∙◌, arith,
}
use senix.Gateway.State.{HealthState, InstanceState}
use senix.Gateway.Instance.{
  InstanceGate, LiveInstance, RequestLease, Error, Outcome, done, refused, close, count_long_lived,
  release, rejoin_gate,
}
use senix.Gateway.Runtime.{
  GatewayRuntime, Result, gate_of, modify, conclude, on_gate, on_instance, report_current, mark,
  finish, alone, close_unless, drain_found, find_instance, drop_lease, mark_long_lived, drain,
  rejoin, set_weight, disable, report_health, HealthTarget, report_health_if_current, is_current,
  restore_control_state,
}
use senix.Gateway.Runtime.Accounts.{IsTrue, ArePlaced, IsAccounted}
use senix.Gateway.Runtime.Accounts.Gates.{
  length-modify, modify-AreTrue, health-IsTrue, weight-IsTrue, disabled-IsTrue, close-IsTrue,
  rejoin_gate-IsTrue, restore_gate-IsTrue,
}
use senix.Gateway.Runtime.Accounts.Leases.{
  release-IsTrue, IsTrue-ended, count_long_lived-IsTrue, IsTrue-marked,
}

-- A change of one gate alone.
pub modify-IsAccounted :
    (strict : Bool) (rt : GatewayRuntime) (k : ℕ) (f : InstanceGate → InstanceGate)
    → ((g : InstanceGate)
        → get_elem? rt.gates k ≡ some g
        → IsTrue strict k rt.leases g
        → IsTrue strict k rt.leases (f g))
    → IsAccounted strict rt
    → IsAccounted strict (record rt { gates = modify k f rt.gates })
modify-IsAccounted strict rt k f here a = record {
  gates_true =
      modify-AreTrue strict k f rt.gates rt.leases rt.leases a.gates_true here (λ j g other t. t);
  placed =
      subst (λ n. All (λ (l : RequestLease). gate_of l.instance_ < n) rt.leases)
        (sym (length-modify k f rt.gates)) a.placed;
}

done_injective : (g g' : InstanceGate) → done g ≡ done g' → g ≡ g'
done_injective g g' h = ground arith

module _ (strict : Bool) (rt : GatewayRuntime) (a : IsAccounted strict rt) where
  module _ (f : InstanceGate → Outcome)
      (keeps : (k : ℕ) (g g' : InstanceGate)
        → f g ≡ done g'
        → IsTrue strict k rt.leases g
        → IsTrue strict k rt.leases g') where
    conclude-IsAccounted :
        (live : LiveInstance) (g : InstanceGate) (o : Outcome)
        → get_elem? rt.gates (gate_of live) ≡ some g
        → f g ≡ o
        → IsAccounted strict (conclude rt live o).0
    conclude-IsAccounted live g (refused e) at is = a
    conclude-IsAccounted live g (done g') at is =
        modify-IsAccounted strict rt (gate_of live) (λ _. g')
          (λ old was t.
            keeps _ g g' is (subst (IsTrue strict _ rt.leases) (some_injective (sym was ∙ at)) t))
          a

    on_gate-IsAccounted :
        (live : LiveInstance) (og : Option InstanceGate)
        → get_elem? rt.gates (gate_of live) ≡ og
        → IsAccounted strict (on_gate rt live f og).0
    on_gate-IsAccounted live none at = a
    on_gate-IsAccounted live (some g) at = conclude-IsAccounted live g (f g) at refl

    with_gate-IsAccounted :
        (id : String) (found : Option LiveInstance)
        → IsAccounted strict (on_instance rt id f found).0
    with_gate-IsAccounted id none = a
    with_gate-IsAccounted id (some live) = on_gate-IsAccounted live _ refl

  as_long :
      (k : ℕ) (f : InstanceGate → InstanceGate) (leases : List RequestLease)
      → ArePlaced rt.gates leases
      → ArePlaced (modify k f rt.gates) leases
  as_long k f leases h =
      subst (λ n. All (λ (l : RequestLease). gate_of l.instance_ < n) leases)
        (sym (length-modify k f rt.gates)) h

  set-IsAccounted :
      (id : String) (h : InstanceGate → InstanceGate)
      → ((k : ℕ) (g : InstanceGate) → IsTrue strict k rt.leases g → IsTrue strict k rt.leases (h g))
      → IsAccounted strict (on_instance rt id (λ g. done (h g)) (find_instance id rt.instances)).0
  set-IsAccounted id h keeps =
      with_gate-IsAccounted (λ g. done (h g))
        (λ k g g' e t. subst (IsTrue strict k rt.leases) (done_injective _ _ e) (keeps k g t)) id _

  pub report_health-IsAccounted :
      (id : String) (observed : HealthState) → IsAccounted strict (report_health id observed rt).0
  unfolding report_health
  report_health-IsAccounted id observed =
      set-IsAccounted id _ (λ k g t. health-IsTrue strict k rt.leases g t observed)

  pub set_weight-IsAccounted :
      (id : String) (weight : ℕ) → IsAccounted strict (set_weight id weight rt).0
  unfolding set_weight
  set_weight-IsAccounted id weight =
      set-IsAccounted id _ (λ k g t. weight-IsTrue strict k rt.leases g t weight)

  pub disable-IsAccounted : (id : String) → IsAccounted strict (disable id rt).0
  unfolding disable
  disable-IsAccounted id = set-IsAccounted id _ (λ k g t. disabled-IsTrue strict k rt.leases g t)

  pub restore_control_state-IsAccounted :
      (before : InstanceState)
      → strict ≡ false
      → IsAccounted strict (restore_control_state before rt).0
  unfolding restore_control_state
  restore_control_state-IsAccounted before lax =
      set-IsAccounted before.id _ (λ k g t. restore_gate-IsTrue strict k rt.leases g t before lax)

  pub rejoin-IsAccounted :
      (id : String) (generation weight : ℕ) (force : Bool)
      → IsAccounted strict (rejoin id generation weight force rt).0
  unfolding rejoin
  rejoin-IsAccounted id generation weight force =
      with_gate-IsAccounted (rejoin_gate generation weight force)
        (λ k g g' e t. rejoin_gate-IsTrue strict k rt.leases g t generation weight force g' e) id _

  close_unless-IsAccounted :
      (live : LiveInstance) (last : Option Error)
      → IsAccounted strict (close_unless alone live rt last).0
  close_unless-IsAccounted live (some e) = a
  close_unless-IsAccounted live none =
      on_gate-IsAccounted (λ g. done (close g))
        (λ k g g' e t.
          subst (IsTrue strict k rt.leases) (done_injective _ _ e)
            (close-IsTrue strict k rt.leases g t))
        live _ refl

  drain_found-IsAccounted :
      (id : String) (force : Bool) (found : Option LiveInstance)
      → IsAccounted strict (drain_found id force alone rt found).0
  drain_found-IsAccounted id force none = a
  drain_found-IsAccounted id force (some live) = close_unless-IsAccounted live _

  pub drain-IsAccounted :
      (id : String) (force : Bool) → IsAccounted strict (drain id force alone rt).0
  unfolding drain
  drain-IsAccounted id force = drain_found-IsAccounted id force _

  pub closed-IsAccounted :
      (k : ℕ) → IsAccounted strict (record rt { gates = modify k close rt.gates })
  closed-IsAccounted k =
      modify-IsAccounted strict rt k close (λ g at t. close-IsTrue strict k rt.leases g t) a

  report_current-IsAccounted :
      (target : HealthTarget) (observed : HealthState) (found : Option LiveInstance)
      → IsAccounted strict (report_current target observed rt found).0
  report_current-IsAccounted target observed none = a
  report_current-IsAccounted target observed (some live) =
      by_test (λ (x : GatewayRuntime × Result Bool). IsAccounted strict x.0)
        (is_current target live) _ _
        (λ same.
          modify-IsAccounted strict rt (gate_of live) _
            (λ g at t. health-IsTrue strict _ rt.leases g t observed) a)
        (λ changed. a)

  pub report_health_if_current-IsAccounted :
      (target : HealthTarget) (observed : HealthState)
      → IsAccounted strict (report_health_if_current target observed rt).0
  unfolding report_health_if_current
  report_health_if_current-IsAccounted target observed =
      report_current-IsAccounted target observed _

  mark-IsAccounted :
      (n : ℕ) (found : Option RequestLease)
      → get_elem? rt.leases n ≡ found
      → IsAccounted strict (mark n rt found)
  mark-IsAccounted n none at = a
  mark-IsAccounted n (some l) at =
      by_test (IsAccounted strict) l.long_lived _ _ (λ long. a)
        (λ short. record {
          gates_true =
              modify-AreTrue strict (gate_of l.instance_) count_long_lived rt.gates rt.leases
                (replace n (record l { long_lived = true }) rt.leases) a.gates_true
                (λ g was t.
                  count_long_lived-IsTrue strict rt.leases n l at (gate_of l.instance_) g refl short
                    t)
                (λ j g other t. IsTrue-marked strict rt.leases n l at j g other short t);
          placed =
              as_long (gate_of l.instance_) count_long_lived
                (replace n (record l { long_lived = true }) rt.leases)
                (All-replace (λ (x : RequestLease). gate_of x.instance_ < length rt.gates) n _
                  rt.leases
                  (All-at (λ (x : RequestLease). gate_of x.instance_ < length rt.gates) n rt.leases
                    a.placed at)
                  a.placed);
        })

  finish-IsAccounted :
      (n : ℕ) (found : Option RequestLease)
      → get_elem? rt.leases n ≡ found
      → IsAccounted strict (finish n rt found)
  finish-IsAccounted n none at = a
  finish-IsAccounted n (some l) at = record {
    gates_true =
        modify-AreTrue strict (gate_of l.instance_) (release l.long_lived) rt.gates rt.leases
          (remove n rt.leases) a.gates_true
          (λ g was t. release-IsTrue strict rt.leases n l at (gate_of l.instance_) g refl t)
          (λ j g other t. IsTrue-ended strict rt.leases n l at j g other t);
    placed = as_long (gate_of l.instance_) (release l.long_lived) (remove n rt.leases) (
        All-remove (λ (x : RequestLease). gate_of x.instance_ < length rt.gates) n rt.leases
          a.placed);
  }

  pub drop_lease-IsAccounted : (n : ℕ) → IsAccounted strict (drop_lease n rt)
  unfolding drop_lease
  drop_lease-IsAccounted n = finish-IsAccounted n _ refl

  pub mark_long_lived-IsAccounted : (n : ℕ) → IsAccounted strict (mark_long_lived n rt)
  unfolding mark_long_lived
  mark_long_lived-IsAccounted n = mark-IsAccounted n _ refl
