-- ===== src/Pivot/Calls.antt =====
-- The calls of the post-pivot sequence: the plan, how calls follow it, and a recorder that logs the
-- calls of given dependencies.
use yage.Prelude.{
  String, Bool, true, false, not, ◌⊎◌, inl, inr, Option, none, some, List, [], ◌∷◌, ◌++◌, ◌≡◌, map,
}
use yage.Pivot.{
  PivotError, PostPivotDeps, Driver, move_failed, client_failed, yage_system_failed, install_failed,
  repo_sync_failed, parity_failed, rebind_failed,
}

pub data Call : Type 0 where
  move : Call
  handoff : Call
  client : Call
  yage_system : Call
  prepare : Call
  install : String → Call
  repo_sync : Call
  parity : Call
  rebind : Call

abbrev pub finishing : List Call
finishing = repo_sync ∷ parity ∷ rebind ∷ []

abbrev pub installing : List String → List Call
installing [] = finishing
installing (n ∷ ns) = install n ∷ installing ns

-- The calls of a whole run, for drivers of these names.
abbrev pub full_order : List String → List Call
full_order names = move ∷ handoff ∷ client ∷ yage_system ∷ prepare ∷ installing names

module _ {Err : Type 0} where
  -- The call that an error of the sequence names, with the error that it wraps.
  abbrev pub reason_of : PivotError Err → Call × Err
  reason_of (move_failed e) = (move, e)
  reason_of (client_failed e) = (client, e)
  reason_of (yage_system_failed e) = (yage_system, e)
  reason_of (install_failed n e) = (install n, e)
  reason_of (repo_sync_failed e) = (repo_sync, e)
  reason_of (parity_failed e) = (parity, e)
  reason_of (rebind_failed _ e) = (rebind, e)

module _ {Err : Type 0} (not_applicable : Err → Bool) where
  -- Whether what a call returned ends the sequence.
  abbrev pub is_fatal : Call → Option Err → Bool
  is_fatal c none = false
  is_fatal handoff (some e) = false
  is_fatal (install n) (some e) = not (not_applicable e)
  is_fatal c (some e) = true

  -- The calls made follow a plan: each is made once and in its order, up to the first whose error
  -- is fatal, which is the last, and whose error is the one returned.
  pub data Follows : List Call → List (Call × Option Err) → Option (PivotError Err) → Type 0 where
    done : Follows [] [] none
    failed :
        (c : Call) (plan : List Call) (e : Err) (x : PivotError Err)
        → reason_of x ≡ (c, e)
        → is_fatal c (some e) ≡ true
        → Follows (c ∷ plan) ((c, some e) ∷ []) (some x)
    passed :
        (c : Call) (plan : List Call) (r : Option Err) (calls : List (Call × Option Err))
        (x : Option (PivotError Err))
        → is_fatal c r ≡ false
        → Follows plan calls x
        → Follows (c ∷ plan) ((c, r) ∷ calls) x

-- A world with the calls made so far and what they returned.
abbrev pub Recorded : Type 0 → Type 0 → Type 0
Recorded W Err = W × List (Call × Option Err)

module _ {W Err : Type 0} where
  abbrev pub record_call :
      {A : Type 0} → Call → (A → Option Err) → (W → A × W) → Recorded W Err → A × Recorded W Err
  record_call c err_of call (w, log) = let (a, w') = call w in (a, (w', log ++ (c, err_of a) ∷ []))

  abbrev pub recorded_driver : Driver W Err → Driver (Recorded W Err) Err
  recorded_driver d = record {
    name = d.name;
    ensure_management_install =
        λ k. record_call (install d.name) (λ e. e) (d.ensure_management_install k);
  }

module _ {Err Client : Type 0} where
  abbrev pub left_of : Err ⊎ Client → Option Err
  left_of (inl e) = some e
  left_of (inr _) = none

module _ {W Err Client : Type 0} where
  abbrev pub recorded : PostPivotDeps W Err Client → PostPivotDeps (Recorded W Err) Err Client
  recorded d = record {
    kind_cluster_name = λ (w, _). d.kind_cluster_name w;
    move_capi_state = λ k. record_call move (λ e. e) (d.move_capi_state k);
    handoff = λ c k. record_call handoff (λ (_, e). e) (d.handoff c k);
    mgmt_client = λ k. record_call client left_of (d.mgmt_client k);
    ensure_yage_system = λ c. record_call yage_system (λ e. e) (d.ensure_yage_system c);
    prepare_csi = λ (w, log). (d.prepare_csi w, log ++ (prepare, none) ∷ []);
    csi_drivers = λ (w, _). map recorded_driver (d.csi_drivers w);
    ensure_repo_sync = λ c. record_call repo_sync (λ e. e) (d.ensure_repo_sync c);
    verify_parity = λ k. record_call parity (λ e. e) (d.verify_parity k);
    rebind = λ k. record_call rebind (λ e. e) (d.rebind k);
    is_not_applicable = d.is_not_applicable;
  }
