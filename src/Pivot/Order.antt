-- ===== src/Pivot/Order.antt =====
-- In which order the calls are made, and which of them end the sequence.
use yage.Prelude.{
  if◌then◌else◌, String, Bool, true, false, ◌⊎◌, inl, inr, Option, none, some, List, [], ◌∷◌, ◌++◌,
  ◌≡◌, refl, map, ◌∙◌, ap, sym, Bool-cases,
}
use mathlib.Core.List.{append-nil, append_assoc}
use yage.Pivot.{
  PivotError, PostPivotDeps, Driver, move_failed, client_failed, yage_system_failed, install_failed,
  repo_sync_failed, parity_failed, rebind_failed, tolerate, install_all, finish, with_client,
  run_post_pivot_sequence, kind_context,
}
use yage.Pivot.Calls.{
  left_of, Call, move, handoff, client, yage_system, prepare, install, repo_sync, parity, rebind,
  finishing, installing, full_order, is_fatal, reason_of, Follows, left_of, done, failed, passed,
  Recorded, recorded, recorded_driver,
}
use mathlib.Core.Path.{subst}

module _ {Err : Type 0} (not_applicable : Err → Bool) where
  -- What the code reads of a result, against what was logged.
  abbrev Reads : Call → Option Err → Option Err → Type 0
  Reads c logged none = is_fatal not_applicable c logged ≡ false
  Reads c logged (some e) = (logged ≡ some e) × (is_fatal not_applicable c (some e) ≡ true)

  tolerate-Reads : (n : String) (r : Option Err) → Reads (install n) r (tolerate not_applicable r)
  unfolding tolerate
  tolerate-Reads n none = refl
  tolerate-Reads n (some e) = elim (Bool-cases (not_applicable e)) [
    | inl h ↦ rw h (rw h refl)
    | inr h ↦ rw h (refl, rw h refl)
  ]

  plain-Reads :
      (c : Call) (r : Option Err)
      → ((e : Err) → is_fatal not_applicable c (some e) ≡ true)
      → Reads c r r
  plain-Reads c none fatal = refl
  plain-Reads c (some e) fatal = (refl, fatal e)

module _ {W Err : Type 0} (not_applicable : Err → Bool) where
  -- What is logged behind `log` follows the plan.
  record Runs (plan : List Call) (log : List (Call × Option Err))
      (out : Option (PivotError Err) × Recorded W Err) : Type 0 where
    events : List (Call × Option Err)
    log_eq : out.1.1 ≡ log ++ events
    follows : Follows not_applicable plan events out.0

  Runs-passed :
      (c : Call) (plan : List Call) (logged : Option Err) (log log' : List (Call × Option Err))
      (out : Option (PivotError Err) × Recorded W Err)
      → log' ≡ log ++ (c, logged) ∷ []
      → is_fatal not_applicable c logged ≡ false
      → Runs plan log' out
      → Runs (c ∷ plan) log out
  Runs-passed c plan logged log log' out e passes rest = record {
    events = (c, logged) ∷ rest.events;
    log_eq =
        rest.log_eq
        ∙ ap (λ l. l ++ rest.events) e
        ∙ append_assoc log ((c, logged) ∷ []) rest.events;
    follows = passed c plan logged rest.events out.0 passes rest.follows;
  }

  Runs-step :
      (c : Call) (plan : List Call) (logged err : Option Err) (log : List (Call × Option Err))
      (s : Recorded W Err) (wrap : Err → PivotError Err)
      (out : Option (PivotError Err) × Recorded W Err)
      → s.1 ≡ log ++ (c, logged) ∷ []
      → Reads not_applicable c logged err
      → ((e : Err) → reason_of (wrap e) ≡ (c, e))
      → Runs plan s.1 out
      → Runs (c ∷ plan) log (elim err [ none ↦ out | some e ↦ (some (wrap e), s) ])
  Runs-step c plan logged none log s wrap out logs passes names rest =
      Runs-passed c plan logged log s.1 out logs passes rest
  Runs-step c plan logged (some x) log s wrap out logs (l, fatal) names rest = record {
    events = (c, some x) ∷ [];
    log_eq = logs ∙ ap (λ r. log ++ (c, r) ∷ []) l;
    follows = failed c plan x (wrap x) (names x) fatal;
  }

  Runs-install_all :
      (kubeconfig : String) (ds : List (Driver W Err))
      (next : Recorded W Err → Option (PivotError Err) × Recorded W Err)
      → ((s : Recorded W Err) → Runs finishing s.1 (next s))
      → (s : Recorded W Err)
      → Runs
          (installing (map (λ (d : Driver W Err). d.name) ds))
          s.1
          (install_all not_applicable kubeconfig (map recorded_driver ds) next s)
  unfolding install_all
  Runs-install_all kubeconfig [] next after s = after s
  Runs-install_all kubeconfig (d ∷ ds) next after s =
      let r = d.ensure_management_install kubeconfig s.0 in
      let s' : Recorded W Err = (r.1, s.1 ++ (install d.name, r.0) ∷ []) in
      Runs-step (install d.name) _ r.0 (tolerate not_applicable r.0) s.1 s' (install_failed d.name)
        _ refl (tolerate-Reads not_applicable d.name r.0) (λ _. refl)
        (Runs-install_all kubeconfig ds next after s')

module _ {W Err : Type 0} (not_applicable : Err → Bool) where
  Runs-Follows :
      (plan : List Call) (out : Option (PivotError Err) × Recorded W Err)
      → Runs {W = W} not_applicable plan [] out
      → Follows not_applicable plan out.1.1 out.0
  Runs-Follows plan out run =
      subst (λ calls. Follows not_applicable plan calls out.0) (sym run.log_eq) run.follows

module _ {W Err Client : Type 0} (deps : PostPivotDeps W Err Client) (kubeconfig : String) where
  open deps use {is_not_applicable}

  Runs-plain :
      (c : Call) (plan : List Call) (r : Option Err × W) (log : List (Call × Option Err))
      (wrap : Err → PivotError Err) (out : Option (PivotError Err) × Recorded W Err)
      → ((e : Err) → is_fatal is_not_applicable c (some e) ≡ true)
      → ((e : Err) → reason_of (wrap e) ≡ (c, e))
      → Runs {W = W} is_not_applicable plan (log ++ (c, r.0) ∷ []) out
      → Runs {W = W} is_not_applicable
          (c ∷ plan)
          log
          (elim r.0 [ none ↦ out | some e ↦ (some (wrap e), (r.1, log ++ (c, r.0) ∷ [])) ])
  Runs-plain c plan r log wrap out fatal names rest =
      Runs-step is_not_applicable c plan r.0 r.0 log (r.1, log ++ (c, r.0) ∷ []) wrap out refl
        (plain-Reads is_not_applicable c r.0 fatal) names rest

  Runs-finish :
      (c : Client) (s : Recorded W Err)
      → Runs {W = W} is_not_applicable finishing s.1 (finish (recorded deps) kubeconfig c s)
  unfolding finish
  Runs-finish c s =
      let r = deps.ensure_repo_sync c s.0 in
      let p = deps.verify_parity kubeconfig r.1 in
      let b = deps.rebind kubeconfig p.1 in
      Runs-plain repo_sync _ r s.1 repo_sync_failed _ (λ _. refl) (λ _. refl)
        (Runs-plain parity _ p _ parity_failed _ (λ _. refl) (λ _. refl)
          (Runs-plain rebind _ b _ (rebind_failed (deps.kind_cluster_name b.1)) _ (λ _. refl)
            (λ _. refl) (record { events = []; log_eq = sym (append-nil _); follows = done })))

  abbrev names_of : W → List String
  names_of w = map (λ (d : Driver W Err). d.name) (deps.csi_drivers w)

  -- The world after the client was made and, if it was, the calls up to the CSI preparation.
  abbrev pub prepared_by : (Err ⊎ Client) × W → W
  prepared_by (inl e, w) = w
  prepared_by (inr c, w) = deps.prepare_csi (deps.ensure_yage_system c w).1

  -- The world in which the drivers are listed.
  abbrev pub prepared : W → W
  prepared w =
      let moved = (deps.move_capi_state kubeconfig w).1 in
      prepared_by (
        deps.mgmt_client kubeconfig
          (deps.handoff (kind_context deps kubeconfig moved) kubeconfig moved).1)

  Runs-with_client :
      (r : (Err ⊎ Client) × W) (log : List (Call × Option Err))
      → Runs {W = W} is_not_applicable
          (client ∷ yage_system ∷ prepare ∷ installing (names_of (prepared_by r)))
          log
          (with_client (recorded deps) kubeconfig (r.0, (r.1, log ++ (client, left_of r.0) ∷ [])))
  unfolding with_client
  Runs-with_client (inl e, w) log = record {
    events = (client, some e) ∷ [];
    log_eq = refl;
    follows = failed client _ e (client_failed e) refl refl;
  }
  Runs-with_client (inr c, w) log =
      let made = log ++ (client, none) ∷ [] in
      let y = deps.ensure_yage_system c w in
      let ready = made ++ (yage_system, y.0) ∷ [] in
      let next = finish (recorded deps) kubeconfig c in
      Runs-passed is_not_applicable client _ none log made _ refl refl (
        Runs-plain yage_system _ y made yage_system_failed _ (λ _. refl) (λ _. refl)
          (Runs-passed is_not_applicable prepare _ none ready (ready ++ (prepare, none) ∷ []) _ refl
            refl
            (Runs-install_all is_not_applicable kubeconfig (deps.csi_drivers (deps.prepare_csi y.1))
              next (Runs-finish c) (deps.prepare_csi y.1, ready ++ (prepare, none) ∷ []))))

  never_fatal : (r : Option Err) → is_fatal is_not_applicable handoff r ≡ false
  never_fatal none = refl
  never_fatal (some e) = refl

  Runs-sequence :
      (w : W) (log : List (Call × Option Err))
      → Runs {W = W} is_not_applicable
          (full_order (names_of (prepared w)))
          log
          (run_post_pivot_sequence (recorded deps) kubeconfig false (w, log))
  unfolding run_post_pivot_sequence
  Runs-sequence w log =
      let m = deps.move_capi_state kubeconfig w in
      let h = deps.handoff (kind_context deps kubeconfig m.1) kubeconfig m.1 in
      let moved = log ++ (move, m.0) ∷ [] in
      Runs-plain move _ m log move_failed _ (λ _. refl) (λ _. refl)
        (Runs-passed is_not_applicable handoff _ h.0.1 moved (moved ++ (handoff, h.0.1) ∷ []) _ refl
          (never_fatal h.0.1)
          (Runs-with_client (deps.mgmt_client kubeconfig h.1) (moved ++ (handoff, h.0.1) ∷ [])))

  Runs-dry :
      (w : W)
      → let out = run_post_pivot_sequence (recorded deps) kubeconfig true (w, []) in
        Follows is_not_applicable (move ∷ []) out.1.1 out.0
  unfolding run_post_pivot_sequence
  Runs-dry w =
      let m = deps.move_capi_state kubeconfig w in
      Runs-Follows is_not_applicable _ _ (
        Runs-plain move [] m [] move_failed _ (λ _. refl) (λ _. refl)
          (record { events = []; log_eq = refl; follows = done }))

  -- The calls that a run makes follow the full order, or in a dry run the move alone: a run without
  -- an error makes all calls of that order, and a run with an error ends at the first call whose
  -- error is fatal, and returns that error.
  pub run_post_pivot_sequence-Follows :
      (dry_run : Bool) (w : W)
      → let out = run_post_pivot_sequence (recorded deps) kubeconfig dry_run (w, []) in
        let plan = if dry_run then move ∷ [] else full_order (names_of (prepared w)) in
        Follows is_not_applicable plan out.1.1 out.0
  run_post_pivot_sequence-Follows true w = Runs-dry w
  run_post_pivot_sequence-Follows false w = Runs-Follows is_not_applicable _ _ (Runs-sequence w [])
