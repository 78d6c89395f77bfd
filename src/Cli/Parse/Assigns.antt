-- ===== src/Cli/Parse/Assigns.antt =====
-- internal/ui/cli/parse.go: which fields the statements of a case assign.
use yage.Prelude.{
  ℤ, String, Bool, false, ◌||◌, Option, none, some, List, [], ◌∷◌, ◌==◌, ◌≡◌, refl, arith,
}
use yage.Float.{Float}
use yage.Settings.{Strconv}
use yage.Cli.Steps.{
  Result, ok, exit, Reading, reads_none, reads_value, reads_optional, exits, Step, turn, put, take,
  take_both, take_int, take_float, take_driver, take_gitops_mode, maybe_access, maybe_forward,
  maybe_rollout, maybe_backup, maybe_print_mode, take_archive, show_help, show_completion,
  refuse_removed, S, reading, store_int, store_float, set_access, set_forward, set_rollout,
  set_backup, set_print_mode, set_archive, set_gitops_mode, IntTest, FloatTest,
}

-- Whether a statement assigns the field.
abbrev pub assigns : String → Step → Bool
assigns g (turn field b) = field == g
assigns g (put field v) = field == g
assigns g (take field t) = field == g
assigns g (take_both field other) = field == g || other == g
assigns g (take_int field test) = field == g
assigns g (take_float field test) = field == g
assigns g take_driver = false
assigns g take_gitops_mode = "WorkloadGitopsMode" == g
assigns g maybe_access = "ArgoCD.PrintAccessTarget" == g
assigns g maybe_forward = "ArgoCD.PortForwardTarget" == g || "ArgoCD.PrintAccessTarget" == g
assigns g maybe_rollout = "WorkloadRolloutMode" == g
assigns g maybe_backup = "BootstrapKindBackupOut" == g
assigns g maybe_print_mode = "PrintCommand" == g
assigns g take_archive = "BootstrapKindStateOp" == g || "BootstrapKindStatePath" == g
assigns g show_help = false
assigns g show_completion = false
assigns g refuse_removed = false

abbrev pub some_assigns : String → List Step → Bool
some_assigns g [] = false
some_assigns g (step ∷ steps) = assigns g step || some_assigns g steps

module _ (f : Float) (go : Strconv f.F) (g : String) where
  -- The field is the same in both, whatever its type.
  abbrev pub IsSame : S f go → S f go → Type 0
  IsSame s t =
      (t.texts g ≡ s.texts g)
      × (t.flags g ≡ s.flags g)
      × (t.ints g ≡ s.ints g)
      × (t.floats g ≡ s.floats g)

  abbrev pub Keeps : S f go → Result (S f go) → Type 0
  Keeps s (ok t) = IsSame s t
  Keeps s (exit e) = Unit

  abbrev pub KeepsRead : S f go → Reading (S f go) → Type 0
  KeepsRead s (reads_none t) = IsSame s t
  KeepsRead s (reads_value u) = (v : String) → Keeps s (u v)
  KeepsRead s (reads_optional u) = (v : Option String) → Keeps s (u v)
  KeepsRead s (exits e) = Unit

  pub stays : (s : S f go) → IsSame s s
  stays s = (refl, refl, refl, refl)

  set_access-IsSame :
      (v : Option String) (s : S f go)
      → ("ArgoCD.PrintAccessTarget" == g) ≡ false
      → IsSame s (set_access f go v s)
  unfolding set_access
  set_access-IsSame none s h = stays s
  set_access-IsSame (some v) s h = ground (arith, h)

  set_forward-IsSame :
      (v : Option String) (s : S f go)
      → ("ArgoCD.PortForwardTarget" == g || "ArgoCD.PrintAccessTarget" == g) ≡ false
      → IsSame s (set_forward f go v s)
  unfolding set_forward
  set_forward-IsSame none s h = stays s
  set_forward-IsSame (some v) s h = ground (arith, h)

  set_rollout-IsSame :
      (v : Option String) (s : S f go)
      → ("WorkloadRolloutMode" == g) ≡ false
      → IsSame s (set_rollout f go v s)
  unfolding set_rollout
  set_rollout-IsSame none s h = stays s
  set_rollout-IsSame (some v) s h = ground (arith, h)

  set_backup-IsSame :
      (v : Option String) (s : S f go)
      → ("BootstrapKindBackupOut" == g) ≡ false
      → IsSame s (set_backup f go v s)
  unfolding set_backup
  set_backup-IsSame none s h = stays s
  set_backup-IsSame (some v) s h = ground (arith, h)

  set_print_mode-Keeps :
      (v : Option String) (s : S f go)
      → ("PrintCommand" == g) ≡ false
      → Keeps s (set_print_mode f go v s)
  unfolding set_print_mode
  set_print_mode-Keeps none s h = stays s
  set_print_mode-Keeps (some v) s h = ground (arith, h)

  set_archive-Keeps :
      (v : Option String) (s : S f go)
      → ("BootstrapKindStateOp" == g || "BootstrapKindStatePath" == g) ≡ false
      → Keeps s (set_archive f go v s)
  unfolding set_archive
  set_archive-Keeps none s h = tt
  set_archive-Keeps (some v) s h = ground (arith, h)

  set_gitops_mode-Keeps :
      (v : String) (s : S f go)
      → ("WorkloadGitopsMode" == g) ≡ false
      → Keeps s (set_gitops_mode f go v s)
  unfolding set_gitops_mode
  set_gitops_mode-Keeps v s h = ground (arith, h)

  pub store_int-IsSame :
      (field : String) (test : IntTest) (n : Option ℤ) (s : S f go)
      → (field == g) ≡ false
      → IsSame s (store_int f go field test n s)
  unfolding store_int
  store_int-IsSame field test none s h = stays s
  store_int-IsSame field test (some n) s h = ground (arith, h)

  pub store_float-IsSame :
      (field : String) (test : FloatTest) (x : Option f.F) (s : S f go)
      → (field == g) ≡ false
      → IsSame s (store_float f go field test x s)
  unfolding store_float
  store_float-IsSame field test none s h = stays s
  store_float-IsSame field test (some x) s h = ground (arith, h)

  pub reading-KeepsRead :
      (step : Step) (s : S f go) → assigns g step ≡ false → KeepsRead s (reading f go step s)
  unfolding reading
  reading-KeepsRead (turn field b) s h = ground (arith, h)
  reading-KeepsRead (put field v) s h = ground (arith, h)
  reading-KeepsRead (take field t) s h = λ v. ground (arith, h)
  reading-KeepsRead (take_both field other) s h = λ v. ground (arith, h)
  reading-KeepsRead (take_int field test) s h = λ v. store_int-IsSame field test _ s h
  reading-KeepsRead (take_float field test) s h = λ v. store_float-IsSame field test _ s h
  reading-KeepsRead take_driver s h = λ v. stays s
  reading-KeepsRead take_gitops_mode s h = λ v. set_gitops_mode-Keeps v s h
  reading-KeepsRead maybe_access s h = λ v. set_access-IsSame v s h
  reading-KeepsRead maybe_forward s h = λ v. set_forward-IsSame v s h
  reading-KeepsRead maybe_rollout s h = λ v. set_rollout-IsSame v s h
  reading-KeepsRead maybe_backup s h = λ v. set_backup-IsSame v s h
  reading-KeepsRead maybe_print_mode s h = λ v. set_print_mode-Keeps v s h
  reading-KeepsRead take_archive s h = λ v. set_archive-Keeps v s h
  reading-KeepsRead show_help s h = tt
  reading-KeepsRead show_completion s h = tt
  reading-KeepsRead refuse_removed s h = tt
