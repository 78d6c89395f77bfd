-- ===== src/Load/Back.antt =====
-- The variables that Load reads, against the names under which Snapshot keeps the fields.
use yage.Prelude.{
  String, Bool, true, false, ◌&&◌, ◌||◌, Option, some, List, [], ◌∷◌, ◌==◌, eq_iff, contains,
  if◌then◌else◌, ◌≡◌, refl, ◌∙◌, ap, arith, inl, inr,
}
use yage.Float.{Float}
use yage.Settings.{Settings, Strconv}
use yage.Load.{non_empty_or, bool_or, Environment, evaluate, decide, run, run_all, zero_config}
use yage.Load.Syntax.{Expression, getenv, getenv_keep, Test, env_bool, Statement, set_str, set_bool}
use yage.Load.Table.{statements}
use yage.Load.Laws.{writes_text, writes_flag, last_write, run_all-last_text, run_all-last_flag}
use yage.Snapshot.{get, find_field}
use yage.Snapshot.Field.{FieldKind, text, switch, positive_int, app_groups, SnapshotField}
use yage.Snapshot.Schema.{schema}
use yage.Snapshot.Overlay.{held, found_name}

-- The names of the workload's shape, which Load does not read, and that of the configuration's name,
-- which it fills again if it is empty.
abbrev pub other_names : List String
other_names =
    "YAGE_CONFIG_NAME" ∷ "XAPIRI_WORKLOAD_ENVIRONMENT" ∷ "XAPIRI_WORKLOAD_RESILIENCE"
    ∷ "XAPIRI_WORKLOAD_DB_GB" ∷ "XAPIRI_WORKLOAD_EGRESS_GB_MONTH" ∷ "XAPIRI_WORKLOAD_APPS"
    ∷ "XAPIRI_WORKLOAD_HAS_QUEUE" ∷ "XAPIRI_WORKLOAD_HAS_OBJ_STORE" ∷ "XAPIRI_WORKLOAD_HAS_CACHE"
    ∷ []

abbrev reads_key : String → Expression → Bool
reads_key key (getenv k e) = k == key
reads_key key (getenv_keep k e) = k == key
reads_key key _ = false

abbrev tests_key : String → Test → Bool
tests_key key (env_bool k b) = k == key
tests_key key _ = false

abbrev sets_text : String → String → Option Statement → Bool
sets_text key field (some (set_str g e)) = g == field && reads_key key e
sets_text key field _ = false

abbrev sets_flag : String → String → Option Statement → Bool
sets_flag key field (some (set_bool g t)) = g == field && tests_key key t
sets_flag key field _ = false

-- Whether the last statement that writes the field reads the variable of that name first.
unfoldable comes_from : String → FieldKind → Bool
unfolding last_write
comes_from key (text field) = sets_text key field (last_write (writes_text field) statements)
comes_from key (switch field) = sets_flag key field (last_write (writes_flag field) statements)
comes_from key _ = false

unfoldable all_come : List SnapshotField → Bool
unfolding comes_from contains
all_come [] = true
all_come (e ∷ es) =
    let rest = all_come es in
    (contains other_names e.env_name || comes_from e.env_name e.kind) && rest

schema-all_come : all_come schema ≡ true
unfolding all_come
schema-all_come = refl

come_split :
    (other comes rest : Bool)
    → ((other || comes) && rest) ≡ true
    → (other ≡ false → comes ≡ true) × (rest ≡ true)
come_split true comes rest h = (λ k. absurd (cc k), h)
come_split false true rest h = (λ _. refl, h)
come_split false false rest h = absurd (cc h)

all_come-found :
    (fields : List SnapshotField) (key : String) (e : SnapshotField)
    → find_field fields key ≡ some e
    → contains other_names key ≡ false
    → all_come fields ≡ true
    → (e.env_name ≡ key) × (comes_from e.env_name e.kind ≡ true)
unfolding find_field all_come
all_come-found [] key e h plain come = absurd (cc h)
all_come-found (f ∷ fields) key e h plain come =
    let both =
      come_split (contains other_names f.env_name) (comes_from f.env_name f.kind) (all_come fields)
        come in
    elim (found_name (find_field fields key) (f.env_name == key) f e h) [
      | inl later ↦ all_come-found fields key e later plain both.1
      | inr here ↦
          let name : f.env_name ≡ key = (eq_iff f.env_name key).0 here.0 in
          let other : contains other_names f.env_name ≡ false =
            ap (contains other_names) name ∙ plain in
          rw (← here.1) (name, both.0 other)
    ]

module _ (f : Float) (go : Strconv f.F) (env keyring : Environment) where
  text_comes :
      (key field v : String) (o : Option Statement) (d : Settings f.F)
      → sets_text key field o ≡ true
      → env key ≡ some v
      → (v == "") ≡ false
      → (s : Statement) × (o ≡ some s)
        × ((c : Settings f.F) → (run f go env keyring s c).texts field ≡ v)
  unfolding run evaluate non_empty_or
  text_comes key field v (some (set_str g (getenv k e))) d h here solid =
      let same : (g == field) ≡ true = ground (arith, h) in
      let name : k ≡ key = (eq_iff k key).0 (ground (arith, h)) in
      let held_here : env k ≡ some v = ap env name ∙ here in
      (
        set_str g (getenv k e),
        refl,
        λ c. rw (same, held_here) (ap (λ b. if b then evaluate f go env keyring e c else v) solid),
      )
  text_comes key field v (some (set_str g (getenv_keep k e))) d h here solid =
      let same : (g == field) ≡ true = ground (arith, h) in
      let name : k ≡ key = (eq_iff k key).0 (ground (arith, h)) in
      let held_here : env k ≡ some v = ap env name ∙ here in
      (set_str g (getenv_keep k e), refl, λ c. rw (same, held_here) refl)
  text_comes key field v (some (set_str g _)) d h here solid = absurd (ground (arith, h))
  text_comes key field v _ d h here solid = absurd (cc h)

  flag_comes :
      (key field : String) (b : Bool) (o : Option Statement)
      → sets_flag key field o ≡ true
      → env key ≡ some (if b then "true" else "false")
      → (s : Statement) × (o ≡ some s)
        × ((c : Settings f.F) → (run f go env keyring s c).flags field ≡ b)
  unfolding run decide bool_or
  flag_comes key field b (some (set_bool g (env_bool k default))) h here =
      let same : (g == field) ≡ true = ground (arith, h) in
      let name : k ≡ key = (eq_iff k key).0 (ground (arith, h)) in
      let held_here : env k ≡ some (if b then "true" else "false") = ap env name ∙ here in
      (set_bool g (env_bool k default), refl, λ c. rw (same, held_here) (reads b))
    where
      reads : (v : Bool) → bool_or (some (if v then "true" else "false")) default ≡ v
      reads true = refl
      reads false = refl
  flag_comes key field b (some (set_bool g _)) h here = absurd (ground (arith, h))
  flag_comes key field b _ h here = absurd (cc h)

  kind_comes :
      (key : String) (k : FieldKind) (cfg c : Settings f.F)
      → comes_from key k ≡ true
      → env key ≡ some (get k cfg)
      → (get k cfg == "") ≡ false
      → held k (run_all f go env keyring statements c) ≡ held k cfg
  unfolding comes_from get
  kind_comes key (text field) cfg c comes here solid =
      let (s, last, gives) =
        text_comes key field (cfg.texts field) (last_write (writes_text field) statements) c comes
          here solid in
      run_all-last_text f go env keyring statements field s (cfg.texts field) c last gives
  kind_comes key (switch field) cfg c comes here solid =
      let (s, last, gives) =
        flag_comes key field (cfg.flags field) (last_write (writes_flag field) statements) comes
          here in
      run_all-last_flag f go env keyring statements field s (cfg.flags field) c last gives
  kind_comes key (positive_int field) cfg c comes here solid = absurd (cc comes)
  kind_comes key app_groups cfg c comes here solid = absurd (cc comes)

  -- A field of the snapshot's schema, but for the configuration's name and the workload's shape, is
  -- read by Load under the name that the snapshot keeps it under: if that variable holds what the
  -- snapshot would keep for `cfg`, and that is not empty, Load leaves in the field what `cfg` has,
  -- whatever the other variables and the keyring hold.
  pub load-get :
      (key : String) (e : SnapshotField) (cfg : Settings f.F)
      → find_field schema key ≡ some e
      → contains other_names key ≡ false
      → env key ≡ some (get e.kind cfg)
      → (get e.kind cfg == "") ≡ false
      → held e.kind (run_all f go env keyring statements (zero_config f go env keyring))
        ≡ held e.kind cfg
  load-get key e cfg found plain here solid =
      let (name, comes) = all_come-found schema key e found plain schema-all_come in
      kind_comes e.env_name e.kind cfg (zero_config f go env keyring) comes (ap env name ∙ here)
        solid
