-- ===== src/Form/Examples.antt =====
-- The theorems about the inputs of the dashboard at a concrete configuration, and tests.
use Prim.Native.Char.{code}
use yage.Prelude.{
  Bool, true, false, ap, ◌&&◌, ◌||◌, String, true, false, some, List, [], ◌∷◌, pos, eqb,
  if◌then◌else◌, contains, add64, div64, ◌≡◌, refl,
}
use yage.Float.Thousandths.{Amount, thousandths}
use yage.Settings.{Settings, set_text}
use yage.Settings.Trim.{trim_space}
use yage.Settings.Sample.{strconv, blank}
use yage.Snapshot.Apps.{int_text}
use yage.Dash.Fields.Options.{si_resil}
use yage.Dash.Fields.Inputs.{ti_proxmox_cp_count, ti_proxmox_worker_count}
use yage.Form.{Form, Host, selected}
use yage.Form.Shape.{AppBucket, format_app_buckets, parse_app_buckets, workers, fork_on_prem}
use yage.Form.Open.{State, new_dash_model}
use yage.Form.Build.{build_snapshot_cfg, shape_of, replicas_of}
use yage.Form.Flush.{flush_to_cfg}
use yage.Form.Frame.{Same}
use yage.Form.Issuing.{build_snapshot_cfg-issuing_ca}
use yage.Form.Seeded.{is_printable, is_plain, IsInput, derived}
use yage.Form.Reopened.{build_snapshot_cfg-new_dash_model}
use yage.Form.Flushed.{flush_to_cfg-build}
use yage.Form.Credentials.{skipped_providers, checks, named, parts}
use yage.Form.Skips.{decided, skipped_providers-contains}
use yage.Form.Replicas.{build_snapshot_cfg-replicas}

-- A text input: a newline or a tab becomes a space, other control characters are dropped.
abbrev one_line : String → String
one_line String.[] = ""
one_line (String.◌∷◌ c s) =
    let rest = one_line s in
    if is_printable c
    then String.◌∷◌ c rest
    else if eqb (code c) b'\n' || eqb (code c) b'\t'
    then String.◌∷◌ " " rest
    else rest

one_line_plain : (t : String) → is_plain t ≡ true → one_line t ≡ t
unfolding is_plain
one_line_plain String.[] h = refl
one_line_plain (String.◌∷◌ c s) h =
    let now : is_printable c ≡ true = and_left (is_printable c) (is_plain s) h in
    let later : is_plain s ≡ true = and_right (is_printable c) (is_plain s) h in
    rw now (ap (String.◌∷◌ c) (one_line_plain s later))
  where
    and_left : (a b : Bool) → (a && b) ≡ true → a ≡ true
    and_left true b k = refl
    and_left false b k = k

    and_right : (a b : Bool) → (a && b) ≡ true → b ≡ true
    and_right true b k = k
    and_right false b k = absurd (cc k)

abbrev host : Host Amount
host = record {
  getenv = λ name. "";
  aws_files = false;
  to_taller = some;
  from_taller = some;
  format_fixed = λ x decimals. "";
  visit = λ names. names;
  input_value = one_line;
}

abbrev home : Settings Amount
home =
    set_text (set_text (set_text blank "Gateway" "10.0.0.1") "WorkloadKubernetesVersion" "v1.34.2")
      "KindClusterName" "lab"

abbrev two_buckets : List AppBucket
two_buckets =
    record { count = pos 6; template = "medium" }
    ∷ record { count = pos 2; template = "heavy" }
    ∷ []

abbrev state : State Amount
state = record {
  fork = fork_on_prem;
  env = "prod";
  resil = "ha";
  workload = record {
    apps = two_buckets;
    dbgb = pos 40;
    egress_gb_mo = pos 0;
    has_queue = false;
    has_obj_store = false;
    has_cache = false;
    sizes = λ size. pos 0;
  };
  headroom_pct = some 200;
}

abbrev opened_home : Form
opened_home = new_dash_model thousandths host home state ("proxmox" ∷ [])

host-IsInput : IsInput host
host-IsInput = record { plain_kept = one_line_plain }

build_snapshot_cfg-new_dash_model_example :
    let snap = build_snapshot_cfg thousandths strconv host opened_home home in
    (snap.texts "KindClusterName" ≡ "lab") × (snap.flags "KindClusterName" ≡ false)
unfolding derived trim_space is_plain
build_snapshot_cfg-new_dash_model_example =
    build_snapshot_cfg-new_dash_model thousandths strconv host home state ("proxmox" ∷ [])
      "KindClusterName" host-IsInput refl refl refl (λ h. refl)

flush_to_cfg-build_example :
    Same "WorkerMachineCount"
      (build_snapshot_cfg thousandths strconv host opened_home home)
      (flush_to_cfg thousandths strconv host opened_home home)
    × ((flush_to_cfg thousandths strconv host opened_home home).apps
        ≡ (build_snapshot_cfg thousandths strconv host opened_home home).apps)
flush_to_cfg-build_example =
    flush_to_cfg-build thousandths strconv host opened_home home "WorkerMachineCount" refl refl

-- The inputs of the opened dashboard, with 5 and 7 typed for the replicas.
abbrev typed : Form
typed = record opened_home {
  texts = λ i.
      if eqb i ti_proxmox_cp_count
      then "5"
      else if eqb i ti_proxmox_worker_count
      then "7"
      else opened_home.texts i;
}

build_snapshot_cfg-replicas_example :
    let snap = build_snapshot_cfg thousandths strconv host typed home in
    (snap.texts "ControlPlaneMachineCount" ≡ replicas_of (selected typed si_resil))
    × (snap.texts "WorkerMachineCount" ≡ int_text (workers (shape_of typed strconv.to_lower).apps))
build_snapshot_cfg-replicas_example =
    build_snapshot_cfg-replicas thousandths strconv host typed home

typed_resilience : replicas_of (selected typed si_resil) ≡ "3"
unfolding new_dash_model yage.Form.Open.select_value
typed_resilience = refl

eight_apps : workers two_buckets ≡ pos 2
unfolding workers add64 div64
eight_apps = refl

buckets_printed : format_app_buckets two_buckets ≡ "6 medium 2 heavy"
unfolding format_app_buckets yage.Settings.Itoa.itoa
buckets_printed = refl

buckets_read : parse_app_buckets (λ t. t) "6xmedium,2 heavy 1 huge" ≡ two_buckets
unfolding parse_app_buckets yage.Text.atoi
buckets_read = refl

skipped_providers-contains_example :
    contains (skipped_providers host home) "aws"
    ≡ decided home "aws" (checks host home) (contains (named (parts "")) "aws")
skipped_providers-contains_example = skipped_providers-contains home "aws" host

-- A provider that the user listed is not skipped once it has a token.
abbrev listed : Settings Amount
listed = set_text (set_text home "SkipProviders" "hetzner, gcp") "Cost.Credentials.HetznerToken" "t"

hetzner_dropped :
    (contains (skipped_providers host listed) "hetzner" ≡ false)
    × (contains (skipped_providers host listed) "gcp" ≡ true)
unfolding skipped_providers contains trim_space
hetzner_dropped = (refl, refl)

-- A certificate of two lines comes back as one line.
abbrev with_ca : Settings Amount
with_ca = set_text (set_text home "IssuingCARootCert" "BEGIN\nEND") "IssuingCARootKey" "KEY"

abbrev built_ca : Settings Amount
built_ca =
    build_snapshot_cfg thousandths strconv host
      (new_dash_model thousandths host with_ca state ("proxmox" ∷ [])) with_ca

two_lines_joined :
    (built_ca.texts "IssuingCARootCert" ≡ "BEGIN END") × (built_ca.texts "IssuingCARootKey" ≡ "KEY")
unfolding trim_space
two_lines_joined =
    build_snapshot_cfg-issuing_ca thousandths strconv host with_ca state ("proxmox" ∷ [])
