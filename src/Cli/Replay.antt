-- ===== src/Cli/Replay.antt =====
-- internal/ui/cli: which flag of Parse reads what an emitter of RenderCommand prints. The functions
-- here are tests over the two tables.
use yage.Prelude.{
  String, Bool, true, false, not, ◌&&◌, Option, none, some, List, [], ◌∷◌, ◌++◌, ◌==◌,
  if◌then◌else◌, ◌≡◌, refl,
}
use yage.Cli.Steps.{Step, turn, take, take_int, take_float, Case}
use yage.Cli.Flags.{cases}
use yage.Cli.Parse.{find_case}
use yage.Cli.Parse.Assigns.{some_assigns}
use yage.Cli.Entry.{
  Entry, flag, flag_int, flag_int_str, flag_float, flag_bool, flag_off, secret, secret_blank,
}
use yage.Cli.Render.{name_of}
use yage.Cli.Render.Sections.{
  shared_entries, provider_entries, proxmox_entries, aws_entries, azure_entries, gcp_entries,
  hetzner_entries, digitalocean_entries, linode_entries, oci_entries, ibmcloud_entries,
  openstack_entries, vsphere_entries,
}
use yage.Cli.Words.{every}

abbrev pub found_steps : Option (List Step) → List Step
found_steps none = []
found_steps (some steps) = steps

abbrev pub steps_of : List Case → Entry → List Step
steps_of table e = found_steps (find_case table (name_of e))

abbrev pub all_turn : List Step → Bool
all_turn [] = true
all_turn (turn g b ∷ steps) = all_turn steps
all_turn _ = false

-- The value goes to this text field, and all else only turns switches.
abbrev pub takes_text : String → List Step → Bool
takes_text field (turn g b ∷ steps) = takes_text field steps
takes_text field (take g t ∷ steps) = g == field && all_turn steps
takes_text field _ = false

abbrev pub takes_int : String → List Step → Bool
takes_int field (take_int g test ∷ []) = g == field
takes_int field _ = false

abbrev pub takes_float : String → List Step → Bool
takes_float field (take_float g test ∷ []) = g == field
takes_float field _ = false

abbrev pub turns : String → Bool → List Step → Bool
turns field true (turn g true ∷ []) = g == field
turns field false (turn g false ∷ []) = g == field
turns field _ _ = false

-- Whether the case reads what the emitter prints back into the emitter's field.
abbrev pub reads_back : Entry → List Step → Bool
reads_back (flag name field) steps = takes_text field steps
reads_back (flag_int name field) steps = takes_int field steps
reads_back (flag_int_str name field) steps = takes_text field steps
reads_back (flag_float name field) steps = takes_float field steps
reads_back (flag_bool name field) steps = turns field true steps
reads_back (flag_off name field) steps = turns field false steps
reads_back (secret name field env_var) steps = takes_text field steps
reads_back (secret_blank name env_var) steps = true

abbrev pub found_reads_back : Entry → Option (List Step) → Bool
found_reads_back e none = false
found_reads_back e (some steps) = reads_back e steps

abbrev pub is_known : List Case → Entry → Bool
is_known table (secret_blank name env_var) = true
is_known table e = found_reads_back e (find_case table (name_of e))

abbrev pub field_of : Entry → String
field_of (flag name field) = field
field_of (flag_int name field) = field
field_of (flag_int_str name field) = field
field_of (flag_float name field) = field
field_of (flag_bool name field) = field
field_of (flag_off name field) = field
field_of (secret name field env_var) = field
field_of (secret_blank name env_var) = ""

-- Whether no case of the emitters assigns the field of another.
abbrev pub apart : List Case → List Entry → Bool
apart table [] = true
apart table (e ∷ es) =
    let rest = apart table es in
    every
      (λ (d : Entry).
        not (some_assigns (field_of e) (steps_of table d))
        && not (some_assigns (field_of d) (steps_of table e)))
      es
    && rest

-- The sections that are read back: all but those of aws and hetzner.
abbrev pub IsReadBack : List Entry → Type 0
IsReadBack es =
    (every (is_known cases) (shared_entries ++ es) ≡ true)
    × (apart cases (shared_entries ++ es) ≡ true)

choose :
    (P : List Entry → Type 0) (b : Bool) (xs ys : List Entry)
    → (b ≡ true → P xs)
    → (b ≡ false → P ys)
    → P (if b then xs else ys)
choose P true xs ys h k = h refl
choose P false xs ys h k = k refl

pub provider_entries-IsReadBack :
    (provider : String)
    → (provider == "aws") ≡ false
    → (provider == "hetzner") ≡ false
    → IsReadBack (provider_entries provider)
unfolding find_case
provider_entries-IsReadBack provider not_aws not_hetzner =
    choose IsReadBack (provider == "proxmox") proxmox_entries _ (λ _. (refl, refl))
      (λ _.
        choose IsReadBack (provider == "aws") aws_entries _ (λ h. absurd (cc (h, not_aws)))
          (λ _.
            choose IsReadBack (provider == "azure") azure_entries _ (λ _. (refl, refl))
              (λ _.
                choose IsReadBack (provider == "gcp") gcp_entries _ (λ _. (refl, refl))
                  (λ _.
                    choose IsReadBack (provider == "hetzner") hetzner_entries _
                      (λ h. absurd (cc (h, not_hetzner)))
                      (λ _.
                        choose IsReadBack (provider == "digitalocean") digitalocean_entries _
                          (λ _. (refl, refl))
                          (λ _.
                            choose IsReadBack (provider == "linode") linode_entries _
                              (λ _. (refl, refl))
                              (λ _.
                                choose IsReadBack (provider == "oci") oci_entries _
                                  (λ _. (refl, refl))
                                  (λ _.
                                    choose IsReadBack (provider == "ibmcloud") ibmcloud_entries _
                                      (λ _. (refl, refl))
                                      (λ _.
                                        choose IsReadBack (provider == "openstack")
                                          openstack_entries _ (λ _. (refl, refl))
                                          (λ _.
                                            choose IsReadBack (provider == "vsphere")
                                              vsphere_entries _ (λ _. (refl, refl))
                                              (λ _. (refl, refl))))))))))))
