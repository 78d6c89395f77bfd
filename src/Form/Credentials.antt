-- ===== src/Form/Credentials.antt =====
-- internal/ui/xapiri/shared.go: the providers that the comparison of costs skips.
use Prim.Native.Char.{code}
use yage.Prelude.{
  String, Bool, true, not, ◌&&◌, ◌||◌, List, [], ◌∷◌, eqb, ◌==◌, if◌then◌else◌, contains,
}
use yage.Settings.{Settings, set_text}
use yage.Settings.Trim.{trim_space}
use yage.Settings.Join.{◌<>◌, join}
use yage.Form.{Host}

module _ {F : Type 0} (host : Host F) (s : Settings F) where
  abbrev credential : String → String
  credential name = s.texts ("Cost.Credentials." <> name)

  unfoldable pub aws_any_credentials_available : Bool
  aws_any_credentials_available =
      if not (credential "AWSAccessKeyID" == "") && not (credential "AWSSecretAccessKey" == "")
      then true
      else if not (host.getenv "AWS_ACCESS_KEY_ID" == "") || not (host.getenv "AWS_PROFILE" == "")
      then true
      else host.aws_files

  unfoldable pub gcp_any_credentials_available : Bool
  gcp_any_credentials_available =
      if not (credential "GCPAPIKey" == "")
      then true
      else not (host.getenv "YAGE_GCP_API_KEY" == "")
        || not (host.getenv "GOOGLE_BILLING_API_KEY" == "")

  unfoldable pub checks : List (String × Bool)
  unfolding aws_any_credentials_available gcp_any_credentials_available
  checks =
      ("aws", not aws_any_credentials_available)
      ∷ ("gcp", not gcp_any_credentials_available)
      ∷ ("hetzner", credential "HetznerToken" == "")
      ∷ ("digitalocean", credential "DigitalOceanToken" == "")
      ∷ ("ibmcloud", credential "IBMCloudAPIKey" == "")
      ∷ []

-- strings.Split(s, ","), as its first part and the rest
split_comma : String → String × List String
split_comma String.[] = ("", [])
split_comma (String.◌∷◌ c s) =
    let cut = split_comma s in
    if eqb (code c) b',' then ("", cut.0 ∷ cut.1) else (String.◌∷◌ c cut.0, cut.1)

-- A set, as a list without repetition.
unfoldable pub mark : String → List String → List String
mark p set = if contains set p then set else p ∷ set

unfoldable pub unmark : String → List String → List String
unmark p [] = []
unmark p (q ∷ set) = let rest = unmark p set in if q == p then rest else q ∷ rest

unfoldable pub named : List String → List String
unfolding mark
named [] = []
named (p ∷ ps) =
    let rest = named ps in let t = trim_space p in if t == "" then rest else mark t rest

unfoldable pub parts : String → List String
unfolding split_comma
parts s = let cut = split_comma s in cut.0 ∷ cut.1

module _ {F : Type 0} (s : Settings F) where
  -- Whether the check of a provider is passed over.
  abbrev pub spared : String → Bool
  spared name =
      let provider = s.texts "InfraProvider" in
      not (provider == "") && not (s.flags "InfraProviderDefaulted") && not (name == provider)

  unfoldable pub update_skipped : List (String × Bool) → List String → List String
  unfolding mark unmark
  update_skipped [] skipped = skipped
  update_skipped ((name, missing) ∷ cs) skipped =
      update_skipped cs (
        if spared name then skipped else if missing then mark name skipped else unmark name skipped)

module _ {F : Type 0} (host : Host F) where
  unfoldable pub skipped_providers : Settings F → List String
  unfolding named parts update_skipped checks
  skipped_providers s = update_skipped s (checks host s) (named (parts (s.texts "SkipProviders")))

  unfoldable pub disable_providers_missing_credentials : Settings F → Settings F
  unfolding skipped_providers
  disable_providers_missing_credentials s =
      set_text s "SkipProviders" (join (host.visit (skipped_providers s)) ",")
