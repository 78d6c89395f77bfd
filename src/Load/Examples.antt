-- ===== src/Load/Examples.antt =====
-- Load in a concrete environment, which holds what a snapshot keeps.
use yage.Prelude.{none, some, contains, ◌==◌, if◌then◌else◌, ◌≡◌, refl}
use yage.Float.Thousandths.{Amount, thousandths}
use yage.Settings.{Settings, set_text}
use yage.Settings.Sample.{strconv, blank}
use yage.Snapshot.{get, find_field}
use yage.Snapshot.Field.{SnapshotField, field, text}
use yage.Snapshot.Schema.{schema}
use yage.Load.{Environment, evaluate, run_all, zero_config}
use yage.Load.Syntax.{Expression, lit, getenv, set_str}
use yage.Load.Table.{statements}
use yage.Load.Laws.{last_write, writes_text}
use yage.Load.Back.{load-get}

abbrev shell_env : Environment
shell_env key =
    if key == "TEMPLATE_VMID"
    then some "9000"
    else if key == "PROXMOX_URL"
    then some "https://pve"
    else none

abbrev no_keyring : Environment
no_keyring key = none

abbrev pve : Settings Amount
pve = set_text blank "Providers.Proxmox.URL" "https://pve"

abbrev url_field : SnapshotField
url_field = field "PROXMOX_URL" (text "Providers.Proxmox.URL")

url_found : find_field schema "PROXMOX_URL" ≡ some url_field
unfolding find_field
url_found = refl

load-get_example :
    (run_all thousandths strconv shell_env no_keyring statements
        (zero_config thousandths strconv shell_env no_keyring)).texts
      "Providers.Proxmox.URL"
    ≡ "https://pve"
unfolding contains get
load-get_example =
    load-get thousandths strconv shell_env no_keyring "PROXMOX_URL" url_field pve url_found refl
      refl refl

-- The template has two variables; the first is not set here.
abbrev template : Expression
template = getenv "PROXMOX_TEMPLATE_ID" (getenv "TEMPLATE_VMID" (lit "104"))

template_last :
    last_write (writes_text "Providers.Proxmox.TemplateID") statements
    ≡ some (set_str "Providers.Proxmox.TemplateID" template)
unfolding last_write
template_last = refl

template_is : evaluate thousandths strconv shell_env no_keyring template blank ≡ "9000"
unfolding evaluate
template_is = refl
