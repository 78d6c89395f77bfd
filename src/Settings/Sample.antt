-- ===== src/Settings/Sample.antt =====
-- Concrete functions in the place of Go's packages, on floats that count thousandths, and settings
-- for the tests.
use yage.Prelude.{
  ℕ, zero, suc, String, true, false, Option, none, some, [], pos, ◌==◌, if◌then◌else◌, ◌≡◌, refl,
  ◌∙◌, ap,
}
use yage.Text.{codes, digits_value, is_digit}
use yage.Float.{IsLe}
use yage.Float.Thousandths.{Amount, thousandths}
use yage.Settings.{Settings, Strconv, set_text, set_flag, set_int, set_float}
use yage.Settings.Itoa.{itoa, itoa_filled, digits_value-itoa}

abbrev print_amount : Amount → String
print_amount none = "+Inf"
print_amount (some n) = itoa n

abbrev number_or_inf : Option ℕ → String → Option Amount
number_or_inf (some n) v = some (some n)
number_or_inf none v = if v == "+Inf" then some none else none

abbrev pub strconv : Strconv Amount
strconv = record {
  to_lower = λ s. s;
  to_upper = λ s. s;
  parse_float = λ v. if v == "" then none else number_or_inf (digits_value 0 (codes v)) v;
  format_float = print_amount;
}

pub parse_empty : strconv.parse_float "" ≡ none
parse_empty = refl

pub parse-format :
    (x : Amount)
    → IsLe thousandths x x
    → thousandths.le x (thousandths.lit 0 1) ≡ false
    → strconv.parse_float (strconv.format_float x) ≡ some x
unfolding digits_value is_digit
parse-format none number above = refl
parse-format (some zero) number above = absurd (cc above)
parse-format (some (suc n)) number above =
    ap
      (λ b.
        if b then none else number_or_inf (digits_value 0 (codes (itoa (suc n)))) (itoa (suc n)))
      (itoa_filled (suc n))
    ∙ ap (λ o. number_or_inf o (itoa (suc n))) (digits_value-itoa (suc n))

abbrev pub blank : Settings Amount
blank = record {
  texts = λ g. "";
  flags = λ g. false;
  ints = λ g. pos 0;
  floats = λ g. some zero;
  drivers = [];
  apps = [];
}

abbrev pub lab : Settings Amount
lab =
    set_float
      (set_int
        (set_flag
          (set_text
            (set_text (set_text blank "InfraProvider" "proxmox") "Providers.Proxmox.URL"
              "https://pve it's.lab:8006")
            "Providers.Proxmox.AdminToken" "s3cret")
          "Pivot.Enabled" true)
        "PostgresMemoryMiBOverride" (pos 512))
      "HardwareWatts" (some 120000)
