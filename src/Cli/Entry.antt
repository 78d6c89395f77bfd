-- ===== src/Cli/Entry.antt =====
-- internal/ui/cli/render.go: the emitters of the sections, each with its flag and its field.
use yage.Prelude.{String}

pub data Entry : Type 0 where
  flag : String → String → Entry
  flag_int : String → String → Entry
  flag_int_str : String → String → Entry
  flag_float : String → String → Entry
  flag_bool : String → String → Entry
  -- a bare flag where the field is false
  flag_off : String → String → Entry
  secret : String → String → String → Entry
  -- a secret whose value is the empty text
  secret_blank : String → String → Entry
