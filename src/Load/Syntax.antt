-- ===== src/Load/Syntax.antt =====
-- internal/config/config.go: the statements of Load. An expression is a text that the environment
-- and the fields set before give.
use yage.Prelude.{ℕ, String, Bool}

pub data Expression : Type 0 where
  lit : String → Expression
  of_field : String → Expression
  plus : Expression → Expression → Expression
  getenv : String → Expression → Expression
  getenv_keep : String → Expression → Expression
  os_getenv : String → Expression
  first_non_empty : Expression → Expression → Expression
  trim lower upper trim_slash : Expression → Expression

pub data Test : Type 0 where
  env_bool : String → Bool → Test
  -- envBoolLoose of the first, which is false by default, or whether the second is not empty
  loose_or_set : String → String → Test
  is_set : String → Test

pub data Statement : Type 0 where
  set_str : String → Expression → Statement
  set_bool : String → Test → Statement
  -- envFloat, with the default as a fraction
  set_number : String → String → ℕ → ℕ → Statement
  -- an int of envFloat
  set_whole : String → String → ℕ → Statement
  -- an assignment to a text field that is empty
  fill : String → Expression → Statement
  from_keyring : String → String → Statement
  when_unset : String → String → Statement
  csi_drivers : String → Statement
