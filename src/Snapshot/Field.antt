-- ===== src/Snapshot/Field.antt =====
-- internal/config/snapshot.go: SnapshotField. Its Get and Set are given by the kind of the field.
use yage.Prelude.{String}

pub data FieldKind : Type 0 where
  text : String → FieldKind
  switch : String → FieldKind
  positive_int : String → FieldKind
  app_groups : FieldKind

pub record SnapshotField : Type 0 where
  pub env_name : String
  pub explicit_name : String
  pub kind : FieldKind

abbrev pub field : String → FieldKind → SnapshotField
field env_name kind = record { env_name = env_name; explicit_name = ""; kind = kind }

abbrev pub guarded : String → String → FieldKind → SnapshotField
guarded env_name explicit_name kind = record {
  env_name = env_name;
  explicit_name = explicit_name;
  kind = kind;
}
