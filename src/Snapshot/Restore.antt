-- ===== src/Snapshot/Restore.antt =====
-- A configuration saved by SnapshotYAML, read by parseFlatYAMLOrJSON and laid over another one.
use yage.Prelude.{
  ℤ, zero, suc, negsuc, Bool-cases, inl, inr, ℕ, ◌^◌, ◌<◌, String, true, false, some, pos, ◌≡◌,
  refl, ◌∙◌, ap,
}
use yage.Settings.{Settings}
use yage.Settings.Itoa.{lacks-itoa}
use yage.Snapshot.Apps.{print_apps}
use yage.Snapshot.{positive_text, get, find_field, is_explicit, apply_snapshot_kv}
use yage.Snapshot.Field.{FieldKind, text, switch, positive_int, app_groups, SnapshotField}
use yage.Snapshot.Schema.{schema}
use yage.Snapshot.Overlay.{held}
use yage.Snapshot.Merge.{restored, schema-names_once, apply_snapshot_kv-snapshot_pairs}
use yage.Settings.Join.{lacks}
use yage.Snapshot.Yaml.{Json, IsJson, parse_flat_yaml_or_json, snapshot_yaml}
use yage.Snapshot.Reread.{all_keys, parse-snapshot_yaml}

schema-all_keys : all_keys schema ≡ true
schema-all_keys = refl

module _ {F : Type 0} (cfg : Settings F) where
  positive_text-lacks : (n : ℤ) → lacks b'#' (positive_text n) ≡ true
  positive_text-lacks (pos zero) = refl
  positive_text-lacks (pos (suc n)) = lacks-itoa (suc n)
  positive_text-lacks (negsuc n) = refl

  get-lacks :
      (k : FieldKind)
      → ((g : String) → lacks b'#' (cfg.texts g) ≡ true)
      → lacks b'#' (print_apps cfg.apps) ≡ true
      → lacks b'#' (get k cfg) ≡ true
  unfolding get
  get-lacks (text field) texts apps = texts field
  get-lacks (switch field) texts apps = elim (Bool-cases (cfg.flags field)) [
    | inl on ↦ rw on refl
    | inr off ↦ rw off refl
  ]
  get-lacks (positive_int field) texts apps = positive_text-lacks (cfg.ints field)
  get-lacks app_groups texts apps = apps

module _ {F : Type 0} (json : Json) (to_lower : String → String) (cfg c : Settings F) where
  -- The text of a snapshot, read and laid over a configuration that has no explicit field, restores
  -- each field of the schema: a text that is not empty, a switch and a positive int to the saved
  -- value, and the applications as their text is read. No text and no name of a template has a
  -- number sign, ints are within their 64 bits, encoding/json is as documented, and "true" and
  -- "false" are lower case.
  pub apply_snapshot_kv-snapshot_yaml :
      (key : String) (e : SnapshotField)
      → IsJson json
      → to_lower "true" ≡ "true"
      → to_lower "false" ≡ "false"
      → ((g : String) → lacks b'#' (cfg.texts g) ≡ true)
      → lacks b'#' (print_apps cfg.apps) ≡ true
      → ((g : String) (n : ℕ) → cfg.ints g ≡ pos n → n < 2 ^ 63)
      → ((name : String) → is_explicit c name ≡ false)
      → find_field schema key ≡ some e
      → let kv = parse_flat_yaml_or_json json (snapshot_yaml json schema cfg) in
        held e.kind (apply_snapshot_kv to_lower schema kv c)
        ≡ restored to_lower e.kind cfg (held e.kind c)
  apply_snapshot_kv-snapshot_yaml key e laws up down texts apps small free found =
      ap (λ kv. held e.kind (apply_snapshot_kv to_lower schema kv c))
        (parse-snapshot_yaml json laws cfg (λ k. get-lacks cfg k texts apps) schema schema-all_keys
          schema-names_once)
      ∙ apply_snapshot_kv-snapshot_pairs to_lower cfg c key e up down small free found
