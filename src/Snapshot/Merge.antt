-- ===== src/Snapshot/Merge.antt =====
-- What a snapshot does to the configuration that it is laid over.
use yage.Prelude.{
  ℕ, zero, suc, ◌^◌, ◌<◌, String, Bool, true, false, not, ◌&&◌, Option, none, some, List, [], ◌∷◌,
  ℤ, pos, negsuc, ◌==◌, eq_iff, if◌then◌else◌, Map, lookup, ◌≡◌, refl, sym, ◌∙◌, ap, arith,
  Bool-cases, inl, inr,
}
use mathlib.Core.Path.{subst}
use yage.Text.{codes, atoi}
use yage.Config.{AppGroup}
use yage.Settings.{Settings}
use yage.Settings.Trim.{trim_space}
use yage.Settings.Itoa.{itoa_filled, atoi-itoa, trim_space-itoa}
use yage.Snapshot.{
  get, find_field, is_explicit, snapshot_pairs, apply_snapshot_kv, positive_text, switch_value,
}
use yage.Snapshot.Apps.{print_apps, read_apps}
use yage.Snapshot.Field.{FieldKind, text, switch, positive_int, app_groups, SnapshotField}
use yage.Snapshot.Schema.{schema}
use yage.Snapshot.Overlay.{
  Held, held, received, is_alone, overlaid, IsDistinct, overlay_all-held, found_name, or_else,
  positive_or,
}

abbrev all_alone : List SnapshotField → List SnapshotField → Bool
all_alone fields [] = true
all_alone fields (e ∷ es) = let rest = all_alone fields es in is_alone fields e && rest

abbrev pub no_name : String → List SnapshotField → Bool
no_name key [] = true
no_name key (f ∷ fields) = let rest = no_name key fields in not (f.env_name == key) && rest

abbrev pub names_once : List SnapshotField → Bool
names_once [] = true
names_once (f ∷ fields) = let rest = names_once fields in no_name f.env_name fields && rest

schema-all_alone : all_alone schema schema ≡ true
schema-all_alone = refl

pub schema-names_once : names_once schema ≡ true
schema-names_once = refl

find_field-all_alone :
    (whole fields : List SnapshotField) (key : String) (e : SnapshotField)
    → find_field fields key ≡ some e
    → all_alone whole fields ≡ true
    → is_alone whole e ≡ true
unfolding find_field
find_field-all_alone whole [] key e h alone = absurd (cc h)
find_field-all_alone whole (f ∷ fields) key e h alone =
    elim (found_name (find_field fields key) (f.env_name == key) f e h) [
      | inl later ↦ find_field-all_alone whole fields key e later (ground (arith, alone))
      | inr here ↦ rw (← here.1) (ground (arith, alone))
    ]

module _ {F : Type 0} (to_lower : String → String) where
  -- A field of the schema has after the overlay the map's value for its name, as its Set reads it,
  -- unless that is missing or empty or the field is explicit: then it is unchanged.
  pub apply_snapshot_kv-held :
      (c : Settings F) (kv : Map String) (key : String) (e : SnapshotField)
      → IsDistinct kv
      → find_field schema key ≡ some e
      → held e.kind (apply_snapshot_kv to_lower schema kv c)
        ≡ overlaid to_lower c e (lookup key kv) (held e.kind c)
  unfolding apply_snapshot_kv
  apply_snapshot_kv-held c kv key e distinct found =
      overlay_all-held to_lower c schema e key found
        (find_field-all_alone schema schema key e found schema-all_alone) kv c distinct

  -- The overlay does not depend on the order in which the map's pairs come.
  pub apply_snapshot_kv-order :
      (c : Settings F) (kv other : Map String) (key : String) (e : SnapshotField)
      → IsDistinct kv
      → IsDistinct other
      → ((k : String) → lookup k kv ≡ lookup k other)
      → find_field schema key ≡ some e
      → held e.kind (apply_snapshot_kv to_lower schema kv c)
        ≡ held e.kind (apply_snapshot_kv to_lower schema other c)
  apply_snapshot_kv-order c kv other key e distinct distinct' same found =
      apply_snapshot_kv-held c kv key e distinct found
      ∙ ap (λ o. overlaid to_lower c e o (held e.kind c)) (same key)
      ∙ sym (apply_snapshot_kv-held c other key e distinct' found)

module _ {F : Type 0} (cfg : Settings F) where
  pub pairs_none :
      (key : String) (fields : List SnapshotField)
      → no_name key fields ≡ true
      → lookup key (snapshot_pairs fields cfg) ≡ none
  unfolding snapshot_pairs lookup
  pairs_none key [] h = refl
  pairs_none key (f ∷ fields) h =
      let here : (f.env_name == key) ≡ false = ground (arith, h) in
      let rest = pairs_none key fields (ground (arith, h)) in
      elim (Bool-cases (get f.kind cfg == "")) [
        | inl empty ↦ rw empty rest
        | inr filled ↦ rw filled (rw here rest)
      ]

  pairs-IsDistinct :
      (fields : List SnapshotField)
      → names_once fields ≡ true
      → IsDistinct (snapshot_pairs fields cfg)
  unfolding snapshot_pairs
  pairs-IsDistinct [] h = tt
  pairs-IsDistinct (f ∷ fields) h =
      let rest = pairs-IsDistinct fields (ground (arith, h)) in
      elim (Bool-cases (get f.kind cfg == "")) [
        | inl empty ↦ rw empty rest
        | inr filled ↦ rw filled (pairs_none f.env_name fields (ground (arith, h)), rest)
      ]

  abbrev saved : FieldKind → Option String
  saved k = if get k cfg == "" then none else some (get k cfg)

  no_name_found :
      (fields : List SnapshotField) (key : String) (e : SnapshotField)
      → no_name key fields ≡ true
      → find_field fields key ≡ some e
      → ⊥
  unfolding find_field
  no_name_found [] key e h found = cc found
  no_name_found (f ∷ fields) key e h found =
      elim (found_name (find_field fields key) (f.env_name == key) f e found) [
        | inl later ↦ no_name_found fields key e (ground (arith, h)) later
        | inr here ↦ ground (arith, h, here.0)
      ]

  pairs_lookup :
      (fields : List SnapshotField) (key : String) (e : SnapshotField)
      → names_once fields ≡ true
      → find_field fields key ≡ some e
      → lookup key (snapshot_pairs fields cfg) ≡ saved e.kind
  unfolding snapshot_pairs lookup find_field
  pairs_lookup [] key e h found = absurd (cc found)
  pairs_lookup (f ∷ fields) key e h found =
      elim (found_name (find_field fields key) (f.env_name == key) f e found) [
        | inl later ↦
            let apart : (f.env_name == key) ≡ false = elim (Bool-cases (f.env_name == key)) [
              | inl same ↦ absurd (
                  no_name_found fields key e
                    (subst (λ k. no_name k fields ≡ true) ((eq_iff f.env_name key).0 same)
                      (ground (arith, h)))
                    later)
              | inr differ ↦ differ
            ] in
            let rest = pairs_lookup fields key e (ground (arith, h)) later in
            elim (Bool-cases (get f.kind cfg == "")) [
              | inl empty ↦ rw empty rest
              | inr filled ↦ rw filled (rw apart rest)
            ]
        | inr here ↦
            let only : no_name key fields ≡ true =
              subst (λ k. no_name k fields ≡ true) ((eq_iff f.env_name key).0 here.0)
                (ground (arith, h)) in
            let rest = pairs_none key fields only in
            rw (← here.1) (elim (Bool-cases (get f.kind cfg == "")) [
              | inl empty ↦ rw empty rest
              | inr filled ↦ rw filled (rw here.0 refl)
            ])
      ]

abbrev pub positive_kept : ℤ → ℤ → ℤ
positive_kept (pos (suc n)) old = pos (suc n)
positive_kept _ old = old

abbrev unlocked : (to_lower : String → String) (k : FieldKind) → Option String → Held k → Held k
unlocked to_lower k none old = old
unlocked to_lower k (some v) old = if v == "" then old else received to_lower k v old

-- What a saved field is restored to over a field that holds `old`.
abbrev pub restored :
    {F : Type 0} (to_lower : String → String) (k : FieldKind) → Settings F → Held k → Held k
restored to_lower (text field) cfg old = if cfg.texts field == "" then old else cfg.texts field
restored to_lower (switch field) cfg old = cfg.flags field
restored to_lower (positive_int field) cfg old = positive_kept (cfg.ints field) old
restored to_lower app_groups cfg old = read_apps to_lower (print_apps cfg.apps) old

module _ {F : Type 0} (to_lower : String → String) (cfg c : Settings F) where
  overlaid_free :
      (e : SnapshotField) (o : Option String) (old : Held e.kind)
      → is_explicit c e.explicit_name ≡ false
      → overlaid to_lower c e o old ≡ unlocked to_lower e.kind o old
  overlaid_free e none old free = refl
  overlaid_free e (some v) old free = elim (Bool-cases (v == "")) [
    | inl empty ↦ rw empty refl
    | inr filled ↦ elim (Bool-cases (e.explicit_name == "")) [
      | inl plain ↦ rw (filled, plain) refl
      | inr named ↦ rw (filled, named, free) refl
    ]
  ]

  unlocked-saved :
      (k : FieldKind) (old : Held k)
      → unlocked to_lower k (saved cfg k) old
        ≡ (if get k cfg == "" then old else received to_lower k (get k cfg) old)
  unlocked-saved k old = elim (Bool-cases (get k cfg == "")) [
    | inl empty ↦ rw empty refl
    | inr filled ↦ rw filled (rw filled refl)
  ]

  switch_back :
      (b old : Bool)
      → to_lower "true" ≡ "true"
      → to_lower "false" ≡ "false"
      → or_else (switch_value (to_lower (trim_space (if b then "true" else "false")))) old ≡ b
  unfolding trim_space
  switch_back true old up down = rw up refl
  switch_back false old up down = rw down refl

  positive_back :
      (n old : ℤ)
      → ((k : ℕ) → n ≡ pos k → k < 2 ^ 63)
      → (if positive_text n == ""
          then old
          else positive_or (atoi (codes (trim_space (positive_text n)))) old)
        ≡ positive_kept n old
  positive_back (pos zero) old small = refl
  positive_back (negsuc n) old small = refl
  positive_back (pos (suc n)) old small = rw (itoa_filled (suc n)) (
      ap (λ t. positive_or (atoi (codes t)) old) (trim_space-itoa (suc n))
      ∙ ap (λ o. positive_or o old) (atoi-itoa (suc n) (small (suc n) refl)))

  read_apps_empty :
      (v : String) (old : List AppGroup) → (v == "") ≡ true → read_apps to_lower v old ≡ old
  unfolding read_apps
  read_apps_empty v old h = rw h refl

  received-get :
      (k : FieldKind) (old : Held k)
      → to_lower "true" ≡ "true"
      → to_lower "false" ≡ "false"
      → ((g : String) (n : ℕ) → cfg.ints g ≡ pos n → n < 2 ^ 63)
      → (if get k cfg == "" then old else received to_lower k (get k cfg) old)
        ≡ restored to_lower k cfg old
  unfolding get
  received-get (text field) old up down small = refl
  received-get (switch field) old up down small = elim (Bool-cases (cfg.flags field)) [
    | inl on ↦ rw on (switch_back true old up down)
    | inr off ↦ rw off (switch_back false old up down)
  ]
  received-get (positive_int field) old up down small =
      positive_back (cfg.ints field) old (small field)
  received-get app_groups old up down small = elim (Bool-cases (print_apps cfg.apps == "")) [
    | inl empty ↦ rw empty (sym (read_apps_empty (print_apps cfg.apps) old empty))
    | inr filled ↦ rw filled refl
  ]

  -- A snapshot laid over a configuration that has no explicit field restores each field of the
  -- schema: a text that is not empty, a switch and a positive int to the saved value, and the
  -- applications as their text is read; ints are within their 64 bits.
  pub apply_snapshot_kv-snapshot_pairs :
      (key : String) (e : SnapshotField)
      → to_lower "true" ≡ "true"
      → to_lower "false" ≡ "false"
      → ((g : String) (n : ℕ) → cfg.ints g ≡ pos n → n < 2 ^ 63)
      → ((name : String) → is_explicit c name ≡ false)
      → find_field schema key ≡ some e
      → held e.kind (apply_snapshot_kv to_lower schema (snapshot_pairs schema cfg) c)
        ≡ restored to_lower e.kind cfg (held e.kind c)
  apply_snapshot_kv-snapshot_pairs key e up down small free found =
      apply_snapshot_kv-held to_lower c (snapshot_pairs schema cfg) key e
        (pairs-IsDistinct cfg schema schema-names_once) found
      ∙ ap (λ o. overlaid to_lower c e o (held e.kind c))
          (pairs_lookup cfg schema key e schema-names_once found)
      ∙ overlaid_free e (saved cfg e.kind) (held e.kind c) (free e.explicit_name)
      ∙ unlocked-saved e.kind (held e.kind c)
      ∙ received-get e.kind (held e.kind c) up down small
