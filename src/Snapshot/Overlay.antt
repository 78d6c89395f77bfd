-- ===== src/Snapshot/Overlay.antt =====
-- What a map of snapshot values leaves in each field.
use yage.Prelude.{
  zero, suc, String, Bool, true, false, not, ◌&&◌, ◌||◌, Option, none, some, List, [], ◌∷◌, ℤ, pos,
  negsuc, ◌==◌, eq_iff, eq_refl, if◌then◌else◌, Map, lookup, ◌≡◌, refl, sym, ◌∙◌, ap, arith,
  Bool-cases, inl, inr, ◌⊎◌,
}
use mathlib.Core.Path.{subst}
use yage.Text.{codes, atoi}
use yage.Config.{AppGroup}
use yage.Settings.{Settings}
use yage.Settings.Trim.{trim_space}
use yage.Snapshot.{
  set_switch, set_positive, switch_value, set, find_field, found_or, is_explicit, overlay,
  overlay_all,
}
use yage.Snapshot.Apps.{read_apps}
use yage.Snapshot.Field.{FieldKind, text, switch, positive_int, app_groups, SnapshotField}

-- What a field of the kind holds.
abbrev pub Held : FieldKind → Type 0
Held (text field) = String
Held (switch field) = Bool
Held (positive_int field) = ℤ
Held app_groups = List AppGroup

abbrev pub held : {F : Type 0} (k : FieldKind) → Settings F → Held k
held (text field) c = c.texts field
held (switch field) c = c.flags field
held (positive_int field) c = c.ints field
held app_groups c = c.apps

abbrev pub or_else : Option Bool → Bool → Bool
or_else none old = old
or_else (some b) old = b

abbrev pub positive_or : Option ℤ → ℤ → ℤ
positive_or (some (pos (suc n))) old = pos (suc n)
positive_or _ old = old

-- Whether two kinds are of one field of the configuration.
abbrev pub clash : FieldKind → FieldKind → Bool
clash (text f) (text g) = f == g
clash (switch f) (switch g) = f == g
clash (positive_int f) (positive_int g) = f == g
clash app_groups app_groups = true
clash _ _ = false

module _ (to_lower : String → String) where
  -- What a text leaves in a field that holds `old`.
  abbrev pub received : (k : FieldKind) → String → Held k → Held k
  received (text field) v old = v
  received (switch field) v old = or_else (switch_value (to_lower (trim_space v))) old
  received (positive_int field) v old = positive_or (atoi (codes (trim_space v))) old
  received app_groups v old = read_apps to_lower v old

  module _ {F : Type 0} where
    set_switch-held :
        (field : String) (o : Option Bool) (c : Settings F)
        → (set_switch field o c).flags field ≡ or_else o (c.flags field)
    set_switch-held field none c = refl
    set_switch-held field (some b) c = rw (eq_refl field) refl

    set_positive-held :
        (field : String) (o : Option ℤ) (c : Settings F)
        → (set_positive field o c).ints field ≡ positive_or o (c.ints field)
    set_positive-held field none c = refl
    set_positive-held field (some (pos zero)) c = refl
    set_positive-held field (some (pos (suc n))) c = rw (eq_refl field) refl
    set_positive-held field (some (negsuc n)) c = refl

    set-held :
        (k : FieldKind) (v : String) (c : Settings F)
        → held k (set to_lower k v c) ≡ received k v (held k c)
    unfolding set
    set-held (text field) v c = rw (eq_refl field) refl
    set-held (switch field) v c = set_switch-held field (switch_value (to_lower (trim_space v))) c
    set-held (positive_int field) v c = set_positive-held field (atoi (codes (trim_space v))) c
    set-held app_groups v c = refl

    switch_other :
        (f : String) (o : Option Bool) (k : FieldKind) (c : Settings F)
        → clash (switch f) k ≡ false
        → held k (set_switch f o c) ≡ held k c
    switch_other f none k c h = refl
    switch_other f (some b) (text g) c h = refl
    switch_other f (some b) (switch g) c h = ap (λ x. if x then b else c.flags g) h
    switch_other f (some b) (positive_int g) c h = refl
    switch_other f (some b) app_groups c h = refl

    positive_other :
        (f : String) (o : Option ℤ) (k : FieldKind) (c : Settings F)
        → clash (positive_int f) k ≡ false
        → held k (set_positive f o c) ≡ held k c
    positive_other f none k c h = refl
    positive_other f (some (pos zero)) k c h = refl
    positive_other f (some (negsuc n)) k c h = refl
    positive_other f (some (pos (suc n))) (text g) c h = refl
    positive_other f (some (pos (suc n))) (switch g) c h = refl
    positive_other f (some (pos (suc n))) (positive_int g) c h =
        ap (λ x. if x then pos (suc n) else c.ints g) h
    positive_other f (some (pos (suc n))) app_groups c h = refl

    set-other :
        (j k : FieldKind) (v : String) (c : Settings F)
        → clash j k ≡ false
        → held k (set to_lower j v c) ≡ held k c
    unfolding set
    set-other (text f) (text g) v c h = ap (λ b. if b then v else c.texts g) h
    set-other (text f) (switch g) v c h = refl
    set-other (text f) (positive_int g) v c h = refl
    set-other (text f) app_groups v c h = refl
    set-other (switch f) k v c h = switch_other f (switch_value (to_lower (trim_space v))) k c h
    set-other (positive_int f) k v c h = positive_other f (atoi (codes (trim_space v))) k c h
    set-other app_groups (text g) v c h = refl
    set-other app_groups (switch g) v c h = refl
    set-other app_groups (positive_int g) v c h = refl
    set-other app_groups app_groups v c h = absurd (cc h)

-- Whether no other field of the schema is of the same field of the configuration.
abbrev pub is_alone : List SnapshotField → SnapshotField → Bool
is_alone [] e = true
is_alone (d ∷ fields) e =
    let rest = is_alone fields e in (d.env_name == e.env_name || not (clash d.kind e.kind)) && rest

-- The value is the field's where the map has one that is not empty and the field is not explicit.
abbrev pub overlaid :
    {F : Type 0} (to_lower : String → String) (start : Settings F) (e : SnapshotField)
    → Option String
    → Held e.kind
    → Held e.kind
overlaid to_lower start e none old = old
overlaid to_lower start e (some v) old =
    if v == ""
    then old
    else if not (e.explicit_name == "") && is_explicit start e.explicit_name
    then old
    else received to_lower e.kind v old

-- No key comes twice.
abbrev pub IsDistinct : {V : Type 0} → Map V → Type 0
IsDistinct [] = Unit
IsDistinct ((key, v) ∷ kv) = (lookup key kv ≡ none) × IsDistinct kv

pub found_name :
    (found : Option SnapshotField) (b : Bool) (f d : SnapshotField)
    → found_or found b f ≡ some d
    → (found ≡ some d) ⊎ ((b ≡ true) × (f ≡ d))
found_name (some g) b f d h = inl h
found_name none true f d h = inr (refl, cc h)
found_name none false f d h = absurd (cc h)

pub find_field-env_name :
    (fields : List SnapshotField) (key : String) (d : SnapshotField)
    → find_field fields key ≡ some d
    → d.env_name ≡ key
unfolding find_field
find_field-env_name [] key d h = absurd (cc h)
find_field-env_name (f ∷ fields) key d h =
    elim (found_name (find_field fields key) (f.env_name == key) f d h) [
      | inl later ↦ find_field-env_name fields key d later
      | inr here ↦ rw (← here.1) ((eq_iff f.env_name key).0 here.0)
    ]

find_field-is_alone :
    (fields : List SnapshotField) (key : String) (d e : SnapshotField)
    → find_field fields key ≡ some d
    → is_alone fields e ≡ true
    → (d.env_name == e.env_name || not (clash d.kind e.kind)) ≡ true
unfolding find_field
find_field-is_alone [] key d e h alone = absurd (cc h)
find_field-is_alone (f ∷ fields) key d e h alone =
    elim (found_name (find_field fields key) (f.env_name == key) f d h) [
      | inl later ↦ find_field-is_alone fields key d e later (ground (arith, alone))
      | inr here ↦ rw (← here.1) (ground (arith, alone))
    ]

module _ {F : Type 0} (to_lower : String → String) (start : Settings F) where
  overlay-held :
      (e : SnapshotField) (v : String) (c : Settings F)
      → held e.kind (overlay to_lower start (some e) v c)
        ≡ overlaid to_lower start e (some v) (held e.kind c)
  unfolding overlay
  overlay-held e v c = elim (Bool-cases (v == "")) [
    | inl empty ↦ rw empty refl
    | inr filled ↦
        elim (Bool-cases (not (e.explicit_name == "") && is_explicit start e.explicit_name)) [
          | inl locked ↦ rw (filled, locked) refl
          | inr free ↦ rw (filled, free) (set-held to_lower e.kind v c)
        ]
  ]

  overlay-other :
      (d e : SnapshotField) (v : String) (c : Settings F)
      → clash d.kind e.kind ≡ false
      → held e.kind (overlay to_lower start (some d) v c) ≡ held e.kind c
  unfolding overlay
  overlay-other d e v c h = elim (Bool-cases (v == "")) [
    | inl empty ↦ rw empty refl
    | inr filled ↦
        elim (Bool-cases (not (d.explicit_name == "") && is_explicit start d.explicit_name)) [
          | inl locked ↦ rw (filled, locked) refl
          | inr free ↦ rw (filled, free) (set-other to_lower d.kind e.kind v c h)
        ]
  ]

  module _ (fields : List SnapshotField) (e : SnapshotField) (key : String)
      (found : find_field fields key ≡ some e) (alone : is_alone fields e ≡ true) where
    overlay_found-other :
        (other : Option SnapshotField) (k v : String) (c : Settings F)
        → find_field fields k ≡ other
        → (k == key) ≡ false
        → held e.kind (overlay to_lower start other v c) ≡ held e.kind c
    unfolding overlay
    overlay_found-other none k v c at apart = refl
    overlay_found-other (some d) k v c at apart =
        let named = find_field-env_name fields k d at in
        let own = find_field-env_name fields key e found in
        let tested = find_field-is_alone fields k d e at alone in
        let differ : (d.env_name == e.env_name) ≡ false = rw (named, own) apart in
        overlay-other d e v c (ground (arith, tested, differ))

    pub overlay_all-held :
        (kv : Map String) (c : Settings F)
        → IsDistinct kv
        → held e.kind (overlay_all to_lower start fields kv c)
          ≡ overlaid to_lower start e (lookup key kv) (held e.kind c)
    unfolding overlay_all lookup
    overlay_all-held [] c distinct = refl
    overlay_all-held ((k, v) ∷ kv) c distinct =
        let c' = overlay to_lower start (find_field fields k) v c in
        elim (Bool-cases (k == key)) [
          | inl same ↦
              let at : k ≡ key = (eq_iff k key).0 same in
              let none_left : lookup key kv ≡ none =
                subst (λ x. lookup x kv ≡ none) at distinct.0 in
              let here : find_field fields k ≡ some e = rw at found in
              overlay_all-held kv c' distinct.1
              ∙ ap (λ o. overlaid to_lower start e o (held e.kind c')) none_left
              ∙ ap (λ o. held e.kind (overlay to_lower start o v c)) here
              ∙ overlay-held e v c
              ∙ ap
                  (λ b.
                    overlaid to_lower start e (if b then some v else lookup key kv) (held e.kind c))
                  (sym same)
          | inr apart ↦
              overlay_all-held kv c' distinct.1
              ∙ ap (overlaid to_lower start e (lookup key kv))
                  (overlay_found-other (find_field fields k) k v c refl apart)
              ∙ ap
                  (λ b.
                    overlaid to_lower start e (if b then some v else lookup key kv) (held e.kind c))
                  (sym apart)
        ]
