-- ===== src/Dash/Moves.antt =====
-- Where the focus goes, and which text input has it.
use yage.Prelude.{
  ℕ, zero, suc, ◌+◌, ◌<◌, ◌≤◌, Bool, true, false, not, Option, none, some, eqb, if◌then◌else◌,
  length, get_elem?, get_elem?-within, ◌≡◌, refl, arith, Bool-cases, inl, inr, ap, sym, ◌∙◌,
}
use yage.Dash.{
  DashModel, is_hidden, visible_from, visible_focus_list, focus_on, jump_focus, focus_at,
  move_focus, index_of, next_position, text_input_at, set_input, foc_count,
}
use yage.Dash.Cycle.{
  IsIncreasing, index_of-position, index_of-lt, next_position-lt, next_position-back,
}
use yage.Dash.Visible.{
  get_elem?-All, visible_from-visible, visible_from-from, is_hidden-focus_on, mode_visible,
  index_of-get_elem?,
}
use mathlib.Core.Path.{subst}

module _ {R : Type 0} where
  visible_from-IsIncreasing :
      (m : DashModel R) (rounds start : ℕ) → IsIncreasing (visible_from m rounds start)
  unfolding visible_from
  visible_from-IsIncreasing m zero start = tt
  visible_from-IsIncreasing m (suc rounds) start =
      let later = visible_from-IsIncreasing m rounds (start + 1) in
      elim (Bool-cases (is_hidden m start)) [
        | inl e ↦ rw e later
        | inr e ↦ rw e (visible_from-from m rounds (start + 1), later)
      ]

  visible_from-position :
      (m : DashModel R) (rounds start x : ℕ)
      → is_hidden m x ≡ false
      → start ≤ x
      → x < start + rounds
      → (i : ℕ) × (index_of x (visible_from m rounds start) ≡ some i)
  unfolding visible_from index_of
  visible_from-position m zero start x v lo hi = absurd (omega arith)
  visible_from-position m (suc rounds) start x v lo hi = elim (Bool-cases (eqb start x)) [
    | inl same ↦
        let e : start ≡ x = ground (arith, same) in
        let visible : is_hidden m start ≡ false = subst (λ y. is_hidden m y ≡ false) (sym e) v in
        rw (visible, same) (0, refl)
    | inr other ↦
        let ne : start + 1 ≤ x = ground (arith, other) in
        let (i, found) = visible_from-position m rounds (start + 1) x v ne (omega arith) in
        elim (Bool-cases (is_hidden m start)) [
          | inl h ↦ rw h (i, found)
          | inr h ↦ rw (h, other, found) (suc i, refl)
        ]
  ]

  visible_from-focus_on :
      (fid : ℕ) (m : DashModel R) (rounds start : ℕ)
      → visible_from (focus_on fid m) rounds start ≡ visible_from m rounds start
  unfolding visible_from
  visible_from-focus_on fid m zero start = refl
  visible_from-focus_on fid m (suc rounds) start =
      rw (is_hidden-focus_on, visible_from-focus_on fid m rounds (start + 1)) refl

module _ {R : Type 0} where
  some_visible : (m : DashModel R) → 0 < length (visible_focus_list m)
  unfolding visible_focus_list
  some_visible m =
      let (i, e) =
        visible_from-position m foc_count 0 0 (mode_visible m) (omega arith) (omega arith) in
      let lt = index_of-lt 0 (visible_from m foc_count 0) i e in positive i _ lt
    where
      positive : (i n : ℕ) → i < n → 0 < n
      positive i n h = omega arith

  -- Moving goes to the field at the next position.
  move_focus-at :
      (forward : Bool) (m : DashModel R)
      → (x : ℕ) × (get_elem? (visible_focus_list m) (
            next_position forward
              (length (visible_focus_list m))
              (index_of m.focus (visible_focus_list m)))
          ≡ some x)
        × (move_focus forward m ≡ focus_on x m)
  unfolding move_focus focus_at
  move_focus-at forward m =
      let vis = visible_focus_list m in
      let at = next_position forward (length vis) (index_of m.focus vis) in
      let (x, e) =
        get_elem?-within vis at
          (next_position-lt forward (length vis) (index_of m.focus vis) (some_visible m)) in
      (x, e, ap (λ o. focus_at o m) e)

  -- After moving, the focus is on a visible field, and what is visible is as before.
  pub move_focus-visible :
      (forward : Bool) (m : DashModel R)
      → let m' = move_focus forward m in
        (is_hidden m' m'.focus ≡ false) × ((x : ℕ) → is_hidden m' x ≡ is_hidden m x)
  unfolding visible_focus_list
  move_focus-visible forward m =
      let (x, e, moved) = move_focus-at forward m in
      let seen =
        get_elem?-All (λ y. is_hidden m y ≡ false) (visible_focus_list m) _ x
          (visible_from-visible m foc_count 0) e in
      subst
        (λ (m' : DashModel R).
          (is_hidden m' m'.focus ≡ false) × ((x : ℕ) → is_hidden m' x ≡ is_hidden m x))
        (sym moved)
        (unfold focus_on in (is_hidden-focus_on x x m ∙ seen, λ y. is_hidden-focus_on x y m))

  focus-focus_on : (fid : ℕ) (m : DashModel R) → (focus_on fid m).focus ≡ fid
  unfolding focus_on
  focus-focus_on fid m = refl

  at_focus :
      (forward : Bool) (x : ℕ) (m : DashModel R) (y : ℕ)
      → let vis = visible_from (focus_on x m) foc_count 0 in
        get_elem? vis (next_position forward (length vis) (index_of (focus_on x m).focus vis))
          ≡ some y
        → get_elem? vis (next_position forward (length vis) (index_of x vis)) ≡ some y
  unfolding focus_on
  at_focus forward x m y e = e

  -- From a visible field of the dashboard, moving one way and then the other comes back to it.
  pub move_focus-back :
      (forward : Bool) (m : DashModel R)
      → is_hidden m m.focus ≡ false
      → m.focus < foc_count
      → (move_focus (not forward) (move_focus forward m)).focus ≡ m.focus
  unfolding visible_focus_list
  move_focus-back forward m visible bound =
      let vis = visible_from m foc_count 0 in
      let n = length vis in
      let (i, at) = visible_from-position m foc_count 0 m.focus visible (omega arith) bound in
      let (x, e, moved) = move_focus-at forward m in
      let (y, e', moved') = move_focus-at (not forward) (focus_on x m) in
      let there : index_of x vis ≡ some (next_position forward n (some i)) =
        index_of-position vis _ x (visible_from-IsIncreasing m foc_count 0)
          (subst (λ o. get_elem? vis (next_position forward n o) ≡ some x) at e) in
      let again : get_elem? vis (next_position (not forward) n (index_of x vis)) ≡ some y =
        subst (λ l. get_elem? l (next_position (not forward) (length l) (index_of x l)) ≡ some y)
          (visible_from-focus_on x m foc_count 0) (at_focus (not forward) x m y e') in
      let back : get_elem? vis i ≡ some y =
        subst (λ k. get_elem? vis k ≡ some y)
          (next_position-back forward n i (index_of-lt m.focus vis i at))
          (subst (λ o. get_elem? vis (next_position (not forward) n o) ≡ some y) there again) in
      let home : some y ≡ some m.focus = sym back ∙ index_of-get_elem? m.focus vis i at in
      let same : y ≡ m.focus = cc home in
      ap (λ (k : DashModel R). (move_focus (not forward) k).focus) moved
      ∙ ap (λ (k : DashModel R). k.focus) moved'
      ∙ focus-focus_on y (focus_on x m)
      ∙ same

-- The text input of a field has the focus, and no other has it.
abbrev pub is_input : ℕ → ℕ → Bool
is_input fid j = elim (text_input_at fid) [ none ↦ false | some i ↦ eqb i j ]

set_input-moves :
    (old new : Option ℕ) (inputs : ℕ → Bool) (j : ℕ)
    → inputs j ≡ (elim old [ none ↦ false | some i ↦ eqb i j ])
    → set_input new true (set_input old false inputs) j
      ≡ (elim new [ none ↦ false | some i ↦ eqb i j ])
set_input-moves none none inputs j h = h
set_input-moves none (some i) inputs j h = ground (arith, h)
set_input-moves (some k) none inputs j h = ground (arith, h)
set_input-moves (some k) (some i) inputs j h = ground (arith, h)

module _ {R : Type 0} where
  pub record IsFocused (m : DashModel R) : Type 0 where
    pub inputs_eq : (j : ℕ) → m.text_inputs j ≡ is_input m.focus j

  focus_on-IsFocused : (fid : ℕ) (m : DashModel R) → IsFocused m → IsFocused (focus_on fid m)
  unfolding focus_on
  focus_on-IsFocused fid m f = record {
    inputs_eq = λ j.
        set_input-moves (text_input_at m.focus) (text_input_at fid) m.text_inputs j (f.inputs_eq j);
  }

  -- When the one text input that has the focus is that of the field in focus, or none has it where
  -- that field is no text, this is so after moving the focus and after jumping to a field.
  pub moves-IsFocused :
      (m : DashModel R)
      → IsFocused m
      → ((forward : Bool) → IsFocused (move_focus forward m))
        × ((fid : ℕ) → IsFocused (jump_focus fid m))
  unfolding jump_focus
  moves-IsFocused m f = (
    λ forward.
        let (x, e, moved) = move_focus-at forward m in
        subst (λ (m' : DashModel R). IsFocused m') (sym moved) (focus_on-IsFocused x m f),
    λ fid. if-IsFocused (is_hidden m fid) m (focus_on fid m) f (focus_on-IsFocused fid m f),
  )
    where
      if-IsFocused :
          (b : Bool) (x y : DashModel R)
          → IsFocused x
          → IsFocused y
          → IsFocused (if b then x else y)
      if-IsFocused true x y p q = p
      if-IsFocused false x y p q = q
