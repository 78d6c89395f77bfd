-- ===== src/Dash/Rows/Drawn.antt =====
-- A click, against what is drawn.
use yage.Prelude.{
  ℕ, zero, suc, ◌+◌, ◌-◌, ◌<◌, String, Bool, true, false, none, List, [], ◌∷◌, ◌++◌, ◌==◌, ltb,
  if◌then◌else◌, length, get_elem?, take, ◌≡◌, refl, arith, sym, ◌∙◌,
}
use yage.Dash.Fields.FocusB.{foc_count}
use yage.Dash.{DashModel, is_hidden}
use yage.Dash.Visible.{mode_visible}
use mathlib.Core.Path.{subst}
use yage.Dash.Rows.{
  Line, badge, blank, section_at, has_header, search_row, focus_at_config_row, draw_fields,
  edit_lines, blanks, edit_screen, field_of,
}
use yage.Dash.Rows.Steps.{row_step, positive_after, draw_step, first_step}

field_of-take-blanks : (h n i : ℕ) → field_of (get_elem? (take h (blanks n)) i) ≡ none
unfolding blanks
field_of-take-blanks zero n i = refl
field_of-take-blanks (suc h) zero i = refl
field_of-take-blanks (suc h) (suc n) zero = refl
field_of-take-blanks (suc h) (suc n) (suc i) = field_of-take-blanks h n i

field_of-screen :
    (h n i : ℕ) (ls : List Line)
    → i < h
    → field_of (get_elem? (take h (ls ++ blanks n)) i) ≡ field_of (get_elem? ls i)
field_of-screen zero n i ls lt = absurd (omega arith)
field_of-screen (suc h) n zero [] lt = field_of-take-blanks (suc h) n zero
field_of-screen (suc h) n (suc i) [] lt = field_of-take-blanks (suc h) n (suc i)
field_of-screen (suc h) n zero (l ∷ ls) lt = refl
field_of-screen (suc h) n (suc i) (l ∷ ls) lt = field_of-screen h n i ls (omega arith)

module _ {R : Type 0} (m : DashModel R) where
  search_row-draw_fields :
      (rounds fid cur above : ℕ) (last : String) (k : ℕ)
      → ltb 0 cur ≡ ltb 0 above
      → search_row m rounds fid cur last (cur + k)
        ≡ field_of (get_elem? (draw_fields m rounds fid above last) k)
  unfolding search_row draw_fields
  search_row-draw_fields zero fid cur above last k same = refl
  search_row-draw_fields (suc rounds) fid cur above last k same =
      row_step (is_hidden m fid) (has_header (section_at fid) last) (ltb 0 cur) (ltb 0 above) fid
        cur above k (section_at fid) last (λ c l. search_row m rounds (fid + 1) c l (cur + k))
        (λ a l. draw_fields m rounds (fid + 1) a l) same
        (λ n j c a l e p q.
          let row : c + j ≡ cur + k = omega (arith, e, p) in
          subst
            (λ r.
              search_row m rounds (fid + 1) c l r
              ≡ field_of (get_elem? (draw_fields m rounds (fid + 1) a l) j))
            row
            (search_row-draw_fields rounds (fid + 1) c a l j
              (positive_after cur above n c a same p q)))

  draw_fields-above :
      (rounds fid a b : ℕ) (last : String)
      → ltb 0 a ≡ ltb 0 b
      → draw_fields m rounds fid a last ≡ draw_fields m rounds fid b last
  unfolding draw_fields
  draw_fields-above zero fid a b last same = refl
  draw_fields-above (suc rounds) fid a b last same =
      draw_step (is_hidden m fid) (has_header (section_at fid) last) (ltb 0 a) (ltb 0 b) fid a b
        (section_at fid) last (λ c l. draw_fields m rounds (fid + 1) c l) same same
        (draw_fields-above rounds (fid + 1))

  named_lines : draw_fields m foc_count 0 2 "" ≡ blank ∷ draw_fields m foc_count 0 0 ""
  unfolding draw_fields
  named_lines =
      first_step (is_hidden m 0) (λ c l. draw_fields m 88 1 c l) (mode_visible m)
        (draw_fields-above 88 1 5 2 "Mode" refl)

  field_of-unnamed :
      (row : ℕ)
      → focus_at_config_row m row ≡ field_of (get_elem? (draw_fields m foc_count 0 0 "") row)
  unfolding focus_at_config_row
  field_of-unnamed row =
      let z : 0 + row ≡ row = omega arith in
      subst
        (λ r.
          search_row m foc_count 0 0 "" r
          ≡ field_of (get_elem? (draw_fields m foc_count 0 0 "") row))
        z (search_row-draw_fields foc_count 0 0 0 "" row refl)

  field_of-lines :
      (named : Bool) (name : String) (row : ℕ)
      → focus_at_config_row m row
        ≡ field_of (
            get_elem?
              (if named
                then draw_fields m foc_count 0 0 ""
                else badge name ∷ blank ∷ draw_fields m foc_count 0 2 "")
              (if named then row else row + 3))
  unfolding focus_at_config_row
  field_of-lines true name row = field_of-unnamed row
  field_of-lines false name row =
      let z : suc (suc (suc row)) ≡ row + 3 = omega arith in
      subst
        (λ ls. focus_at_config_row m row ≡ field_of (get_elem? (badge name ∷ blank ∷ ls) (row + 3)))
        (sym named_lines)
        (subst
          (λ r.
            focus_at_config_row m row
            ≡ field_of (get_elem? (badge name ∷ blank ∷ blank ∷ draw_fields m foc_count 0 0 "") r))
          z (field_of-unnamed row))

  -- Where the line is drawn that a click on a row is taken for.
  abbrev pub drawn_row : ℕ → ℕ
  drawn_row row = if m.config_name == "" then row else row + 3

  -- A click on a row finds the field that is drawn on that row where the configuration has no name,
  -- and the field that is drawn three rows further down where it has one, on every screen that is
  -- high enough to show that line.
  pub focus_at_config_row-edit_screen :
      (row h : ℕ)
      → drawn_row row < h
      → focus_at_config_row m row ≡ field_of (get_elem? (edit_screen m h) (drawn_row row))
  unfolding edit_screen edit_lines
  focus_at_config_row-edit_screen row h lt =
      field_of-lines (m.config_name == "") m.config_name row
      ∙ sym (field_of-screen h (h - length (edit_lines m)) (drawn_row row) (edit_lines m) lt)
