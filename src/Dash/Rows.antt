-- ===== src/Dash/Rows.antt =====
-- The rows of the provision tab: which field a click is for (focusAtConfigRow of
-- internal/ui/xapiri/dashboard_focus.go), and where the fields are drawn (renderCfgEditScreen of
-- internal/ui/xapiri/tab_provision.go). A drawn line is what it shows.
pub mod Steps
pub mod Drawn
use yage.Prelude.{
  ℕ, zero, suc, ◌+◌, ◌-◌, ◌≤◌, ◌<◌, String, Bool, true, false, not, ◌&&◌, Option, none, some, List,
  [], ◌∷◌, ◌++◌, ◌==◌, eqb, ltb, if◌then◌else◌, length, get_elem?, take, ◌≡◌, refl, arith,
  Bool-cases, inl, inr, ap, sym, ◌∙◌,
}
use yage.Dash.Fields.FocusB.{foc_count}
use yage.Dash.Fields.Table.{FieldMeta, dash_fields}
use yage.Dash.{DashModel, is_hidden}
use mathlib.Core.Path.{subst}

pub data Line : Type 0 where
  badge : String → Line
  blank : Line
  header : String → Line
  drawn : ℕ → Line

abbrev pub section_of : Option FieldMeta → String
section_of none = ""
section_of (some meta) = meta.section

abbrev pub section_at : ℕ → String
section_at fid = section_of (get_elem? dash_fields fid)

-- Whether a field of a section has its header before it, after a field of the last one.
abbrev pub has_header : (section last : String) → Bool
has_header section last = not (section == "") && not (section == last)

module _ {R : Type 0} (m : DashModel R) where
  -- The loop of focusAtConfigRow at field `fid` and row `cur`, for `rounds` fields.
  pub search_row : (rounds fid cur : ℕ) (last : String) (row : ℕ) → Option ℕ
  search_row zero fid cur last row = none
  search_row (suc rounds) fid cur last row =
      let hidden = is_hidden m fid in
      let section = section_at fid in
      let starts = has_header section last in
      let gap = starts && ltb 0 cur in
      let head = if gap then cur + 1 else cur in
      let line = if starts then head + 1 else head in
      let rest =
        search_row rounds (fid + 1) (if hidden then cur else line + 1)
          (if hidden then last else (if starts then section else last)) row in
      if hidden
      then rest
      else if gap && eqb cur row
      then none
      else if starts && eqb head row
      then none
      else if eqb line row
      then some fid
      else rest

  unfoldable pub focus_at_config_row : ℕ → Option ℕ
  unfolding search_row
  focus_at_config_row row = search_row foc_count 0 0 "" row

  -- The loop of renderCfgEditScreen, behind `above` lines; it gives the lines that it adds.
  pub draw_fields : (rounds fid above : ℕ) (last : String) → List Line
  draw_fields zero fid above last = []
  draw_fields (suc rounds) fid above last =
      let hidden = is_hidden m fid in
      let section = section_at fid in
      let starts = has_header section last in
      let gap = starts && ltb 0 above in
      let before =
        (if gap then blank ∷ [] else []) ++ (if starts then header section ∷ [] else []) in
      let rest =
        draw_fields rounds (fid + 1) (if hidden then above else above + length before + 1)
          (if hidden then last else (if starts then section else last)) in
      if hidden then rest else before ++ drawn fid ∷ rest

  pub edit_lines : List Line
  unfolding draw_fields
  edit_lines =
      if m.config_name == ""
      then draw_fields foc_count 0 0 ""
      else badge m.config_name ∷ blank ∷ draw_fields foc_count 0 2 ""

pub blanks : ℕ → List Line
blanks zero = []
blanks (suc n) = blank ∷ blanks n

-- The lines of a screen of `h` lines.
unfoldable pub edit_screen : {R : Type 0} → DashModel R → (h : ℕ) → List Line
unfolding edit_lines blanks
edit_screen m h = take h (edit_lines m ++ blanks (h - length (edit_lines m)))

-- The field that a line shows, if it shows one.
abbrev pub field_of : Option Line → Option ℕ
field_of (some (drawn fid)) = some fid
field_of _ = none
