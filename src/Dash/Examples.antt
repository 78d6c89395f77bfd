-- ===== src/Dash/Examples.antt =====
-- The theorems about the dashboard at concrete inputs: on-prem with Proxmox, in a configuration with
-- a name, and the focus on the text input of the kind cluster's name.
use yage.Prelude.{
  ℕ, Bool, true, false, some, none, [], ◌∷◌, eqb, if◌then◌else◌, get_elem?, ◌≡◌, refl, arith,
}
use yage.Dash.{DashModel, is_hidden, move_focus, jump_focus}
use yage.Dash.Fields.Options.{si_mode}
use yage.Dash.Fields.FocusA.{foc_kind_name, foc_mode}
use yage.Dash.Moves.{IsFocused, is_input, move_focus-visible, move_focus-back, moves-IsFocused}
use yage.Dash.Rows.{focus_at_config_row, edit_screen, field_of}
use yage.Dash.Rows.Drawn.{focus_at_config_row-edit_screen}

abbrev on_prem : DashModel ℕ
on_prem = record {
  selects = λ i.
      if eqb i si_mode
      then record { options = "cloud" ∷ "on-prem" ∷ []; cur = 1 }
      else record { options = "auto" ∷ "proxmox" ∷ []; cur = 1 };
  toggles = λ _. false;
  text_inputs = is_input foc_kind_name;
  focus = foc_kind_name;
  cost_rows = 12 ∷ [];
  config_name = "lab";
}

on_prem-IsFocused : IsFocused on_prem
on_prem-IsFocused = record { inputs_eq = λ _. refl }

kind_name_visible : is_hidden on_prem foc_kind_name ≡ false
unfolding is_hidden
kind_name_visible = refl

move_focus-visible_example :
    (is_hidden (move_focus false on_prem) (move_focus false on_prem).focus ≡ false)
    × ((x : ℕ) → is_hidden (move_focus false on_prem) x ≡ is_hidden on_prem x)
move_focus-visible_example = move_focus-visible false on_prem

move_focus-back_example : (move_focus false (move_focus true on_prem)).focus ≡ foc_kind_name
move_focus-back_example = move_focus-back true on_prem kind_name_visible (omega arith)

moves-IsFocused_example :
    ((forward : Bool) → IsFocused (move_focus forward on_prem))
    × ((fid : ℕ) → IsFocused (jump_focus fid on_prem))
moves-IsFocused_example = moves-IsFocused on_prem on_prem-IsFocused

focus_at_config_row-edit_screen_example :
    focus_at_config_row on_prem 1 ≡ field_of (get_elem? (edit_screen on_prem 24) 4)
focus_at_config_row-edit_screen_example = focus_at_config_row-edit_screen on_prem 1 24 (omega arith)

-- A click on row 1, where the screen has a blank line, is taken for the mode, which is drawn on row 4.
click_on_blank :
    (focus_at_config_row on_prem 1 ≡ some foc_mode)
    × (field_of (get_elem? (edit_screen on_prem 24) 1) ≡ none)
unfolding focus_at_config_row edit_screen is_hidden
click_on_blank = (refl, refl)
