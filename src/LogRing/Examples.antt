-- ===== src/LogRing/Examples.antt =====
-- The theorems about the log ring at concrete inputs.
use yage.Prelude.{◌≡◌, refl, [], ◌∷◌}
use yage.LogRing.{notify, append_line, is_cut, write_loop, Line, empty, lines, write}
use yage.LogRing.Refines.{lines-write_all, write_all}

abbrev first_write : Line
first_write = b'a' ∷ b'\n' ∷ b'\n' ∷ b'b' ∷ []

abbrev second_write : Line
second_write = b'c' ∷ b'\n' ∷ []

lines-write_all_example :
    lines (write_all empty (first_write ∷ second_write ∷ []))
    ≡ (b'a' ∷ []) ∷ (b'b' ∷ []) ∷ (b'c' ∷ []) ∷ []
lines-write_all_example = lines-write_all (first_write ∷ second_write ∷ [])

runs_of_lines : lines (write empty first_write).0 ≡ (b'a' ∷ []) ∷ (b'b' ∷ []) ∷ []
unfolding lines write write_loop is_cut append_line notify
runs_of_lines = refl
