-- ===== src/LogRing/Refines.antt =====
-- Any sequence of calls of `Write`, against the list of lines that they hold.
use yage.Prelude.{◌≡◌, List, [], ◌∷◌, ◌++◌, ◌-◌, length, drop, filter, All}
use mathlib.Core.List.{append-nil, append_assoc}
use yage.LogRing.{Line, LogRing, empty, log_ring_cap, lines, write}
use yage.LogRing.History.{Holds, Holds-empty, Holds-append_all, append_all, lines-drop}
use yage.LogRing.Segments.{
  nonempty, split_lines, join_lines, HasNoNewline, join_lines-split_onto, split_onto-HasNoNewline,
  write-eq-append_all,
}

abbrev pub write_all : LogRing → List Line → LogRing
write_all r [] = r
write_all r (p ∷ ps) = write_all (write r p).0 ps

-- Every line that a sequence of writes carries, in order.
abbrev pub log_of : List Line → List Line
log_of [] = []
log_of (p ∷ ps) = filter nonempty (split_lines p) ++ log_of ps

Holds-write_all :
    (r : LogRing) (history ps : List Line)
    → Holds r history
    → Holds (write_all r ps) (history ++ log_of ps)
Holds-write_all r history [] held = rw append-nil held
Holds-write_all r history (p ∷ ps) held =
    let pieces = filter nonempty (split_lines p) in
    let first = Holds-append_all r history pieces held in
    let rest = Holds-write_all (append_all r pieces) (history ++ pieces) ps first in
    rw (write-eq-append_all, ← append_assoc) rest

-- After any sequence of writes to an empty ring, its lines are the last 500 of all the non-empty
-- lines written, oldest first.
pub lines-write_all :
    (ps : List Line)
    → lines (write_all empty ps) ≡ drop (length (log_of ps) - log_ring_cap) (log_of ps)
lines-write_all ps =
    lines-drop (write_all empty ps) (log_of ps) (Holds-write_all empty [] ps Holds-empty)

-- A write appends, in order, the non-empty pieces of its argument, and reports every byte as
-- written: the pieces hold no newline and are the argument when newlines are put between them.
pub write_pieces :
    (r : LogRing) (p : Line)
    → let pieces = split_lines p in
      (join_lines pieces ≡ p)
      × All HasNoNewline pieces
      × (write r p ≡ (append_all r (filter nonempty pieces), length p))
write_pieces r p =
    (join_lines-split_onto [] p, split_onto-HasNoNewline [] p tt, write-eq-append_all r p)
