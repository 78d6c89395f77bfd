-- ===== src/LogRing/History.antt =====
-- The relation between the ring and the list of everything that was appended to it.
use yage.Prelude.{
  inr, inl, Bool-cases, ℕ, zero, suc, ◌+◌, ◌-◌, ◌%◌, ◌≤◌, ◌<◌, min, ◌≡◌, refl, sym, some, List, [],
  ◌∷◌, ◌++◌, foldl, arith, length, drop, get_elem?, length-append, get_elem?-append_left,
  get_elem?-append_last, drop_step, drop_all, eqb,
}
use mathlib.Core.List.{append-nil, append_assoc}
use yage.LogRing.{Line, LogRing, empty, log_ring_cap, append_line, notify, lines, lines_from}

-- The ring holds the last lines of the history: the one of index `j` lies in slot `j % 500`.
pub record Holds (r : LogRing) (history : List Line) : Type 0 where
  pub head_eq : r.head ≡ length history % log_ring_cap
  pub size_eq : r.size ≡ min log_ring_cap (length history)
  pub slot :
      (j : ℕ)
      → j < length history
      → length history ≤ j + log_ring_cap
      → get_elem? history j ≡ some (r.buf (j % log_ring_cap))

pub Holds-empty : Holds empty []
Holds-empty = record { head_eq = refl; size_eq = refl; slot = λ j h _. absurd (omega arith) }

module _ (r : LogRing) (history : List Line) (line : Line) (held : Holds r history) where
  slot-append :
      (j : ℕ)
      → j < length history + 1
      → length history + 1 ≤ j + log_ring_cap
      → get_elem? (history ++ line ∷ []) j ≡ some ((append_line r line).buf (j % log_ring_cap))
  unfolding append_line notify
  slot-append j h k = ground (
    arith,
    get_elem?-append_left history (line ∷ []) j,
    get_elem?-append_last history line,
    held.slot j,
    held.head_eq,
  )

  pub append_line-Holds : Holds (append_line r line) (history ++ line ∷ [])
  unfolding append_line notify
  append_line-Holds = record {
    head_eq = omega (arith, length-append history (line ∷ []), held.head_eq);
    size_eq = ground (arith, length-append history (line ∷ []), held.size_eq);
    slot = λ j h k.
        slot-append j (omega (arith, length-append history (line ∷ [])))
          (omega (arith, length-append history (line ∷ [])));
  }

module _ (r : LogRing) (history : List Line) (held : Holds r history) where
  lines_from-drop :
      (n start i : ℕ)
      → n + i ≡ min log_ring_cap (length history)
      → start ≡ (length history - (n + i)) % log_ring_cap
      → lines_from n r.buf start i ≡ drop (length history - n) history
  unfolding lines_from
  lines_from-drop zero start i full from =
      let all : length history - 0 ≡ length history = omega arith in rw all (sym (drop_all history))
  lines_from-drop (suc n) start i full from =
      let j = length history - suc n in
      let place : (start + i) % log_ring_cap ≡ j % log_ring_cap = omega arith in
      let next : suc j ≡ length history - n = omega arith in
      rw (
        drop_step history j (r.buf (j % log_ring_cap)) (held.slot j (omega arith) (omega arith)),
        place,
        next,
        lines_from-drop n start (i + 1) (omega arith) (omega arith),
      )

  pub lines-drop : lines r ≡ drop (length history - log_ring_cap) history
  unfolding lines
  lines-drop = elim (Bool-cases (eqb r.size 0)) [
    | inl e ↦
        let none_yet : length history - log_ring_cap ≡ length history =
          ground (arith, held.size_eq) in
        rw (e, none_yet) (sym (drop_all history))
    | inr e ↦
        let same : length history - log_ring_cap ≡ length history - r.size =
          omega (arith, held.size_eq) in
        rw (e, same)
          (lines_from-drop r.size _ 0 (omega (arith, held.size_eq))
            (omega (arith, held.size_eq, held.head_eq)))
  ]

abbrev pub append_all : LogRing → List Line → LogRing
append_all = foldl append_line

pub Holds-append_all :
    (r : LogRing) (history news : List Line)
    → Holds r history
    → Holds (append_all r news) (history ++ news)
Holds-append_all r history [] held = rw append-nil held
Holds-append_all r history (x ∷ news) held =
    let step =
      Holds-append_all (append_line r x) (history ++ x ∷ []) news
        (append_line-Holds r history x held) in
    rw append_assoc at step
