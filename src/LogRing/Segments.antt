-- ===== src/LogRing/Segments.antt =====
-- What `Write` appends: the non-empty pieces of its argument between newlines.
use yage.Prelude.{
  drop_step, get_elem?-within, drop_all, ◌∙◌, get_elem?-drop, take_step, length-drop, length-take,
  All-append, ℕ, zero, suc, ◌+◌, ◌-◌, ◌≤◌, ◌<◌, ◌≡◌, ◌≢◌, refl, sym, Bool, true, false, List, [],
  ◌∷◌, ◌++◌, arith, length, drop, get_elem?, filter, All, eqb, ltb, if◌then◌else◌, inl, inr,
  Bool-cases,
}
use mathlib.Core.List.{append-nil, append_assoc}
use yage.LogRing.{some, Line, LogRing, append_line, slice, write_loop, write, is_cut}
use yage.LogRing.History.{append_all}
use native.Mathlib.Numerals.{add-one}
use native.Mathlib.Nat.{le_refl}

abbrev pub nonempty : Line → Bool
nonempty [] = false
nonempty (_ ∷ _) = true

-- The pieces between newlines, the first of them behind `cur`.
abbrev pub split_onto : Line → Line → List Line
split_onto cur [] = cur ∷ []
split_onto cur (c ∷ rest) =
    if eqb c b'\n' then cur ∷ split_onto [] rest else split_onto (cur ++ c ∷ []) rest

abbrev pub split_lines : Line → List Line
split_lines = split_onto []

abbrev pub join_lines : List Line → Line
join_lines [] = []
join_lines (l ∷ []) = l
join_lines (l ∷ m ∷ ls) = l ++ b'\n' ∷ join_lines (m ∷ ls)

abbrev pub HasNoNewline : Line → Type 0
HasNoNewline = All (λ c. c ≢ b'\n')

split_onto_cons : (cur p : Line) → (l : Line) × (ls : List Line) × (split_onto cur p ≡ l ∷ ls)
split_onto_cons cur [] = (cur, [], refl)
split_onto_cons cur (c ∷ rest) = elim (Bool-cases (eqb c b'\n')) [
  | inl e ↦ (cur, split_onto [] rest, rw e)
  | inr e ↦ rw e (split_onto_cons (cur ++ c ∷ []) rest)
]

pub join_lines-split_onto : (cur p : Line) → join_lines (split_onto cur p) ≡ cur ++ p
join_lines-split_onto cur [] = sym (append-nil cur)
join_lines-split_onto cur (c ∷ rest) = elim (Bool-cases (eqb c b'\n')) [
  | inl e ↦
      let (l, ls, q) = split_onto_cons [] rest in
      let ih = join_lines-split_onto [] rest in rw (e, q) (ground (arith, rw q at ih))
  | inr e ↦ rw e (join_lines-split_onto (cur ++ c ∷ []) rest ∙ append_assoc cur (c ∷ []) rest)
]

pub split_onto-HasNoNewline :
    (cur p : Line) → HasNoNewline cur → All HasNoNewline (split_onto cur p)
split_onto-HasNoNewline cur [] h = (h, tt)
split_onto-HasNoNewline cur (c ∷ rest) h = elim (Bool-cases (eqb c b'\n')) [
  | inl e ↦ rw e (h, split_onto-HasNoNewline [] rest tt)
  | inr e ↦ rw e (
      split_onto-HasNoNewline (cur ++ c ∷ []) rest (All-append _ cur (c ∷ []) h (ground arith, tt)))
]

module _ (p : Line) where
  slice_step :
      (start i : ℕ) (c : ℕ)
      → start ≤ i
      → get_elem? p i ≡ some c
      → slice p start (i + 1) ≡ slice p start i ++ c ∷ []
  slice_step start i c h e =
      let size : i + 1 - start ≡ suc (i - start) = omega arith in
      let place : start + (i - start) ≡ i = omega arith in
      rw size (take_step (drop start p) (i - start) c (rw (get_elem?-drop, place) e))

  slice_empty : (i : ℕ) → slice p i i ≡ []
  slice_empty i = let e : i - i ≡ 0 = omega arith in rw e

  nonempty-slice : (start i : ℕ) → i ≤ length p → nonempty (slice p start i) ≡ ltb start i
  nonempty-slice start i h =
      ground (arith, length-take (i - start) (drop start p), length-drop start p)

  -- The pieces that are still to come at index `i`, the one under way from `start`.
  abbrev to_come : ℕ → ℕ → List Line
  to_come start i = filter nonempty (split_onto (slice p start i) (drop i p))

  append_all-piece :
      (start i : ℕ) (r : LogRing) (rest : List Line)
      → i ≤ length p
      → append_all
          (if ltb start i then append_line r (slice p start i) else r)
          (filter nonempty rest)
        ≡ append_all r (filter nonempty (slice p start i ∷ rest))
  append_all-piece start i r rest le =
      rw (nonempty-slice start i le)
        (elim (Bool-cases (ltb start i)) [ inl e ↦ rw e | inr e ↦ rw e ])

  is_cut-end : is_cut p (length p) ≡ true
  unfolding is_cut
  is_cut-end = ground arith

  is_cut-char : (i c : ℕ) → i < length p → get_elem? p i ≡ some c → is_cut p i ≡ eqb c b'\n'
  unfolding is_cut
  is_cut-char i c h e = ground arith

  write_loop-eq-append_all :
      (rounds start i : ℕ) (r : LogRing)
      → start ≤ i
      → rounds + i ≡ length p
      → write_loop (suc rounds) p start i r ≡ append_all r (to_come start i)
  unfolding write_loop
  write_loop-eq-append_all zero start i r h e =
      let last : i ≡ length p = omega arith in
      let cut : is_cut p i ≡ true = rw last is_cut-end in
      let over : drop i p ≡ [] = rw last (drop_all p) in
      rw (cut, over) (append_all-piece start i r [] (omega arith))
  write_loop-eq-append_all (suc rounds) start i r h e =
      let (c, here) = get_elem?-within p i (omega arith) in
      let cut = is_cut-char i c (omega arith) here in
      let ahead : drop i p ≡ c ∷ drop (i + 1) p = rw add-one (drop_step p i c here) in
      elim (Bool-cases (eqb c b'\n')) [
        | inl q ↦
            let next = if ltb start i then append_line r (slice p start i) else r in
            let rest =
              write_loop-eq-append_all rounds (i + 1) (i + 1) next (le_refl _) (omega arith) in
            rw (cut ∙ q, ahead, q)
              (rest
                ∙ rw (slice_empty (i + 1))
                    (append_all-piece start i r (split_onto [] (drop (i + 1) p)) (omega arith)))
        | inr q ↦
            let rest =
              write_loop-eq-append_all rounds start (i + 1) r (omega arith) (omega arith) in
            rw (cut ∙ q, ahead, q) (rest ∙ rw (slice_step start i c h here))
      ]

-- `Write` appends, in order, the non-empty pieces of its argument between newlines.
pub write-eq-append_all :
    (r : LogRing) (p : Line)
    → write r p ≡ (append_all r (filter nonempty (split_lines p)), length p)
unfolding write
write-eq-append_all r p =
    let loop = write_loop-eq-append_all p (length p) 0 0 r (omega arith) (omega arith) in
    rw (add-one, loop, slice_empty p 0)
