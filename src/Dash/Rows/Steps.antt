-- ===== src/Dash/Rows/Steps.antt =====
-- What the two loops do with one field.
use yage.Prelude.{
  ℕ, zero, suc, ◌+◌, String, Bool, true, false, ◌&&◌, Option, none, some, List, [], ◌∷◌, ◌++◌, eqb,
  ltb, if◌then◌else◌, length, get_elem?, ◌≡◌, refl, arith, ap, sym,
}
use mathlib.Core.Path.{subst}
use yage.Dash.Rows.{Line, blank, header, drawn, field_of}

-- One line, against the rows that are searched from it on.
pub search_line :
    (l : Line) (ls : List Line) (cur k : ℕ) (rest : Option ℕ)
    → ((j : ℕ) → k ≡ suc j → rest ≡ field_of (get_elem? ls j))
    → (if eqb cur (cur + k) then field_of (some l) else rest) ≡ field_of (get_elem? (l ∷ ls) k)
search_line l ls cur zero rest later =
    let e : eqb cur (cur + zero) ≡ true = ground arith in rw e refl
search_line l ls cur (suc k) rest later =
    let e : eqb cur (cur + suc k) ≡ false = ground arith in rw e (later k refl)

-- What the two loops do with one field, where `search` and `draw` are what they do with the others.
pub row_step :
    (hidden starts g g2 : Bool) (fid cur above k : ℕ) (section last : String)
    (search : ℕ → String → Option ℕ) (draw : ℕ → String → List Line)
    → g ≡ g2
    → ((n j c a : ℕ) (l : String)
        → k ≡ n + j
        → c ≡ cur + n
        → a ≡ above + n
        → search c l ≡ field_of (get_elem? (draw a l) j))
    → let gap = starts && g in
      let head = if gap then cur + 1 else cur in
      let line = if starts then head + 1 else head in
      let row = cur + k in
      let last' = if hidden then last else (if starts then section else last) in
      let found = search (if hidden then cur else line + 1) last' in
      let before =
        (if starts && g2 then blank ∷ [] else []) ++ (if starts then header section ∷ [] else []) in
      let rest = draw (if hidden then above else above + length before + 1) last' in
      (if hidden
        then found
        else if gap && eqb cur row
        then none
        else if starts && eqb head row
        then none
        else if eqb line row
        then some fid
        else found)
      ≡ field_of (get_elem? (if hidden then rest else before ++ drawn fid ∷ rest) k)
row_step true starts g g2 fid cur above k section last search draw e0 ih =
    ih 0 k cur above last (omega arith) (omega arith) (omega arith)
row_step false false g g2 fid cur above k section last search draw e0 ih =
    search_line (drawn fid) _ cur k _
      (λ j e. ih 1 j (cur + 1) (above + 0 + 1) last (omega (arith, e)) (omega arith) (omega arith))
row_step false true true false fid cur above k section last search draw e0 ih =
    absurd (ground (arith, e0))
row_step false true false true fid cur above k section last search draw e0 ih =
    absurd (ground (arith, e0))
row_step false true false false fid cur above k section last search draw e0 ih =
    search_line (header section) (drawn fid ∷ draw (above + 1 + 1) section) cur k _ (λ j e.
      let row : cur + k ≡ cur + 1 + j = omega (arith, e) in
      subst
        (λ r.
          (if eqb (cur + 1) r then some fid else search (cur + 1 + 1) section)
          ≡ field_of (get_elem? (drawn fid ∷ draw (above + 1 + 1) section) j))
        (sym row)
        (search_line (drawn fid) _ (cur + 1) j _ (λ i e'.
          ih 2 i (cur + 1 + 1) (above + 1 + 1) section (omega (arith, e, e')) (omega arith)
            (omega arith))))
row_step false true true true fid cur above k section last search draw e0 ih =
    search_line blank (header section ∷ drawn fid ∷ draw (above + 2 + 1) section) cur k _ (λ j e.
      let row : cur + k ≡ cur + 1 + j = omega (arith, e) in
      subst
        (λ r.
          (if eqb (cur + 1) r
            then none
            else (if eqb (cur + 1 + 1) r then some fid else search (cur + 1 + 1 + 1) section))
          ≡ field_of (get_elem? (header section ∷ drawn fid ∷ draw (above + 2 + 1) section) j))
        (sym row)
        (search_line (header section) (drawn fid ∷ draw (above + 2 + 1) section) (cur + 1) j _
          (λ i e'.
            let row' : cur + 1 + j ≡ cur + 1 + 1 + i = omega (arith, e') in
            subst
              (λ r.
                (if eqb (cur + 1 + 1) r then some fid else search (cur + 1 + 1 + 1) section)
                ≡ field_of (get_elem? (drawn fid ∷ draw (above + 2 + 1) section) i))
              (sym row')
              (search_line (drawn fid) _ (cur + 1 + 1) i _ (λ h e''.
                ih 3 h (cur + 1 + 1 + 1) (above + 2 + 1) section (omega (arith, e, e', e''))
                  (omega arith) (omega arith))))))

pub positive_after :
    (cur above n c a : ℕ)
    → ltb 0 cur ≡ ltb 0 above
    → c ≡ cur + n
    → a ≡ above + n
    → ltb 0 c ≡ ltb 0 a
positive_after cur above n c a h p q = ground (arith, h, p, q)

-- Only whether there are lines above matters for what is drawn.
pub draw_step :
    (hidden starts g g2 : Bool) (fid a b : ℕ) (section last : String)
    (draw : ℕ → String → List Line)
    → g ≡ g2
    → ltb 0 a ≡ ltb 0 b
    → ((c d : ℕ) (l : String) → ltb 0 c ≡ ltb 0 d → draw c l ≡ draw d l)
    → let last' = if hidden then last else (if starts then section else last) in
      let before =
        (if starts && g then blank ∷ [] else []) ++ (if starts then header section ∷ [] else []) in
      let before2 =
        (if starts && g2 then blank ∷ [] else []) ++ (if starts then header section ∷ [] else []) in
      let rest = draw (if hidden then a else a + length before + 1) last' in
      let rest2 = draw (if hidden then b else b + length before2 + 1) last' in
      (if hidden then rest else before ++ drawn fid ∷ rest)
      ≡ (if hidden then rest2 else before2 ++ drawn fid ∷ rest2)
draw_step true starts g g2 fid a b section last draw e same ih = ih a b last same
draw_step false false g g2 fid a b section last draw e same ih =
    ap (◌∷◌ (drawn fid)) (ih (a + 0 + 1) (b + 0 + 1) last (ground arith))
draw_step false true false false fid a b section last draw e same ih =
    ap (λ ls. header section ∷ drawn fid ∷ ls) (ih (a + 1 + 1) (b + 1 + 1) section (ground arith))
draw_step false true true true fid a b section last draw e same ih =
    ap (λ ls. blank ∷ header section ∷ drawn fid ∷ ls)
      (ih (a + 2 + 1) (b + 2 + 1) section (ground arith))
draw_step false true false true fid a b section last draw e same ih = absurd (ground (arith, e))
draw_step false true true false fid a b section last draw e same ih = absurd (ground (arith, e))

-- The first field is in the form and starts a section, so lines above it add a blank line.
pub first_step :
    (hidden : Bool) (draw : ℕ → String → List Line)
    → hidden ≡ false
    → draw 5 "Mode" ≡ draw 2 "Mode"
    → (if hidden
        then draw (if hidden then 2 else 5) (if hidden then "" else "Mode")
        else blank
          ∷ header "Mode"
          ∷ drawn 0
          ∷ draw (if hidden then 2 else 5) (if hidden then "" else "Mode"))
      ≡ blank
        ∷ (if hidden
            then draw (if hidden then 0 else 2) (if hidden then "" else "Mode")
            else header "Mode"
              ∷ drawn 0
              ∷ draw (if hidden then 0 else 2) (if hidden then "" else "Mode"))
first_step true draw h e = absurd (ground (arith, h))
first_step false draw h e = ap (λ ls. blank ∷ header "Mode" ∷ drawn 0 ∷ ls) e
