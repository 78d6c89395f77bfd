-- ===== src/LogRing.antt =====
-- internal/ui/xapiri/logring.go: the ring buffer that captures log output for the dashboard.
-- The array is a function of its index, since `head` stays below the capacity. A channel of
-- capacity one is its identity with whether a signal waits in it. The mutexes make each method
-- atomic; one method call is one function here.
pub mod History
pub mod Segments
pub mod Refines
pub mod Signals
mod Examples
use yage.Prelude.{
  ℕ, zero, suc, ◌+◌, ◌-◌, ◌%◌, ◌≡◌, Bool, true, false, ◌||◌, List, [], ◌∷◌, ◌++◌, ltb, leb, eqb,
  if◌then◌else◌, length, take, drop, get_elem?, Option, some, none, map, not,
}

abbrev pub log_ring_cap : ℕ
log_ring_cap = 500

-- A line is its bytes.
abbrev pub Line : Type 0
Line = List ℕ

pub record Channel : Type 0 where
  pub id : ℕ
  pub pending : Bool

pub record LogRing : Type 0 where
  pub buf : ℕ → Line
  pub head : ℕ
  pub size : ℕ
  pub subs : List Channel
  -- the channels made so far, which are all different
  pub made : ℕ

abbrev pub empty : LogRing
empty = record { buf = λ _. []; head = 0; size = 0; subs = []; made = 0 }

abbrev pub update : (ℕ → Line) → ℕ → Line → ℕ → Line
update b i v j = if eqb j i then v else b j

-- The send that does not block: a full channel stays full.
pub notify : LogRing → LogRing
notify r = record r { subs = map (λ (c : Channel). record c { pending = true }) r.subs }

pub append_line : LogRing → Line → LogRing
append_line r line = notify (record r {
  buf = update r.buf r.head line;
  head = (r.head + 1) % log_ring_cap;
  size = if ltb r.size log_ring_cap then r.size + 1 else r.size;
})

abbrev pub slice : Line → ℕ → ℕ → Line
slice p start i = take (i - start) (drop start p)

-- `i == len(p) || p[i] == '\n'`
pub is_cut : Line → ℕ → Bool
is_cut p i = eqb i (length p) || elim (get_elem? p i) [ none ↦ false | some c ↦ eqb c b'\n' ]

-- The loop of `Write` at index `i`, with `rounds` rounds left.
pub write_loop : (rounds : ℕ) → Line → (start i : ℕ) → LogRing → LogRing
write_loop zero p start i r = r
write_loop (suc rounds) p start i r =
    write_loop rounds p (if is_cut p i then i + 1 else start) (i + 1)
      (if is_cut p i then (if ltb start i then append_line r (slice p start i) else r) else r)

-- The second result is the count of bytes, as io.Writer wants it; the error is always nil.
pub write : LogRing → Line → LogRing × ℕ
write r p = (write_loop (length p + 1) p 0 0 r, length p)

lines_from : (rounds : ℕ) → (ℕ → Line) → (start i : ℕ) → List Line
lines_from zero b start i = []
lines_from (suc rounds) b start i =
    b ((start + i) % log_ring_cap) ∷ lines_from rounds b start (i + 1)

pub lines : LogRing → List Line
unfolding lines_from
lines r =
    if eqb r.size 0
    then []
    else lines_from r.size r.buf ((r.head + log_ring_cap - r.size) % log_ring_cap) 0

pub subscribe : LogRing → LogRing × ℕ
subscribe r = (
  record r { subs = r.subs ++ record { id = r.made; pending = false } ∷ []; made = r.made + 1 },
  r.made,
)

abbrev remove_first : ℕ → List Channel → List Channel
remove_first ch [] = []
remove_first ch (s ∷ subs) = if eqb s.id ch then subs else s ∷ remove_first ch subs

pub unsubscribe : LogRing → ℕ → LogRing
unsubscribe r ch = record r { subs = remove_first ch r.subs }
