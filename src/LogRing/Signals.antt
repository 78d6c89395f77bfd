-- ===== src/LogRing/Signals.antt =====
-- Subscriptions: the channels that the methods signal, add and remove.
use yage.Prelude.{
  ◌∙◌, ℕ, ◌+◌, ◌<◌, ◌≡◌, refl, Bool, true, false, List, [], ◌∷◌, ◌++◌, arith, filter, map, All,
  All-append, if◌then◌else◌,
}
use yage.LogRing.{
  Line, Channel, LogRing, append_line, notify, write, subscribe, unsubscribe, remove_first,
}
use yage.LogRing.History.{append_all}
use yage.LogRing.Segments.{nonempty, split_lines, write-eq-append_all}

abbrev signalled : List Channel → List Channel
signalled = map (λ (c : Channel). record c { pending = true })

signalled_twice : (cs : List Channel) → signalled (signalled cs) ≡ signalled cs
signalled_twice [] = refl
signalled_twice (c ∷ cs) = rw (signalled_twice cs)

subs-append_all :
    (r : LogRing) (l : Line) (ls : List Line) → (append_all r (l ∷ ls)).subs ≡ signalled r.subs
unfolding append_line notify
subs-append_all r l [] = refl
subs-append_all r l (m ∷ ls) = subs-append_all (append_line r l) m ls ∙ signalled_twice r.subs

abbrev appends_nothing : Line → Bool
appends_nothing p = elim (filter nonempty (split_lines p)) [ [] ↦ true | _ ∷ _ ↦ false ]

-- A write leaves a signal in every subscriber's channel, without blocking, when it has a non-empty
-- line, and changes no channel otherwise.
pub subs-write :
    (r : LogRing) (p : Line)
    → (write r p).0.subs ≡ (
        if appends_nothing p
        then r.subs
        else map (λ (c : Channel). record c { pending = true }) r.subs)
subs-write r p = rw write-eq-append_all (go (filter nonempty (split_lines p)))
  where
    go :
        (pieces : List Line)
        → (append_all r pieces).subs
          ≡ (if (elim pieces [ [] ↦ true | _ ∷ _ ↦ false ]) then r.subs else signalled r.subs)
    go [] = refl
    go (l ∷ ls) = subs-append_all r l ls

-- Channels carry identities below the count of those made.
abbrev pub IsFresh : LogRing → Type 0
IsFresh r = All (λ (c : Channel). c.id < r.made) r.subs

IsFresh-weaken :
    (n m : ℕ) (cs : List Channel)
    → n < m
    → All (λ (c : Channel). c.id < n) cs
    → All (λ (c : Channel). c.id < m) cs
IsFresh-weaken n m [] h a = tt
IsFresh-weaken n m (c ∷ cs) h a = (omega arith, IsFresh-weaken n m cs h a.1)

remove_first-new :
    (cs : List Channel) (n : ℕ) (b : Bool)
    → All (λ (c : Channel). c.id < n) cs
    → remove_first n (cs ++ record { id = n; pending = b } ∷ []) ≡ cs
remove_first-new [] n b a = ground arith
remove_first-new (c ∷ cs) n b a = ground (arith, remove_first-new cs n b a.1)

-- When the channels carry identities below the count of those made, subscribing keeps this so, and
-- unsubscribing the new channel leaves the subscribers as they were before.
pub unsubscribe-subscribe :
    (r : LogRing)
    → IsFresh r
    → let (r', ch) = subscribe r in IsFresh r' × ((unsubscribe r' ch).subs ≡ r.subs)
unfolding subscribe unsubscribe
unsubscribe-subscribe r f = (
  All-append _ r.subs _ (IsFresh-weaken r.made (r.made + 1) r.subs (omega arith) f)
      (omega arith, tt),
  remove_first-new r.subs r.made false f,
)
