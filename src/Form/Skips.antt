-- ===== src/Form/Skips.antt =====
-- Which providers are skipped after disableProvidersMissingCredentials.
use yage.Prelude.{
  String, Bool, true, false, not, ◌&&◌, ◌||◌, List, [], ◌∷◌, ◌==◌, eq_iff, contains, if◌then◌else◌,
  ◌≡◌, refl, sym, ◌∙◌, ap, arith, ◌⊎◌, Bool-cases, inl, inr,
}
use yage.Settings.{Settings}
use yage.Form.{Host}
use yage.Form.Credentials.{
  checks, mark, unmark, named, parts, spared, update_skipped, skipped_providers,
}

found_again :
    (p g : String) (set : List String)
    → contains set p ≡ true
    → contains set g ≡ (p == g || contains set g)
found_again p g set e = elim (Bool-cases (p == g)) [
  | inl k ↦ rw k (ap (contains set) (sym ((eq_iff p g).0 k)) ∙ e)
  | inr k ↦ rw k refl
]

mark-contains :
    (p : String) (set : List String) (g : String)
    → contains (mark p set) g ≡ (p == g || contains set g)
unfolding mark contains
mark-contains p set g = elim (Bool-cases (contains set p)) [
  | inl e ↦ rw e (found_again p g set e)
  | inr e ↦ rw e refl
]

-- A name that is taken out is that of another, or its head is not `p`.
head_stays :
    (p q g : String) (later : Bool)
    → (q == p) ≡ false
    → (q == g || (not (p == g) && later)) ≡ (not (p == g) && (q == g || later))
head_stays p q g later apart = elim (Bool-cases (p == g)) [
  | inl k ↦
      let other : (q == g) ≡ false = ap (λ t. q == t) (sym ((eq_iff p g).0 k)) ∙ apart in
      rw (k, other) refl
  | inr k ↦ rw k refl
]

head_goes :
    (p q g : String) (later : Bool)
    → (q == p) ≡ true
    → (not (p == g) && later) ≡ (not (p == g) && (q == g || later))
head_goes p q g later same_name = elim (Bool-cases (p == g)) [
  | inl k ↦ rw k refl
  | inr k ↦
      let other : (q == g) ≡ false = ap (λ t. t == g) ((eq_iff q p).0 same_name) ∙ k in
      rw (k, other) refl
]

unmark-contains :
    (p : String) (set : List String) (g : String)
    → contains (unmark p set) g ≡ (not (p == g) && contains set g)
unfolding unmark contains
unmark-contains p [] g = ground arith
unmark-contains p (q ∷ set) g = elim (Bool-cases (q == p)) [
  | inl e ↦ rw e (unmark-contains p set g ∙ head_goes p q g (contains set g) e)
  | inr e ↦
      rw e (ap (λ b. q == g || b) (unmark-contains p set g) ∙ head_stays p q g (contains set g) e)
]

module _ {F : Type 0} (s : Settings F) (g : String) where
  -- Whether the provider is skipped after the checks: the last check of its name that is not passed
  -- over decides, and without one it is as before.
  abbrev pub decided : List (String × Bool) → Bool → Bool
  decided [] before = before
  decided ((name, missing) ∷ cs) before =
      decided cs (if name == g && not (spared s name) then missing else before)

  update_skipped-contains :
      (cs : List (String × Bool)) (skipped : List String)
      → contains (update_skipped s cs skipped) g ≡ decided cs (contains skipped g)
  unfolding update_skipped
  update_skipped-contains [] skipped = refl
  update_skipped-contains ((name, missing) ∷ cs) skipped =
      update_skipped-contains cs (
        if spared s name
        then skipped
        else if missing
        then mark name skipped
        else unmark name skipped)
      ∙ ap (decided cs) (one_check (Bool-cases (spared s name)) (Bool-cases missing))
    where
      one_check :
          (spared s name ≡ true) ⊎ (spared s name ≡ false)
          → (missing ≡ true) ⊎ (missing ≡ false)
          → contains
              (if spared s name
                then skipped
                else if missing
                then mark name skipped
                else unmark name skipped)
              g
            ≡ (if name == g && not (spared s name) then missing else contains skipped g)
      one_check (inl e) m = rw e (ground arith)
      one_check (inr e) (inl m) = rw (e, m) (mark-contains name skipped g ∙ ground arith)
      one_check (inr e) (inr m) = rw (e, m) (unmark-contains name skipped g ∙ ground arith)

  -- A provider is skipped exactly if its credentials are missing, where a check of it is not passed
  -- over, and else exactly if it was in the list of skipped providers.
  pub skipped_providers-contains :
      (host : Host F)
      → contains (skipped_providers host s) g
        ≡ decided (checks host s) (contains (named (parts (s.texts "SkipProviders"))) g)
  unfolding skipped_providers
  skipped_providers-contains host =
      update_skipped-contains (checks host s) (named (parts (s.texts "SkipProviders")))
