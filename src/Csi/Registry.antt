-- ===== src/Csi/Registry.antt =====
-- What Register, Get and Registered have to do with each other.
use yage.Prelude.{
  String, Bool, true, false, Option, none, some, [], ◌∷◌, Map, lookup, insert, contains, ◌==◌,
  if◌then◌else◌, ◌≡◌, refl, lookup-insert, eq_refl, arith, ap, ◌∙◌, Bool-cases, inl, inr,
}
use yage.Prelude.Sorted.{IsSorted, sort-IsSorted, sort-contains}
use yage.Csi.{returned, duplicate, got, registered, get, found_or, add_driver, register, keys_of}
use mathlib.Core.Path.{subst}

module _ {A : Type 0} where
  abbrev pub is_some : Option A → Bool
  is_some none = false
  is_some (some _) = true

module _ {D : Type 0} where
  keys_of-contains : (m : Map D) (n : String) → contains (keys_of m) n ≡ is_some (lookup n m)
  unfolding contains lookup
  keys_of-contains [] n = refl
  keys_of-contains ((k, d) ∷ m) n = ground (arith, keys_of-contains m n)

  -- The registered names are listed in order, and they are the names that Get knows.
  pub registered-IsSorted :
      (m : Map D)
      → IsSorted (registered m) × ((n : String) → contains (registered m) n ≡ is_some (lookup n m))
  unfolding registered
  registered-IsSorted m =
      (sort-IsSorted (keys_of m), λ n. sort-contains (keys_of m) n ∙ keys_of-contains m n)

module _ {D : Type 0} (name_of : D → String) (same : D → D → Bool) where
  -- The driver that is registered in the end, and what else changed.
  record Registers (m m' : Map D) (d : D) : Type 0 where
    kept : lookup (name_of d) m' ≡ some d
    others : (n : String) → (name_of d == n) ≡ false → lookup n m' ≡ lookup n m

  module _ (same_eq : (a b : D) → same a b ≡ true → a ≡ b) where
    add_driver-Registers :
        (m m' : Map D) (d : D) (o : Option D)
        → lookup (name_of d) m ≡ o
        → add_driver same m (name_of d) d o ≡ returned m'
        → Registers m m' d
    unfolding add_driver
    add_driver-Registers m m' d none e h =
        let m'_eq : insert (name_of d) d m ≡ m' = cc h in
        subst (λ r. Registers m r d) m'_eq
          (record {
            kept = lookup-insert (name_of d) (name_of d) d m ∙ rw eq_refl refl;
            others = λ n ne. lookup-insert (name_of d) n d m ∙ rw ne refl;
          })
    add_driver-Registers m m' d (some x) e h = elim (Bool-cases (same x d)) [
      | inl s ↦
          let m'_eq : m ≡ m' = ground (arith, h) in
          subst (λ r. Registers m r d) m'_eq
            (record { kept = e ∙ ap some (same_eq x d s); others = λ n ne. refl })
      | inr s ↦ absurd (ground (arith, h))
    ]

    -- When Register returns, Get gives the driver by its name, the other names are as before, and
    -- registering the driver again changes nothing. Here equal interface values are equal drivers.
    pub register-get :
        ((a : D) → same a a ≡ true)
        → (m m' : Map D) (d : D) → register name_of same m (some d) ≡ returned m'
        → (get m' (name_of d) ≡ got d)
          × ((n : String) → (name_of d == n) ≡ false → lookup n m' ≡ lookup n m)
          × (register name_of same m' (some d) ≡ returned m')
    unfolding register get
    register-get same_refl m m' d h =
        let r = add_driver-Registers m m' d (lookup (name_of d) m) refl h in
        (
          ap (found_or (name_of d) (registered m')) r.kept,
          r.others,
          ap (add_driver same m' (name_of d) d) r.kept
              ∙ ap (λ b. if b then returned m' else duplicate (name_of d)) (same_refl d),
        )
