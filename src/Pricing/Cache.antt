-- ===== src/Pricing/Cache.antt =====
-- The cache behind Fetch and FetchMany.
use yage.Prelude.{
  ℕ, String, Bool, true, false, ◌||◌, Option, none, some, List, [], ◌∷◌, Map, lookup, lookup-insert,
  map, if◌then◌else◌, ◌≡◌, refl, ap, sym, ◌∙◌, arith, eq_refl, eq_iff, ◌==◌, Bool-cases, inl, inr,
}
use yage.Pricing.{
  Item, Result, ok, unavailable, VendorFetcher, Pricing, cache_path, is_stale, fresh_item,
  read_cache, write_cache, with_file, stamp, store, ask, cached_or, fetch, fetch_many, then_item,
  with_first, PriceError, switched_off,
}
use mathlib.Core.Path.{subst}

-- The file names of what FetchMany is asked for.
abbrev pub paths_asked : String → List (ℕ × (String × String)) → List String
paths_asked vendor qs = map (λ (q : ℕ × (String × String)). cache_path vendor q.1.0 q.1.1) qs

module _ {F : Type 0} where
  abbrev pub path_of : Item F → String
  path_of it = cache_path it.vendor it.sku it.region

  -- Every file of the cache has the name that its item gives.
  pub record IsKeyed (files : Map (Option (Item F))) : Type 0 where
    pub keyed : (k : String) (it : Item F) → lookup k files ≡ some (some it) → path_of it ≡ k

  -- What a fetch at `path` may end in.
  record Fetched (path : String) (p : Pricing F) (out : Result (Item F) × Pricing F) : Type 0 where
    keeps : IsKeyed p.cache → IsKeyed out.1.cache
    keyed_item : IsKeyed p.cache → (it : Item F) → out.0 ≡ ok it → path_of it ≡ path
    error_keeps : (e : PriceError) → out.0 ≡ unavailable e → out.1 ≡ p
    writable_eq : out.1.writable ≡ p.writable
    cached :
        (it : Item F)
        → out.0 ≡ ok it
        → p.writable it ≡ true
        → lookup path out.1.cache ≡ some (some it)
    off : (out.1.disabled ≡ p.disabled) × (out.1.airgapped ≡ p.airgapped)

  unchanged-Fetched :
      (path : String) (p : Pricing F) (e : PriceError) → Fetched path p (unavailable e, p)
  unchanged-Fetched path p e = record {
    keeps = λ k. k;
    keyed_item = λ k it h. absurd (ground (arith, h));
    error_keeps = λ _ _. refl;
    writable_eq = refl;
    cached = λ it h _. absurd (ground (arith, h));
    off = (refl, refl);
  }

  with_file-IsKeyed :
      (writable : Bool) (it : Item F) (files : Map (Option (Item F)))
      → IsKeyed files
      → IsKeyed (with_file writable (path_of it) it files)
  unfolding with_file
  with_file-IsKeyed false it files k = k
  with_file-IsKeyed true it files k = record {
    keyed = λ j x e.
        let found = sym (lookup-insert (path_of it) j (some it) files) ∙ e in
        elim (Bool-cases (path_of it == j)) [
          | inl s ↦
              let same : some (some it) ≡ some (some x) =
                subst (λ b. (if b then some (some it) else lookup j files) ≡ some (some x)) s
                  found in
              let it_eq : it ≡ x = cc same in
              ap path_of (sym it_eq) ∙ ground (arith, eq_iff (path_of it) j, s)
          | inr s ↦
              k.keyed j x (
                subst (λ b. (if b then some (some it) else lookup j files) ≡ some (some x)) s found)
        ];
  }

  with_file-lookup :
      (writable : Bool) (path : String) (it : Item F) (files : Map (Option (Item F)))
      → writable ≡ true
      → lookup path (with_file writable path it files) ≡ some (some it)
  unfolding with_file
  with_file-lookup false path it files w = absurd (ground (arith, w))
  with_file-lookup true path it files w = lookup-insert path path (some it) files ∙ rw eq_refl refl

  store-Fetched :
      (now : ℕ) (v s r : String) (o : Option (Item F)) (p : Pricing F)
      → Fetched (cache_path v s r) p (store now v s r o p)
  unfolding store write_cache stamp
  store-Fetched now v s r none p = unchanged-Fetched _ p _
  store-Fetched now v s r (some it) p =
      let item = stamp now v s r it in
      record {
        keeps = with_file-IsKeyed (p.writable item) item p.cache;
        keyed_item = λ k x h. let same : item ≡ x = cc h in ap path_of (sym same);
        error_keeps = λ e h. absurd (ground (arith, h));
        writable_eq = refl;
        cached = λ x h w.
            let same : item ≡ x = cc h in
            with_file-lookup (p.writable item) (cache_path v s r) item p.cache
              (ap p.writable same ∙ w)
            ∙ ap (λ y. some (some y)) same;
        off = (refl, refl);
      }

  ask-Fetched :
      (now : ℕ) (v s r : String) (f : Option (VendorFetcher F)) (p : Pricing F)
      → Fetched (cache_path v s r) p (ask now v s r f p)
  unfolding ask
  ask-Fetched now v s r none p = unchanged-Fetched _ p _
  ask-Fetched now v s r (some f) p = store-Fetched now v s r (f now s r) p

  fresh_item-some :
      (now : ℕ) (o : Option (Option (Item F))) (it : Item F)
      → fresh_item now o ≡ some it
      → o ≡ some (some it)
  unfolding fresh_item
  fresh_item-some now none it h = absurd (ground (arith, h))
  fresh_item-some now (some none) it h = absurd (ground (arith, h))
  fresh_item-some now (some (some x)) it h = elim (Bool-cases (is_stale now x.fetched_at)) [
    | inl s ↦ absurd (ground (arith, h))
    | inr s ↦ let same : x ≡ it = ground (arith, h) in ap (λ y. some (some y)) same
  ]

  cached_or-Fetched :
      (now : ℕ) (v s r : String) (o : Option (Item F)) (p : Pricing F)
      → read_cache now v s r p ≡ o
      → Fetched (cache_path v s r) p (cached_or now v s r o p)
  unfolding cached_or read_cache
  cached_or-Fetched now v s r none p e = ask-Fetched now v s r (lookup v p.fetchers) p
  cached_or-Fetched now v s r (some it) p e =
      let file = fresh_item-some now (lookup (cache_path v s r) p.cache) it e in
      record {
        keeps = λ k. k;
        keyed_item =
            λ k x h. let same : it ≡ x = cc h in k.keyed _ x (file ∙ ap (λ y. some (some y)) same);
        error_keeps = λ _ _. refl;
        writable_eq = refl;
        cached = λ x h w. let same : it ≡ x = cc h in file ∙ ap (λ y. some (some y)) same;
        off = (refl, refl);
      }

  if-Fetched :
      (b : Bool) (path : String) (p : Pricing F) (x y : Result (Item F) × Pricing F)
      → Fetched path p x
      → Fetched path p y
      → Fetched path p (if b then x else y)
  if-Fetched true path p x y h k = h
  if-Fetched false path p x y h k = k

  fetch-Fetched :
      (now : ℕ) (v s r : String) (p : Pricing F) → Fetched (cache_path v s r) p (fetch now v s r p)
  unfolding fetch
  fetch-Fetched now v s r p =
      let cached = read_cache now v s r p in
      if-Fetched (p.disabled || p.airgapped) (cache_path v s r) p _ _ (unchanged-Fetched _ p _)
        (cached_or-Fetched now v s r cached p refl)

  -- Where every file of the cache has the name that its item gives, this is so after a fetch too,
  -- and an item that is returned has the file name of what was asked for. A fetch that returns an
  -- error changes nothing.
  pub fetch-IsKeyed :
      (now : ℕ) (v s r : String) (p : Pricing F)
      → IsKeyed p.cache
      → let out = fetch now v s r p in
        IsKeyed out.1.cache
        × ((it : Item F) → out.0 ≡ ok it → path_of it ≡ cache_path v s r)
        × ((e : PriceError) → out.0 ≡ unavailable e → out.1 ≡ p)
  fetch-IsKeyed now v s r p k =
      let f = fetch-Fetched now v s r p in (f.keeps k, f.keyed_item k, f.error_keeps)

  switched_on :
      (now : ℕ) (v s r : String) (p : Pricing F) (it : Item F)
      → (fetch now v s r p).0 ≡ ok it
      → (p.disabled || p.airgapped) ≡ false
  unfolding fetch
  switched_on now v s r p it h = elim (Bool-cases (p.disabled || p.airgapped)) [
    | inl e ↦ absurd (ground (arith, h, e))
    | inr e ↦ e
  ]

  fresh_item-fresh :
      (t : ℕ) (it : Item F)
      → is_stale t it.fetched_at ≡ false
      → fresh_item t (some (some it)) ≡ some it
  unfolding fresh_item
  fresh_item-fresh t it fresh = rw fresh refl

  fetch-from_cache :
      (t : ℕ) (v s r : String) (q : Pricing F) (it : Item F)
      → (q.disabled || q.airgapped) ≡ false
      → lookup (cache_path v s r) q.cache ≡ some (some it)
      → is_stale t it.fetched_at ≡ false
      → fetch t v s r q ≡ (ok it, q)
  unfolding fetch cached_or read_cache
  fetch-from_cache t v s r q it off file fresh =
      let found = ap (fresh_item t) file ∙ fresh_item-fresh t it fresh in
      ap
        (λ b.
          if b then (unavailable switched_off, q) else cached_or t v s r (read_cache t v s r q) q)
        off
      ∙ ap (λ o. cached_or t v s r o q) found

  -- Once a fetch has returned an item whose file can be written, a later fetch returns that item
  -- for as long as it is not stale, whatever the vendors answer then, and changes nothing.
  pub fetch-again :
      (now later : ℕ) (v s r : String) (p : Pricing F) (it : Item F)
      (fetchers : Map (VendorFetcher F))
      → (fetch now v s r p).0 ≡ ok it
      → p.writable it ≡ true
      → is_stale later it.fetched_at ≡ false
      → let p' = record (fetch now v s r p).1 { fetchers = fetchers } in
        fetch later v s r p' ≡ (ok it, p')
  fetch-again now later v s r p it fetchers h w fresh =
      let f = fetch-Fetched now v s r p in
      let file = f.cached it h w in
      let off : ((fetch now v s r p).1.disabled || (fetch now v s r p).1.airgapped) ≡ false =
        rw (f.off.0, f.off.1) (switched_on now v s r p it h) in
      fetch-from_cache later v s r (record (fetch now v s r p).1 { fetchers = fetchers }) it off
        file fresh

  then_item-paths :
      (path : String) (paths : List String) (it : Item F) (o : Result (List (Item F)))
      → path_of it ≡ path
      → ((rest : List (Item F)) → o ≡ ok rest → map path_of rest ≡ paths)
      → (items : List (Item F)) → then_item it o ≡ ok items
      → map path_of items ≡ path ∷ paths
  unfolding then_item
  then_item-paths path paths it (unavailable e) p ih items h = absurd (ground (arith, h))
  then_item-paths path paths it (ok rest) p ih items h =
      let same : it ∷ rest ≡ items = cc h in ap (map path_of) (sym same) ∙ cc (p, ih rest refl)

  with_first-paths :
      (path : String) (paths : List String) (o : Result (Item F))
      (rest : Result (List (Item F)) × Pricing F) (q : Pricing F)
      → ((it : Item F) → o ≡ ok it → path_of it ≡ path)
      → ((items : List (Item F)) → rest.0 ≡ ok items → map path_of items ≡ paths)
      → (items : List (Item F)) → (with_first o rest q).0 ≡ ok items
      → map path_of items ≡ path ∷ paths
  unfolding with_first
  with_first-paths path paths (unavailable e) rest q first ih items h = absurd (ground (arith, h))
  with_first-paths path paths (ok it) (o, q') q first ih items h =
      then_item-paths path paths it o (first it refl) ih items h

  -- When every file of the cache has the name that its item gives, FetchMany returns one item for
  -- each query, in their order, with the file name of what was asked for, or an error.
  pub fetch_many-paths :
      (vendor : String) (qs : List (ℕ × (String × String))) (p : Pricing F) (items : List (Item F))
      → IsKeyed p.cache
      → (fetch_many vendor qs p).0 ≡ ok items
      → map path_of items ≡ paths_asked vendor qs
  unfolding fetch_many
  fetch_many-paths vendor [] p items k h = let e : [] ≡ items = cc h in ap (map path_of) (sym e)
  fetch_many-paths vendor ((now, (s, r)) ∷ qs) p items k h =
      let (next, first, _) = fetch-IsKeyed now vendor s r p k in
      let p' = (fetch now vendor s r p).1 in
      with_first-paths (cache_path vendor s r) (paths_asked vendor qs) (fetch now vendor s r p).0
        (fetch_many vendor qs p') p' first (λ rest e. fetch_many-paths vendor qs p' rest next e)
        items h
