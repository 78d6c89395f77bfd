-- ===== src/Pricing.antt =====
-- internal/pricing: the price lookup with its cache on disk (pricing.go) and the fetchers of a
-- context (fetcher.go). An API of a vendor is a parameter, which may answer otherwise at another
-- time; `none` is an error. The cache is its files by their names, each with the item that its JSON
-- holds, or `none` where that does not parse. Times are nanoseconds; `none` is the zero time, and
-- one call of Fetch happens at one time.
pub mod Cache
pub mod Fetchers
mod Examples
use Prim.Native.String.{◌++◌}
use yage.Prelude.{
  ℕ, ◌+◌, ◌-◌, ◌*◌, ◌^◌, String, Bool, true, false, ◌||◌, Option, none, some, List, [], ◌∷◌, Map,
  lookup, insert, ltb, if◌then◌else◌,
}

pub record Item (F : Type 0) : Type 0 where
  pub vendor : String
  pub sku : String
  pub region : String
  pub usd_per_hour : F
  pub usd_per_month : F
  pub native_currency : String
  pub native_amount : F
  pub fetched_at : Option ℕ

pub data PriceError : Type 0 where
  switched_off : PriceError
  no_fetcher : String → PriceError
  fetch_failed : PriceError
  no_entry : String → String → String → PriceError

pub data Result (A : Type 0) : Type 0 where
  ok : A → Result A
  unavailable : PriceError → Result A

-- 24 * time.Hour
abbrev pub default_ttl : ℕ
default_ttl = 86_400 * 10 ^ 9

abbrev pub VendorFetcher : Type 0 → Type 0
VendorFetcher F = ℕ → String → String → Option (Item F)

pub record Pricing (F : Type 0) : Type 0 where
  pub fetchers : Map (VendorFetcher F)
  pub disabled : Bool
  pub airgapped : Bool
  pub cache : Map (Option (Item F))
  -- whether the file of an item can be written: the directory, its JSON and the path
  pub writable : Item F → Bool

module _ {F : Type 0} where
  pub register : String → VendorFetcher F → Pricing F → Pricing F
  register vendor f p = record p { fetchers = insert vendor f p.fetchers }

  pub set_airgapped : Bool → Pricing F → Pricing F
  set_airgapped b p = record p { airgapped = b }

-- The name of the file in the directory of the cache.
unfoldable pub cache_path : String → String → String → String
cache_path vendor sku region = vendor ++ "." ++ sku ++ "." ++ region ++ ".json"

-- time.Since(t) > DefaultTTL, where a time ahead of the clock is not stale.
pub is_stale : ℕ → Option ℕ → Bool
is_stale now none = true
is_stale now (some t) = ltb default_ttl (now - t)

pub time_or : ℕ → Option ℕ → Option ℕ
time_or now none = some now
time_or now (some t) = some t

module _ {F : Type 0} where
  pub fresh_item : ℕ → Option (Option (Item F)) → Option (Item F)
  unfolding is_stale
  fresh_item now none = none
  fresh_item now (some none) = none
  fresh_item now (some (some it)) = if is_stale now it.fetched_at then none else some it

  pub read_cache : ℕ → String → String → String → Pricing F → Option (Item F)
  unfolding fresh_item
  read_cache now vendor sku region p =
      fresh_item now (lookup (cache_path vendor sku region) p.cache)

  pub with_file :
      (writable : Bool) → String → Item F → Map (Option (Item F)) → Map (Option (Item F))
  with_file true path it files = insert path (some it) files
  with_file false path it files = files

  pub write_cache : Item F → Pricing F → Pricing F
  unfolding with_file
  write_cache it p = record p {
    cache = with_file (p.writable it) (cache_path it.vendor it.sku it.region) it p.cache;
  }

  pub stamp : ℕ → String → String → String → Item F → Item F
  unfolding time_or
  stamp now vendor sku region it = record it {
    vendor = vendor;
    sku = sku;
    region = region;
    fetched_at = time_or now it.fetched_at;
  }

  pub store :
      ℕ → String → String → String → Option (Item F) → Pricing F → Result (Item F) × Pricing F
  unfolding stamp write_cache
  store now vendor sku region none p = (unavailable fetch_failed, p)
  store now vendor sku region (some it) p =
      let item = stamp now vendor sku region it in (ok item, write_cache item p)

  pub ask :
      ℕ
      → String
      → String
      → String
      → Option (VendorFetcher F)
      → Pricing F
      → Result (Item F) × Pricing F
  unfolding store
  ask now vendor sku region none p = (unavailable (no_fetcher vendor), p)
  ask now vendor sku region (some f) p = store now vendor sku region (f now sku region) p

  pub cached_or :
      ℕ → String → String → String → Option (Item F) → Pricing F → Result (Item F) × Pricing F
  unfolding ask
  cached_or now vendor sku region (some it) p = (ok it, p)
  cached_or now vendor sku region none p = ask now vendor sku region (lookup vendor p.fetchers) p

  pub fetch : ℕ → String → String → String → Pricing F → Result (Item F) × Pricing F
  unfolding cached_or read_cache
  fetch now vendor sku region p =
      if p.disabled || p.airgapped
      then (unavailable switched_off, p)
      else cached_or now vendor sku region (read_cache now vendor sku region p) p

  pub then_item : Item F → Result (List (Item F)) → Result (List (Item F))
  then_item it (ok items) = ok (it ∷ items)
  then_item it (unavailable e) = unavailable e

  -- What the first of the queries has: the others come after it, or its error ends the loop.
  pub with_first :
      Result (Item F)
      → Result (List (Item F)) × Pricing F
      → Pricing F
      → Result (List (Item F)) × Pricing F
  unfolding then_item
  with_first (ok it) (rest, p'') p' = (then_item it rest, p'')
  with_first (unavailable e) rest p' = (unavailable e, p')

  -- The loop of FetchMany over pairs of a SKU and a region, each at its own time.
  pub fetch_many :
      String → List (ℕ × (String × String)) → Pricing F → Result (List (Item F)) × Pricing F
  unfolding fetch with_first
  fetch_many vendor [] p = (ok [], p)
  fetch_many vendor ((now, (sku, region)) ∷ qs) p =
      let (r, p') = fetch now vendor sku region p in with_first r (fetch_many vendor qs p') p'
