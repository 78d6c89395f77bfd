-- ===== src/Pricing/Fetchers.antt =====
-- internal/pricing/fetcher.go: the fetcher that a context carries, the live one and the static one.
-- A fetcher acts on the state of the package. A context is the fetcher that it carries, if any.
use Prim.Native.String.{◌++◌}
use yage.Prelude.{ℕ, String, Option, none, some, Map, lookup, ◌≡◌, refl, ap}
use mathlib.Core.Option
use yage.Float.{Float}
use yage.Pricing.{Item, Result, ok, unavailable, no_entry, Pricing, fetch}

pub record Fetcher (F : Type 0) : Type 0 where
  -- for a vendor, a SKU and a region, at a time
  pub fetch_item : ℕ → String → String → String → Pricing F → Result (Item F) × Pricing F
  -- for a vendor, a region and a SKU, at a time
  pub usd_per_hour_of : ℕ → String → String → String → Pricing F → Result F × Pricing F

module _ {F : Type 0} where
  pub hourly : Result (Item F) → Result F
  hourly (ok it) = ok it.usd_per_hour
  hourly (unavailable e) = unavailable e

  pub live_fetcher : Fetcher F
  unfolding hourly
  live_fetcher = record {
    fetch_item = fetch;
    usd_per_hour_of =
        λ now vendor region sku p. let (r, p') = fetch now vendor sku region p in (hourly r, p');
  }

  -- FetcherFrom; the live one is made once.
  pub fetcher_from : Option (Fetcher F) → Fetcher F
  unfolding live_fetcher
  fetcher_from none = live_fetcher
  fetcher_from (some f) = f

  -- WithFetcher, where `none` for the fetcher is nil
  pub with_fetcher : Option (Fetcher F) → Option (Fetcher F) → Option (Fetcher F)
  with_fetcher ctx none = ctx
  with_fetcher ctx (some f) = some f

pub static_key : String → String → String → String
static_key vendor region sku = vendor ++ "/" ++ region ++ "/" ++ sku

module _ (f : Float) where
  open f use {F, mul, lit}

  pub static_rate : String → String → String → Option F → Result F
  static_rate vendor region sku (some rate) = ok rate
  static_rate vendor region sku none = unavailable (no_entry vendor region sku)

  pub static_item : String → String → String → Option F → Result (Item F)
  static_item vendor region sku (some rate) = ok (record {
    vendor = vendor;
    sku = sku;
    region = region;
    usd_per_hour = rate;
    usd_per_month = mul rate (lit 730 1);
    native_currency = "";
    native_amount = lit 0 1;
    fetched_at = none;
  })
  static_item vendor region sku none = unavailable (no_entry vendor region sku)

  pub static_fetcher : Map F → Fetcher F
  unfolding static_key static_rate static_item
  static_fetcher rates = record {
    fetch_item = λ now vendor sku region p.
        (static_item vendor region sku (lookup (static_key vendor region sku) rates), p);
    usd_per_hour_of = λ now vendor region sku p.
        (static_rate vendor region sku (lookup (static_key vendor region sku) rates), p);
  }

module _ {F : Type 0} where
  -- The hourly rate of a fetcher is that of the item that it fetches, after the same changes.
  pub record IsCoherent (x : Fetcher F) : Type 0 where
    pub same_rate :
        (now : ℕ) (vendor region sku : String) (p : Pricing F)
        → x.usd_per_hour_of now vendor region sku p ≡ (
          hourly (x.fetch_item now vendor sku region p).0,
          (x.fetch_item now vendor sku region p).1,
        )

module _ (f : Float) where
  open f use {F}

  static_fetcher-IsCoherent : (rates : Map F) → IsCoherent (static_fetcher f rates)
  unfolding static_fetcher hourly
  static_fetcher-IsCoherent rates = record {
    same_rate = λ now vendor region sku p.
        ap (λ r. (r, p)) (go vendor region sku (lookup (static_key vendor region sku) rates));
  }
    where
      go :
          (vendor region sku : String) (o : Option F)
          → static_rate f vendor region sku o ≡ hourly (static_item f vendor region sku o)
      go vendor region sku none = refl
      go vendor region sku (some rate) = refl

  live_fetcher-IsCoherent : IsCoherent {F = F} live_fetcher
  unfolding live_fetcher
  live_fetcher-IsCoherent = record { same_rate = λ now vendor region sku p. refl }

  -- In a context that was given a static fetcher or none, over one without an override, the
  -- fetcher in force gives as its hourly rate that of the item that it fetches.
  pub fetcher_from-IsCoherent :
      (given : Option (Map F))
      → IsCoherent (fetcher_from (with_fetcher none (Option.map (static_fetcher f) given)))
  unfolding fetcher_from with_fetcher
  fetcher_from-IsCoherent none = live_fetcher-IsCoherent
  fetcher_from-IsCoherent (some rates) = static_fetcher-IsCoherent rates
