-- ===== src/Pricing/Examples.antt =====
-- The theorems about pricing at concrete inputs: prices are numbers, a vendor's API answers 5 for
-- every SKU at a time before 100 and is out of reach later.
use yage.Prelude.{
  arith, ℕ, String, true, false, ltb, if◌then◌else◌, none, some, List, [], ◌∷◌, Map, lookup, insert,
  ◌≡◌, refl,
}
use yage.Float.Thousandths.{Amount}
use yage.Pricing.{
  Item, ok, unavailable, VendorFetcher, Pricing, PriceError, cache_path, is_stale, fetch,
  fetch_many,
}
use yage.Pricing.Cache.{IsKeyed, path_of, fetch-IsKeyed, fetch-again}

abbrev answer : Item ℕ
answer = record {
  vendor = "";
  sku = "";
  region = "";
  usd_per_hour = 5;
  usd_per_month = 3650;
  native_currency = "USD";
  native_amount = 0;
  fetched_at = none;
}

abbrev api : VendorFetcher ℕ
api now sku region = if ltb now 100 then some answer else none

abbrev start : Pricing ℕ
start = record {
  fetchers = ("aws", api) ∷ [];
  disabled = false;
  airgapped = false;
  cache = [];
  writable = λ it. true;
}

start-IsKeyed : IsKeyed start.cache
unfolding lookup
start-IsKeyed = record { keyed = λ k it h. absurd (ground (arith, h)) }

abbrev stamped : Item ℕ
stamped = record answer {
  vendor = "aws";
  sku = "t3.medium";
  region = "us-east-1";
  fetched_at = some 10;
}

first_fetch : (fetch 10 "aws" "t3.medium" "us-east-1" start).0 ≡ ok stamped
unfolding fetch lookup
first_fetch = refl

fetch-IsKeyed_example :
    let out = fetch 10 "aws" "t3.medium" "us-east-1" start in
    IsKeyed out.1.cache
    × ((it : Item ℕ) → out.0 ≡ ok it → path_of it ≡ cache_path "aws" "t3.medium" "us-east-1")
    × ((e : PriceError) → out.0 ≡ unavailable e → out.1 ≡ start)
fetch-IsKeyed_example = fetch-IsKeyed 10 "aws" "t3.medium" "us-east-1" start start-IsKeyed

fetch-again_example :
    let p' = record (fetch 10 "aws" "t3.medium" "us-east-1" start).1 { fetchers = [] } in
    fetch 1_000 "aws" "t3.medium" "us-east-1" p' ≡ (ok stamped, p')
unfolding is_stale
fetch-again_example =
    fetch-again 10 1_000 "aws" "t3.medium" "us-east-1" start stamped [] first_fetch refl refl

abbrev two_queries : List (ℕ × (String × String))
two_queries = (10, ("t3.medium", "us-east-1")) ∷ (20, ("t3.large", "eu-west-1")) ∷ []

abbrev two_items : List (Item ℕ)
two_items =
    stamped ∷ record stamped { sku = "t3.large"; region = "eu-west-1"; fetched_at = some 20 } ∷ []

both_found : (fetch_many "aws" two_queries start).0 ≡ ok two_items
unfolding fetch_many lookup insert cache_path
both_found = refl

abbrev rates : Map Amount
rates = ("aws/us-east-1/t3.medium", some 41) ∷ []
