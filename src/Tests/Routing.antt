-- ===== src/Tests/Routing.antt =====
-- A list route on a request that passes, and on one that is refused.
use tft_stats_analytics.Base.{ℕ, String, ◌≡◌, refl, List, [], ◌∷◌, length, ◌==◌, leb, ◌&&◌}
use tft_stats_analytics.Base.Fixed.{fixed}
use tft_stats_analytics.Base.Int.{pos}
use tft_stats_analytics.Proto.{StatEntry}
use tft_stats_analytics.Api.Security.Params.{Text, Unicode, codes, Result, ok, err, malformed}
use tft_stats_analytics.Api.Service.{Row}
use tft_stats_analytics.Api.Routes.{ScanKey, ScanCache, ListRequest, cleaned, list_route}
use tft_stats_analytics.Api.Routes.Listed.{IsListed, list_route-IsListed}
use tft_stats_analytics.Tests.Samples.{rate_entry}

abbrev plain : Unicode
plain = record {
  is_space = λ c. c == b' ';
  is_word = λ c. leb b'0' c && leb c b'z';
  lower = λ t. t;
}

abbrev text : Text → String
text [] = ""
text (c ∷ t) = "GOLD"

abbrev scan : ℕ → ScanKey → List (StatEntry fixed.F)
scan now key = rate_entry "GOLD" 250 ∷ rate_entry "SILVER" 90 ∷ []

abbrev cold : ScanCache plain text fixed scan
cold = record { ttl = 60; store = [] }

abbrev request : Text → ListRequest plain text fixed scan
request tier = record {
  patch = [];
  region = [];
  tier = tier;
  tier_range = [];
  category = [];
  limit = pos 5000;
}

abbrev count_rows : Result (List (Row fixed.F)) → ℕ
count_rows (ok rows) = length rows
count_rows (err e) = 0

gold_row :
    count_rows (list_route plain text fixed scan "champion" (request (codes "GOLD")) 7 cold).1 ≡ 1
unfolding list_route
gold_row = refl

refused :
    (list_route plain text fixed scan "champion" (request (codes "../")) 7 cold).1 ≡ err malformed
unfolding list_route
refused = refl

abbrev augment_scan : ℕ → ScanKey → List (StatEntry fixed.F)
augment_scan now key = record (rate_entry "GOLD" 90) { entity_type = "augment" } ∷ []

abbrev no_augments : ScanCache plain text fixed augment_scan
no_augments = record { ttl = 60; store = [] }

abbrev gold_augments : ListRequest plain text fixed augment_scan
gold_augments = record {
  patch = [];
  region = [];
  tier = codes "GOLD";
  tier_range = [];
  category = [];
  limit = pos 5000;
}

list_route-IsListed_example :
    IsListed plain text fixed augment_scan "augment"
      (pos 5000)
      7
      no_augments
      (cleaned plain text fixed augment_scan gold_augments)
      (list_route plain text fixed augment_scan "augment" gold_augments 7 no_augments)
list_route-IsListed_example =
    list_route-IsListed plain text fixed augment_scan "augment" gold_augments 7 no_augments
