-- ===== src/Error/Runs.antt =====
-- Examples of the search for an error's text.
use openstar_ads.Common.{ℕ, ◌≡◌, refl}
use openstar_ads.Error.{Result, err, ads}
use openstar_ads.Error.Search.{ads_error, ads_error_lem, known_text}

known_text_1808 : known_text openstar_ads.Error.Table.ads_errors 1808 ≡ "Symbol not found"
unfolding known_text
known_text_1808 = refl

ads_error_lem_example :
    ads_error {A = ℕ} "read" 1808
    ≡ err (ads "read" (known_text openstar_ads.Error.Table.ads_errors 1808) 1808)
ads_error_lem_example = ads_error_lem {A = ℕ} "read" 1808
