-- ===== src/Tests/StagingTests.antt =====
-- A sweep of one old and one new upload.
use obsideo_provider.Base.{◌≡◌, refl, none, [], ◌∷◌, true}
use obsideo_provider.Base.Dir.{lookup}
use obsideo_provider.Store.Objects.{is_hex_name}
use obsideo_provider.Store.Staging.{Staging, no_fault, sweep_stale_staging, staging_max_age}
use obsideo_provider.Store.StagingLaws.{remnant, sweep_stale_staging_exact}

abbrev staging : Staging
staging =
    ("ab", record { files = []; mtime = 5 })
    ∷ ("cd", record { files = []; mtime = 3600000000100 })
    ∷ []

sweep_stale_staging_exact_example :
    lookup "ab" (sweep_stale_staging true (λ _. no_fault) 3600000000200 staging_max_age staging).1
    ≡ remnant (λ d. d.mtime) is_hex_name 3600000000200 staging_max_age "ab" (lookup "ab" staging)
sweep_stale_staging_exact_example =
    sweep_stale_staging_exact 3600000000200 staging_max_age staging "ab"

-- The old one is gone.
old_one :
    remnant (λ d. d.mtime) is_hex_name 3600000000200 staging_max_age "ab" (lookup "ab" staging)
    ≡ none
unfolding lookup is_hex_name
old_one = refl
