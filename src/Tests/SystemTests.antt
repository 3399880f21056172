-- ===== src/Tests/SystemTests.antt =====
-- An upload, a refresh of the directory and a sweep, from an empty data directory; and a sweep that takes
-- an object.
use obsideo_provider.Base.{◌*◌, ◌≡◌, refl, String, true, replicate, arith}
use obsideo_provider.Store.Objects.{is_hex_name}
use obsideo_provider.Gc.Config.{hour}
use obsideo_provider.Api.Upload.{handle_upload}
use obsideo_provider.Directory.Refresh.{refresh_once}
use obsideo_provider.System.Steps.{
  Provider, System, initial, server_of, after_sweep, Reach, upload, refresh_directory,
  collect_garbage, here, step,
}
use obsideo_provider.System.Losses.{IsAccounted, Reach-IsAccounted}
use obsideo_provider.System.Reach.{IsSound, Reach-initial-IsSound}
use obsideo_provider.Tests.Toy.{toy_codec, toy_laws}
use obsideo_provider.Tests.ApiTests as ApiTests
use obsideo_provider.Tests.RequestTests as RequestTests
use obsideo_provider.Tests.GcTests as GcTests
use obsideo_provider.Tests.ChunkedTests.{staging_codec as toy_staging}
use obsideo_provider.Tests.ChallengeTests.{prover as toy_prover}
use obsideo_provider.Tests.DirectoryTests as DirectoryTests

abbrev provider : Provider String
provider = record {
  codec = toy_codec;
  tokens = ApiTests.server.tokens;
  staging_codec = toy_staging;
  delete_codec = RequestTests.codec;
  directory_codec = DirectoryTests.codec;
  prover = toy_prover;
  gc = GcTests.cfg;
  coord_pub_key = replicate 32 1;
  accept_uncontracted_data = true;
}

abbrev started : System
started = initial provider GcTests.no_metrics

abbrev uploaded : System
uploaded = record started {
  disk = (handle_upload (server_of provider started) ApiTests.upload started.disk).1;
}

abbrev refreshed : System
refreshed = record uploaded {
  keys =
      (refresh_once DirectoryTests.codec provider.coord_pub_key DirectoryTests.fetched
        uploaded.keys).1;
}

reached : Reach provider started (after_sweep provider (GcTests.world 9) refreshed)
reached =
    step (step (step here (upload ApiTests.upload)) (refresh_directory DirectoryTests.fetched))
      (collect_garbage (GcTests.world 9))

Reach-initial-IsSound_example : IsSound provider (after_sweep provider (GcTests.world 9) refreshed)
Reach-initial-IsSound_example =
    Reach-initial-IsSound provider toy_laws GcTests.no_metrics
      (after_sweep provider (GcTests.world 9) refreshed) reached

-- A provider with an object in quarantine, a refresh of its directory, and a sweep six hours later.
abbrev waiting : System
waiting = record started { disk = GcTests.quarantined_disk }

abbrev waiting_on : System
waiting_on = record waiting {
  keys =
      (refresh_once DirectoryTests.codec provider.coord_pub_key DirectoryTests.fetched
        waiting.keys).1;
}

swept : Reach provider waiting (after_sweep provider (GcTests.world (6 * hour)) waiting_on)
swept =
    step (step here (refresh_directory DirectoryTests.fetched))
      (collect_garbage (GcTests.world (6 * hour)))

is_object : is_hex_name "ab" ≡ true
unfolding is_hex_name
is_object = refl

Reach-IsAccounted_example :
    IsAccounted provider "ab" 6 waiting (after_sweep provider (GcTests.world (6 * hour)) waiting_on)
Reach-IsAccounted_example =
    Reach-IsAccounted provider "ab" 6 refl (omega arith) (omega arith) is_object waiting
      (after_sweep provider (GcTests.world (6 * hour)) waiting_on) swept GcTests.held_before
      GcTests.held_after
