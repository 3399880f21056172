-- ===== src/System/Steps.antt =====
-- The state of the provider, which cmd/start.go sets up, and the steps that requests, timers and the
-- coordinator make it take. A lock or a rename makes each a step of its own; they come in any order.
use obsideo_provider.Base.{ℕ, List, [], ◌∷◌, String, Bool}
use obsideo_provider.Base.Time.{Time}
use obsideo_provider.Merkle.Codec.{Bytes, Codec}
use obsideo_provider.Store.Disk.{Disk, empty_disk}
use obsideo_provider.Store.Staging.{Staging, SweepFault, tick_staging_sweeper}
use obsideo_provider.Gc.Config.{Config}
use obsideo_provider.Gc.Sweeper.{World, Metrics, run_once}
use obsideo_provider.Coverage.Refresher.{Coordinator, refresh}
use obsideo_provider.Api.Tokens.{TokenCodec}
use obsideo_provider.Api.Upload.{Server, Upload, handle_upload}
use obsideo_provider.Api.Delete.{DeleteCodec, Deletion, handle_delete_signed}
use obsideo_provider.Api.Chunked.{
  StagingCodec, ChunkUpload, handle_upload_chunk, handle_upload_finalize,
}
use obsideo_provider.Api.Replicate.{Replication, handle_replicate}
use obsideo_provider.Api.Challenge.{Prover}
use obsideo_provider.Api.RateLimit.{ChallengeRateLimiter, new_challenge_rate_limiter}
use obsideo_provider.Api.ClientChallenge.{ClientRequest, handle_client_challenge}
use obsideo_provider.Directory.Refresh.{DirectoryCodec, Fetched, refresh_once}

-- What is fixed when the process starts.
pub record Provider (Value : Type 0) : Type 0 where
  pub codec : Codec
  pub tokens : TokenCodec
  pub staging_codec : StagingCodec
  pub delete_codec : DeleteCodec
  pub directory_codec : DirectoryCodec Value
  pub prover : Prover
  pub gc : Config
  pub coord_pub_key : Bytes
  pub accept_uncontracted_data : Bool

-- The data directory, and what the process keeps in memory.
pub record System : Type 0 where
  pub disk : Disk
  pub staging : Staging
  pub keys : List Bytes
  pub nonces : List (String × Time)
  pub limiter : ChallengeRateLimiter
  pub metrics : Metrics

-- A fresh process over an empty data directory; the key of the coordinator is the first.
abbrev pub initial : {Value : Type 0} → Provider Value → Metrics → System
initial p metrics = record {
  disk = empty_disk;
  staging = [];
  keys = p.coord_pub_key ∷ [];
  nonces = [];
  limiter = new_challenge_rate_limiter;
  metrics = metrics;
}

module _ {Value : Type 0} (p : Provider Value) where
  abbrev pub server_of : System → Server
  server_of σ = record {
    codec = p.codec;
    tokens = p.tokens;
    keys = σ.keys;
    accept_uncontracted_data = p.accept_uncontracted_data;
  }

  abbrev pub after_finalize : Bool → Bool → Upload → System → System
  after_finalize reads removes u σ =
      let r =
        handle_upload_finalize p.staging_codec reads removes (server_of σ) u σ.disk σ.staging in
      record σ { disk = r.1; staging = r.2 }

  abbrev pub after_delete : Deletion → System → System
  after_delete d σ =
      let r = handle_delete_signed p.delete_codec d σ.nonces σ.disk in
      record σ { nonces = r.1; disk = r.2 }

  abbrev pub after_tick :
      (Bool × Bool) → (String → SweepFault) → (String → SweepFault) → Time → Time → System → System
  after_tick lists staging_faults object_faults now later σ =
      let r =
        tick_staging_sweeper lists.0 lists.1 staging_faults object_faults now later
          (σ.staging, σ.disk) in
      record σ { staging = r.0; disk = r.1 }

  abbrev pub after_sweep : World → System → System
  after_sweep w σ =
      let r = (run_once w p.gc σ.disk σ.metrics).1 in
      record σ { disk = r.disk; metrics = r.metrics }

  -- One step, with whatever is requested and whatever fails.
  pub data Step : System → System → Type 0 where
    upload :
        {σ : System} (u : Upload)
        → Step σ (record σ { disk = (handle_upload (server_of σ) u σ.disk).1 })
    upload_chunk :
        {σ : System} (u : ChunkUpload)
        → Step σ (record σ {
          staging = (handle_upload_chunk p.staging_codec p.tokens σ.keys u σ.staging).1;
        })
    finalize :
        {σ : System} (reads removes : Bool) (u : Upload) → Step σ (after_finalize reads removes u σ)
    replicate :
        {σ : System} (r : Replication)
        → Step σ (record σ { disk = (handle_replicate (server_of σ) r σ.disk).1 })
    delete : {σ : System} (d : Deletion) → Step σ (after_delete d σ)
    client_challenge :
        {σ : System} (r : ClientRequest)
        → Step σ (record σ {
          limiter = (handle_client_challenge p.prover p.tokens σ.keys r σ.limiter σ.disk).1;
        })
    refresh_directory :
        {σ : System} (fetched : Fetched)
        → Step σ
            (record σ { keys = (refresh_once p.directory_codec p.coord_pub_key fetched σ.keys).1 })
    refresh_coverage :
        {σ : System} (w : Coordinator) (batch_size : ℕ)
        → Step σ (record σ { disk = (refresh w batch_size σ.disk).disk })
    collect_garbage : {σ : System} (w : World) → Step σ (after_sweep w σ)
    sweep_leftovers :
        {σ : System} (lists : Bool × Bool) (staging_faults object_faults : String → SweepFault)
        (now later : Time)
        → Step σ (after_tick lists staging_faults object_faults now later σ)

  -- Any number of steps.
  pub data Reach (σ : System) : System → Type 0 where
    here : Reach σ σ
    step : {τ υ : System} → Reach σ τ → Step τ υ → Reach σ υ
