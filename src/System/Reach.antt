-- ===== src/System/Reach.antt =====
-- What holds in every state that the provider reaches.
use obsideo_provider.Base.{◌≡◌, ap, subst, ◌∙◌, ◌⊎◌, inl, inr, List, [], ◌∷◌, ◌++◌, String}
use obsideo_provider.Base.Dir.{lookup-empty}
use obsideo_provider.Merkle.Codec.{Bytes, CodecLaws}
use obsideo_provider.Merkle.Batch.{Index}
use obsideo_provider.Store.Disk.{File, ObjectFile}
use obsideo_provider.Store.Staging.{tick_staging_sweeper, obj_temp_max_age}
use obsideo_provider.Store.Addressed.{IsAddressed}
use obsideo_provider.Gc.Sweeper.{Metrics}
use obsideo_provider.Api.UploadLaws.{handle_upload-IsAddressed}
use obsideo_provider.Api.FinalizeLaws.{handle_upload_finalize-IsAddressed}
use obsideo_provider.Api.Replicate.{handle_replicate-IsAddressed}
use obsideo_provider.Directory.Refresh.{Fetched, raw_signers, refresh_once}
use obsideo_provider.Directory.Laws.{Among, Listed, IsSigned, refresh_once-IsRefreshed}
use obsideo_provider.System.Within.{Within-IsAddressed}
use obsideo_provider.System.Reclaim.{
  run_once-Within, refresh-Within, handle_delete_signed-Within, sweep_stale_object_temps-Within,
}
use obsideo_provider.System.Steps.{
  Provider, System, initial, server_of, Step, Reach, upload, upload_chunk, finalize, replicate,
  delete, client_challenge, refresh_directory, refresh_coverage, collect_garbage, sweep_leftovers,
  here, step,
}

module _ {Value : Type 0} (p : Provider Value) where
  -- The key is the coordinator's, or it stands in a directory that the coordinator's key has signed.
  abbrev pub Trusted : Bytes → Type 0
  Trusted key =
      (key ≡ p.coord_pub_key)
      ⊎ ((fetched : Fetched) × (envelope : List (String × Value)) × IsSigned p.directory_codec
            p.coord_pub_key fetched envelope
          × Listed p.directory_codec key (raw_signers p.directory_codec envelope))

  -- Every object and index belongs to its name, and every key that may sign tokens is trusted.
  pub record IsSound (σ : System) : Type 0 where
    pub addressed : IsAddressed p.codec σ.disk
    pub trusted : (key : Bytes) → Among key σ.keys → Trusted key

  Among-append :
      (key : Bytes) (xs ys : List Bytes) → Among key (xs ++ ys) → Among key xs ⊎ Among key ys
  Among-append key [] ys h = inr h
  Among-append key (x ∷ xs) ys (inl first) = inl (inl first)
  Among-append key (x ∷ xs) ys (inr behind) = elim (Among-append key xs ys behind) [
    | inl there ↦ inl (inr there)
    | inr there ↦ inr there
  ]

  -- A refresh adds trusted keys only.
  refresh_once-Trusted :
      (keys : List Bytes) (fetched : Fetched)
      → ((key : Bytes) → Among key keys → Trusted key)
      → (key : Bytes) → Among key (refresh_once p.directory_codec p.coord_pub_key fetched keys).1
      → Trusted key
  refresh_once-Trusted keys fetched trusted key among =
      elim (refresh_once-IsRefreshed p.directory_codec p.coord_pub_key fetched keys) [
        | inl (e, same) ↦ trusted key (subst (Among key) (ap (λ r. r.1) same) among)
        | inr (added, keys', same, refreshed) ↦
            let extends = refreshed.extends in
            let split = subst (Among key) (ap (λ r. r.1) same ∙ extends.appended) among in
            elim (Among-append key keys extends.new split) [
              | inl old ↦ trusted key old
              | inr new ↦
                  inr (fetched, refreshed.envelope, refreshed.signed, extends.listed key new)
            ]
      ]

  module _ (laws : CodecLaws p.codec) where
    Step-IsSound : (σ τ : System) → Step p σ τ → IsSound σ → IsSound τ
    unfolding tick_staging_sweeper
    Step-IsSound σ τ (upload u) sound = record {
      addressed = handle_upload-IsAddressed (server_of p σ) u σ.disk laws sound.addressed;
      trusted = sound.trusted;
    }
    Step-IsSound σ τ (upload_chunk u) sound = record {
      addressed = sound.addressed;
      trusted = sound.trusted;
    }
    Step-IsSound σ τ (finalize reads removes u) sound = record {
      addressed =
          handle_upload_finalize-IsAddressed p.staging_codec reads removes (server_of p σ) u σ.disk
            σ.staging laws sound.addressed;
      trusted = sound.trusted;
    }
    Step-IsSound σ τ (replicate r) sound = record {
      addressed = handle_replicate-IsAddressed (server_of p σ) r σ.disk laws sound.addressed;
      trusted = sound.trusted;
    }
    Step-IsSound σ τ (delete d) sound = record {
      addressed =
          Within-IsAddressed p.codec _ σ.disk
            (handle_delete_signed-Within p.delete_codec d σ.nonces σ.disk) sound.addressed;
      trusted = sound.trusted;
    }
    Step-IsSound σ τ (client_challenge r) sound = record {
      addressed = sound.addressed;
      trusted = sound.trusted;
    }
    Step-IsSound σ τ (refresh_directory fetched) sound = record {
      addressed = sound.addressed;
      trusted = refresh_once-Trusted σ.keys fetched sound.trusted;
    }
    Step-IsSound σ τ (refresh_coverage w size) sound = record {
      addressed =
          Within-IsAddressed p.codec _ σ.disk (refresh-Within w size σ.disk) sound.addressed;
      trusted = sound.trusted;
    }
    Step-IsSound σ τ (collect_garbage w) sound = record {
      addressed =
          Within-IsAddressed p.codec _ σ.disk (run_once-Within w p.gc σ.disk σ.metrics)
            sound.addressed;
      trusted = sound.trusted;
    }
    Step-IsSound σ τ (sweep_leftovers lists staging_faults object_faults now later) sound = record {
      addressed =
          Within-IsAddressed p.codec _ σ.disk
            (sweep_stale_object_temps-Within lists.1 object_faults later obj_temp_max_age σ.disk)
            sound.addressed;
      trusted = sound.trusted;
    }

    Reach-IsSound : (σ τ : System) → Reach p σ τ → IsSound σ → IsSound τ
    Reach-IsSound σ τ here sound = sound
    Reach-IsSound σ τ (step {τ = ρ} before last) sound =
        Step-IsSound ρ τ last (Reach-IsSound σ ρ before sound)

    initial-IsSound : (metrics : Metrics) → IsSound (initial p metrics)
    initial-IsSound metrics = record {
      addressed = record {
        live = λ k f e. absurd (cc (e, lookup-empty {A = ObjectFile} k));
        held = λ k f e. absurd (cc (e, lookup-empty {A = ObjectFile} k));
        indexed = λ k idx e. absurd (cc (e, lookup-empty {A = File Index} k));
      };
      trusted = λ key among. elim among [ inl seed ↦ inl seed | inr out ↦ absurd out ];
    }

    -- Whatever is requested, fetched and swept, in whatever order and with whatever faults: from an empty
    -- data directory on, the bytes that are read under a name have that name for their Merkle root, and
    -- so has whatever waits in quarantine; every index belongs to its name; and every key that may sign
    -- tokens is the coordinator's, or stands in a directory that the coordinator's key has signed.
    pub Reach-initial-IsSound :
        (metrics : Metrics) (σ : System) → Reach p (initial p metrics) σ → IsSound σ
    Reach-initial-IsSound metrics σ reach =
        Reach-IsSound (initial p metrics) σ reach (initial-IsSound metrics)
