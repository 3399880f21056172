-- ===== src/System/Losses.antt =====
-- How an object can be lost, in a whole run of the provider.
use obsideo_provider.Base.{
  ℕ, ◌<◌, ◌≤◌, ◌≡◌, ◌⊎◌, refl, ap, inl, inr, String, true, false, arith, ◌==◌, str_eq, eq_iff,
  Bool-cases,
}
use obsideo_provider.Base.Int.{pos}
use obsideo_provider.Base.Dir.{has}
use obsideo_provider.Store.Objects.{is_hex_name}
use obsideo_provider.Store.Staging.{tick_staging_sweeper, obj_temp_max_age}
use obsideo_provider.Gc.Config.{max_hours}
use obsideo_provider.Gc.Quarantine.{list_quarantined}
use obsideo_provider.Gc.Sweeper.{World}
use obsideo_provider.Gc.Steps.{held}
use obsideo_provider.Gc.Safety.{AnyExpired, run_once-Expired}
use obsideo_provider.Api.Delete.{Deletion, handle_delete_signed}
use obsideo_provider.Api.DeleteLaws.{
  IsDeleted, handle_delete_signed-IsDeleted, handle_delete_signed_refused,
}
use obsideo_provider.System.Keeping.{
  handle_upload-Keeps, handle_upload_finalize-Keeps, handle_replicate-Keeps, refresh-Keeps,
  delete-Keeps, sweep_stale_object_temps-Keeps,
}
use obsideo_provider.System.Steps.{
  Provider, System, server_of, after_delete, after_sweep, Step, Reach, upload, upload_chunk,
  finalize, replicate, delete, client_challenge, refresh_directory, refresh_coverage,
  collect_garbage, sweep_leftovers, here, step,
}

module _ {Value : Type 0} (p : Provider Value) (m : String) where
  -- The step is the owner's signed deletion of the object.
  pub record Deleted (σ τ : System) : Type 0 where
    pub request : Deletion
    pub named : request.merkle ≡ m
    pub answered : (handle_delete_signed p.delete_codec request σ.nonces σ.disk).0 ≡ 200
    pub done : IsDeleted p.delete_codec request σ.nonces σ.disk
    pub taken : τ ≡ after_delete p request σ

  -- The step is a sweep that finds the object in quarantine alone, under an entry h hours old, and is
  -- told that it may be reclaimed.
  pub record Reclaimed (h : ℕ) (σ τ : System) : Type 0 where
    pub world : World
    pub expired : AnyExpired world p.gc m h (list_quarantined world.entry_stats σ.disk)
    pub not_live : has m σ.disk.objects ≡ false
    pub taken : τ ≡ after_sweep p world σ

  abbrev pub Cause : ℕ → System → System → Type 0
  Cause h σ τ = Deleted σ τ ⊎ Reclaimed h σ τ

  -- Between the two states there is a step, one of the two, before which the object was there and after
  -- which it was not.
  pub record IsAccounted (h : ℕ) (σ υ : System) : Type 0 where
    pub last_with : System
    pub first_without : System
    pub before : Reach p σ last_with
    pub still_there : held m last_with.disk ≡ true
    pub cause : Cause h last_with first_without
    pub lost : held m first_without.disk ≡ false
    pub after : Reach p first_without υ

  module _ (h : ℕ) (set_hours : p.gc.quarantine_hours ≡ pos h) (pos_hours : 0 < h)
      (fits : h ≤ max_hours) (hex : is_hex_name m ≡ true) where
    delete-Cause :
        (d : Deletion) (σ : System)
        → held m σ.disk ≡ true
        → held m (handle_delete_signed p.delete_codec d σ.nonces σ.disk).2 ≡ false
        → Deleted σ (after_delete p d σ)
    delete-Cause d σ there gone =
        let r = handle_delete_signed p.delete_codec d σ.nonces σ.disk in
        elim (Bool-cases (r.0 == 200)) [
          | inr refused ↦
              let same : r.2 ≡ σ.disk =
                handle_delete_signed_refused p.delete_codec d σ.nonces σ.disk
                  (λ e. absurd (ground (arith, refused, e))) in
              absurd (cc (there, gone, ap (held m) same))
          | inl done ↦
              let deleted =
                handle_delete_signed-IsDeleted p.delete_codec d σ.nonces σ.disk
                  (ground (arith, done)) in
              elim (Bool-cases (str_eq d.merkle m)) [
                | inl this ↦ record {
                  request = d;
                  named = (eq_iff d.merkle m).0 this;
                  answered = ground (arith, done);
                  done = deleted;
                  taken = refl;
                }
                | inr other ↦ absurd (
                    cc (
                      gone,
                      ap (held m) deleted.deleted,
                      delete-Keeps m d.removes d.merkle σ.disk other there,
                    ))
              ]
        ]

    -- The one step at which the object goes.
    Step-Cause :
        (σ τ : System) → Step p σ τ → held m σ.disk ≡ true → held m τ.disk ≡ false → Cause h σ τ
    unfolding tick_staging_sweeper
    Step-Cause σ τ (upload u) there gone =
        absurd (cc (gone, handle_upload-Keeps m (server_of p σ) u σ.disk there))
    Step-Cause σ τ (upload_chunk u) there gone = absurd (cc (there, gone))
    Step-Cause σ τ (finalize reads removes u) there gone = absurd (
        cc (
          gone,
          handle_upload_finalize-Keeps m p.staging_codec reads removes (server_of p σ) u σ.disk
              σ.staging there,
        ))
    Step-Cause σ τ (replicate r) there gone =
        absurd (cc (gone, handle_replicate-Keeps m (server_of p σ) r σ.disk there))
    Step-Cause σ τ (delete d) there gone = inl (delete-Cause d σ there gone)
    Step-Cause σ τ (client_challenge r) there gone = absurd (cc (there, gone))
    Step-Cause σ τ (refresh_directory fetched) there gone = absurd (cc (there, gone))
    Step-Cause σ τ (refresh_coverage w size) there gone =
        absurd (cc (gone, refresh-Keeps m w size σ.disk there))
    Step-Cause σ τ (collect_garbage w) there gone =
        let (expired, not_live) =
          run_once-Expired w p.gc m h set_hours pos_hours fits σ.disk σ.metrics there gone in
        inr (record { world = w; expired = expired; not_live = not_live; taken = refl })
    Step-Cause σ τ (sweep_leftovers lists staging_faults object_faults now later) there gone =
        absurd (
          cc (
            gone,
            sweep_stale_object_temps-Keeps m lists.1 object_faults later obj_temp_max_age σ.disk hex
                there,
          ))

    -- With a quarantine of h hours, 1 to 2562047: if an object, named by hexadecimal digits, is on the disk
    -- in one state, live or in quarantine, and nowhere in a later one, whatever was requested, fetched and
    -- swept between them, in whatever order and with whatever faults, then one step between them took it:
    -- its recorded owner's signed deletion of it, answered with 200, or a sweep that found it in quarantine
    -- alone, under an entry at least h hours old, and was told that it may be reclaimed.
    pub Reach-IsAccounted :
        (σ υ : System)
        → Reach p σ υ
        → held m σ.disk ≡ true
        → held m υ.disk ≡ false
        → IsAccounted h σ υ
    Reach-IsAccounted σ υ here there gone = absurd (cc (there, gone))
    Reach-IsAccounted σ υ (step {τ = ρ} before last) there gone =
        elim (Bool-cases (held m ρ.disk)) [
          | inl still ↦ record {
            last_with = ρ;
            first_without = υ;
            before = before;
            still_there = still;
            cause = Step-Cause ρ υ last still gone;
            lost = gone;
            after = here;
          }
          | inr lost ↦
              let earlier = Reach-IsAccounted σ ρ before there lost in
              record {
                last_with = earlier.last_with;
                first_without = earlier.first_without;
                before = earlier.before;
                still_there = earlier.still_there;
                cause = earlier.cause;
                lost = earlier.lost;
                after = step earlier.after last;
              }
        ]
