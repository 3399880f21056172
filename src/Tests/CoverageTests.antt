-- ===== src/Tests/CoverageTests.antt =====
-- A query with one failed attempt, and a refresh of one object.
use obsideo_provider.Base.{
  arith, ℕ, zero, suc, ◌+◌, ◌≡◌, refl, none, some, [], ◌∷◌, true, false, String, Result, ok, err,
  length,
}
use obsideo_provider.Store.Disk.{Disk, empty_disk}
use obsideo_provider.Store.Objects.{list}
use obsideo_provider.Gc.Recheck.{QueryError, message}
use obsideo_provider.Coverage.Client.{Response, Attempts, query_loop, query_roots}
use obsideo_provider.Coverage.Refresher.{Coordinator, refresh}
use obsideo_provider.Coverage.PassLaws.{Outcome, refresh-Outcome}
use obsideo_provider.Coverage.RefresherLaws.{Asks}
use obsideo_provider.Base.Int.{pos}
use obsideo_provider.Base.Dir.{lookup}
use obsideo_provider.Gc.Recheck.{
  RootStatus, reclaimable, recheck_answer, may_reclaim, coord_sent_reclaimable,
}
use obsideo_provider.Coverage.Exchange.{
  ClientCodec, Exchange, responded, new_client, default_client, backoff_duration, do_once,
  ask_roots, live_recheck,
}
use obsideo_provider.Coverage.ExchangeLaws.{IsAnswer, live_recheck-reclaimable, backoff_duration-eq}

abbrev answer : Response
answer =
    (
      "ab",
      record {
        status = "covered";
        reclaimable = some false;
        contracted = true;
        until = "";
        reason = "";
      },
    )
    ∷ []

abbrev second_succeeds : ℕ → Result QueryError Response
second_succeeds zero = err (message "coord 503: ")
second_succeeds (suc n) = ok answer

abbrev attempts : Attempts
attempts = record { once = second_succeeds; stopped = λ _. none }

answered : query_roots 3 attempts ("ab" ∷ []) ≡ ok answer
unfolding query_roots query_loop
answered = refl

abbrev coordinator : Coordinator
coordinator = record { ask = λ _. ok answer; now = λ _. 5; writes = λ _. true }

abbrev disk : Disk
disk = record empty_disk { objects = ("ab", record { contents = 1 ∷ []; mtime = 0 }) ∷ [] }

refresh-Outcome_example :
    ((m : String)
      → Asks m (list disk)
      → Outcome coordinator (list disk) m disk (refresh coordinator 0 disk).disk)
    × ((refresh coordinator 0 disk).updated + (refresh coordinator 0 disk).failed
        ≡ length (list disk))
refresh-Outcome_example = refresh-Outcome coordinator 0 disk

-- A coordinator that releases the root that is asked about.
abbrev released : Response
released =
    (
      "ab",
      record {
        status = "uncovered";
        reclaimable = some true;
        contracted = false;
        until = "";
        reason = "";
      },
    )
    ∷ []

abbrev client_codec : ClientCodec
client_codec = record { itoa = λ _. "200"; unmarshal = λ _. ok released }

abbrev exchanges : ℕ → Exchange
exchanges _ = responded 200 "body" none

rechecked :
    live_recheck client_codec (λ s. s) "https://c.example" "key" exchanges (λ _. none) "ab"
    ≡ reclaimable
unfolding live_recheck ask_roots default_client new_client query_roots query_loop do_once
    recheck_answer may_reclaim coord_sent_reclaimable lookup
rechecked = refl

live_recheck-reclaimable_example :
    (resp : Response) × (rs : RootStatus) × IsAnswer client_codec (exchanges 0) resp
    × (lookup "ab" resp ≡ some rs)
    × (rs.reclaimable ≡ some true)
live_recheck-reclaimable_example =
    live_recheck-reclaimable client_codec (λ s. s) "https://c.example" "key" exchanges (λ _. none)
      "ab" rechecked

backoff_duration-eq_example :
    backoff_duration (new_client (λ s. s) "https://c.example" "key") 7 ≡ pos 30000000000
unfolding new_client
backoff_duration-eq_example =
    backoff_duration-eq (new_client (λ s. s) "https://c.example" "key") 1000000000 30000000000 6
      refl refl (omega arith) (omega arith)
