-- ===== src/Api/DeleteReplay.antt =====
-- What a signed deletion of api/delete.go does to the cache of nonces, and why no deletion is accepted twice.
use obsideo_provider.Base.{
  ◌+◌, ◌<◌, ◌≡◌, ◌≢◌, inl, inr, sym, ap, ◌∙◌, List, [], ◌∷◌, String, false, arith, ok,
}
use obsideo_provider.Base.Time.{Time}
use obsideo_provider.Store.Disk.{Disk, Ownership}
use obsideo_provider.Store.Records.{get_ownership}
use obsideo_provider.Api.Nonces.{
  check, nonce_key, Remembers, check-Remembers, check_replay, check_fresh,
}
use obsideo_provider.Api.Delete.{
  DeleteCodec, Deletion, handle_delete_signed, delete_command_nonce_ttl,
}
use obsideo_provider.Api.DeleteLaws.{
  drifts_lem, handle_delete_cases, finish_cases, handle_delete_signed-IsDeleted,
}

module _ (c : DeleteCodec) where
  -- Serving a deletion forgets no key that is remembered until later.
  handle_delete_signed-Remembers :
      (d : Deletion) (nonces : List (String × Time)) (disk : Disk) (key : String) (end : Time)
      → d.now < end
      → Remembers key end nonces
      → Remembers key end (handle_delete_signed c d nonces disk).1
  handle_delete_signed-Remembers d nonces disk key end early r =
      elim (handle_delete_cases c d nonces disk) [
        | inl (st, p, _) ↦ rw p r
        | inr (own, pl, a, p) ↦
            let kept =
              check-Remembers delete_command_nonce_ttl own.owner_sig_pubkey pl.nonce d.now nonces
                key end early r in
            elim (finish_cases c d nonces disk own pl) [
              | inl (_, q) ↦ rw (p, q) kept
              | inr (_, q) ↦ rw (p, q) kept
            ]
      ]

  -- The cache after requests that are served one after another, each on the disk of its time.
  unfoldable pub nonces_after : List (String × Time) → List (Deletion × Disk) → List (String × Time)
  nonces_after nonces [] = nonces
  nonces_after nonces ((d, disk) ∷ rest) =
      nonces_after (handle_delete_signed c d nonces disk).1 rest

  abbrev pub AllBefore : Time → List (Deletion × Disk) → Type 0
  AllBefore end [] = Unit {0}
  AllBefore end ((d, disk) ∷ rest) = (d.now < end) × AllBefore end rest

  nonces_after-Remembers :
      (key : String) (end : Time) (others : List (Deletion × Disk)) (nonces : List (String × Time))
      → AllBefore end others
      → Remembers key end nonces
      → Remembers key end (nonces_after nonces others)
  unfolding nonces_after
  nonces_after-Remembers key end [] nonces b r = r
  nonces_after-Remembers key end ((d, disk) ∷ rest) nonces b r =
      nonces_after-Remembers key end rest _ b.1
        (handle_delete_signed-Remembers d nonces disk key end b.0 r)

  -- The same signed bytes, for the same object and owner's key, are accepted at most once: after a
  -- deletion that was answered with 200, and any requests before its nonce expires, a second one is
  -- not answered with 200, at whatever time it comes.
  pub delete_no_replay :
      (d again : Deletion) (nonces : List (String × Time)) (disk later : Disk)
      (others : List (Deletion × Disk)) (own own' : Ownership)
      → (handle_delete_signed c d nonces disk).0 ≡ 200
      → AllBefore (d.now + delete_command_nonce_ttl) others
      → again.body ≡ d.body
      → get_ownership d.merkle disk ≡ ok own
      → get_ownership again.merkle later ≡ ok own'
      → own'.owner_sig_pubkey ≡ own.owner_sig_pubkey
      → (handle_delete_signed c again
          (nonces_after (handle_delete_signed c d nonces disk).1 others)
          later).0
        ≢ 200
  delete_no_replay d again nonces disk later others own own' h b same o o' k g =
      let end = d.now + delete_command_nonce_ttl in
      let nonces' = nonces_after (handle_delete_signed c d nonces disk).1 others in
      let first = handle_delete_signed-IsDeleted c d nonces disk h in
      let second = handle_delete_signed-IsDeleted c again nonces' later g in
      let one = first.signed in
      let two = second.signed in
      let own_eq : first.own ≡ own = cc (first.recorded, o) in
      let own_eq' : second.own ≡ own' = cc (second.recorded, o') in
      let keys : second.own.owner_sig_pubkey ≡ first.own.owner_sig_pubkey =
        ap (λ x. x.owner_sig_pubkey) own_eq' ∙ k ∙ sym (ap (λ x. x.owner_sig_pubkey) own_eq) in
      let pl_eq : second.pl ≡ first.pl =
        cc (one.sent, two.sent, same, one.reads, two.reads, one.means, two.means) in
      let time_eq : two.issued_at ≡ one.issued_at = cc (one.dated, two.dated, pl_eq) in
      let key = nonce_key first.own.owner_sig_pubkey first.pl.nonce in
      let early : again.now < end = omega (
        arith,
        drifts_lem d.now one.issued_at one.current,
        drifts_lem again.now two.issued_at two.current,
        time_eq,
      ) in
      let start : Remembers key end (handle_delete_signed c d nonces disk).1 = rw first.remembered (
        check_fresh delete_command_nonce_ttl first.own.owner_sig_pubkey first.pl.nonce d.now nonces
          first.fresh) in
      let still = nonces_after-Remembers key end others _ b start in
      let replay =
        check_replay delete_command_nonce_ttl first.own.owner_sig_pubkey first.pl.nonce again.now
          nonces' end early still in
      let fresh : (check delete_command_nonce_ttl first.own.owner_sig_pubkey first.pl.nonce
            again.now nonces').0
          ≡ false =
        rw (keys, ap (λ x. x.nonce) pl_eq) at second.fresh in
      cc (replay, fresh)
