-- ===== src/Api/OwnershipLaws.antt =====
-- What `record_ownership` leaves as it was, for the handlers that end with it.
use obsideo_provider.Base.{ℕ, ◌≡◌, ◌⊎◌, some, List, String, Bool, arith, eq_iff}
use obsideo_provider.Base.Time.{Time}
use obsideo_provider.Base.Dir.{lookup, lookup-insert}
use obsideo_provider.Merkle.Codec.{Codec}
use obsideo_provider.Store.Disk.{Disk, File, Ownership}
use obsideo_provider.Store.Records.{put_ownership}
use obsideo_provider.Store.Addressed.{IsAddressed, IsStored}
use obsideo_provider.Api.Tokens.{Claims}
use obsideo_provider.Api.Upload.{Upload, record_ownership}

-- Recording the owner leaves objects, quarantine and indices, and no owner that is recorded.
pub record OnlyOwnership (a b : Disk) : Type 0 where
  pub objects : a.objects ≡ b.objects
  pub quarantine : a.quarantine ≡ b.quarantine
  pub index : a.index ≡ b.index
  pub kept :
      (k : String) (o : File Ownership)
      → lookup k b.ownership ≡ some o
      → lookup k a.ownership ≡ some o

pub put_ownership-OnlyOwnership :
    (writes chmods : Bool) (merkle : String) (own : Ownership) (disk : Disk)
    → OnlyOwnership (put_ownership writes chmods merkle own disk).1 disk
unfolding put_ownership
put_ownership-OnlyOwnership writes chmods merkle own disk = record {
  objects = ground arith;
  quarantine = ground arith;
  index = ground arith;
  kept = λ k o h. grind (arith, lookup-insert, eq_iff);
}

pub record_ownership-OnlyOwnership :
    (u : Upload) (claims : Claims) (disk : Disk)
    → OnlyOwnership (record_ownership u claims disk).1 disk
unfolding record_ownership
record_ownership-OnlyOwnership u claims disk =
    let own : Ownership = record {
      owner_pubkey = claims.owner_pubkey;
      owner_sig_pubkey = claims.owner_sig_pubkey;
      received_at = u.now;
    } in
    let only =
      put_ownership-OnlyOwnership u.writes_ownership u.chmods_ownership u.merkle own disk in
    record {
      objects = ground (arith, only.objects);
      quarantine = ground (arith, only.quarantine);
      index = ground (arith, only.index);
      kept = λ k o h. ground (arith, only.kept k o h);
    }

-- What is known of objects, indices and quarantine does not depend on the owners.
pub OnlyOwnership-IsStored :
    (c : Codec) (now : Time) (root : String) (bytes : List ℕ) (a b : Disk)
    → OnlyOwnership a b
    → IsStored c now root bytes b
    → IsStored c now root bytes a
OnlyOwnership-IsStored c now root bytes a b only stored = record {
  hashes = stored.hashes;
  has_root = stored.has_root;
  object = rw only.objects stored.object;
  index = rw only.index stored.index;
}

pub OnlyOwnership-IsAddressed :
    (c : Codec) (a b : Disk) → OnlyOwnership a b → IsAddressed c b → IsAddressed c a
OnlyOwnership-IsAddressed c a b only valid = record {
  live = rw only.objects valid.live;
  held = rw only.quarantine valid.held;
  indexed = rw only.index valid.indexed;
}

pub record_ownership_status :
    (u : Upload) (claims : Claims) (disk : Disk)
    → ((record_ownership u claims disk).0 ≡ 200) ⊎ ((record_ownership u claims disk).0 ≡ 500)
unfolding record_ownership put_ownership
record_ownership_status u claims disk = ground arith
