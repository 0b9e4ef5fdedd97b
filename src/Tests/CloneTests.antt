-- ===== src/Tests/CloneTests.antt =====
-- The theorem about Clone of internal/config/config.go applied to a document with one profile.
use unifi_6in.Prelude.{ℕ, ◌≤◌, ◌<◌, ◌≡◌, true, [], ◌∷◌, arith, nat_eq, if◌then◌else◌}
use unifi_6in.Heap.{Heap}
use unifi_6in.Config.Clone.{
  LanRef, ProfileRef, DocumentRef, Cell, strings, networks, profiles, document_view, clone_document,
}
use unifi_6in.Config.Clone.Independence.{clone_document-IsDeep}
use unifi_6in.Tests.Fixtures.{sample_tunnel, sample_health, sample_server}

-- the networks are array 1, the profiles array 2, and the other slices share the empty array 0
abbrev lan_ref : LanRef
lan_ref = record { enabled = true; dns = 0; mode = "slaac"; networks = 1 }

abbrev profile_ref : ProfileRef
profile_ref = record {
  id = "home";
  name = "Home";
  config = record { tunnel = sample_tunnel; lan = lan_ref; health = sample_health };
  is_valid = true;
  validation_errors = 0;
}

abbrev document_ref : DocumentRef
document_ref = record {
  storage_format = "profiles";
  tunnel_enabled = true;
  active_profile_id = "home";
  profiles = 2;
  server = sample_server;
}

abbrev sample_heap : Heap Cell
sample_heap = record {
  next = 3;
  cell = λ a.
      if nat_eq a 1
      then networks (record { interface = "br0"; prefix = "2001:db8:1::/64"; comment = "" } ∷ [])
      else if nat_eq a 2
      then profiles (profile_ref ∷ [])
      else strings [];
}

clone_document-IsDeep_example :
    ((cell : ℕ → Cell)
      → ((a : ℕ) → 3 ≤ a → cell a ≡ (clone_document document_ref sample_heap).1.cell a)
      → document_view cell (clone_document document_ref sample_heap).0
        ≡ document_view sample_heap.cell document_ref)
    × ((cell : ℕ → Cell)
        → ((a : ℕ) → a < 3 → cell a ≡ (clone_document document_ref sample_heap).1.cell a)
        → document_view cell document_ref ≡ document_view sample_heap.cell document_ref)
clone_document-IsDeep_example =
    clone_document-IsDeep document_ref sample_heap
      (omega arith, ((((omega arith, omega arith), omega arith)), tt))
