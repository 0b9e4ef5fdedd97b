-- ===== src/Tests/RaTests.antt =====
-- The theorems about internal/ra applied to a sample advertiser.
use unifi_6in.Prelude.{
  ℕ, suc, ◌+◌, ◌<◌, ◌≡◌, refl, pos, List, [], ◌∷◌, Bool, false, not, ◌&&◌, ◌||◌, nat_eq, arith,
  Bool-cases, inl, inr, if◌then◌else◌,
}
use unifi_6in.Errors.{ok}
use unifi_6in.Ra.{
  Advertiser, AdvertiserConfig, Interface, RaPlatform, new_advertiser, open_conns, stop,
}
use unifi_6in.Ra.Connections.{Handles, keeps_open, is_open-new_advertiser}
use unifi_6in.Tests.Fixtures.{sample_ra, sample_addr, empty_disk}

abbrev sample_interface : Interface
sample_interface = record {
  name = "br0";
  hardware_addr = 2 ∷ 0 ∷ 0 ∷ 0 ∷ 0 ∷ 1 ∷ [];
  mtu = pos 1500;
}

-- the handles that are open
sum : List ℕ → ℕ
sum [] = 0
sum (k ∷ ks) = k + sum ks

is_among : List ℕ → ℕ → Bool
is_among [] k = false
is_among (h ∷ hs) k = nat_eq k h || is_among hs k

without : ℕ → List ℕ → List ℕ
without conn [] = []
without conn (h ∷ hs) = let rest = without conn hs in if nat_eq h conn then rest else h ∷ rest

-- a machine with every interface, on which listening gives a handle that is not open
abbrev handle_ra : RaPlatform (List ℕ)
handle_ra = record {
  interface_by_name = λ name hs. (ok (record sample_interface { name = name }), hs);
  listen = λ _ hs. (ok (suc (sum hs)), suc (sum hs) ∷ hs);
  close = λ conn hs. without conn hs;
  quote = λ s. s;
}

is_among-above : (hs : List ℕ) (k : ℕ) → sum hs < k → is_among hs k ≡ false
unfolding sum is_among
is_among-above [] k h = refl
is_among-above (x ∷ hs) k h = ground (arith, is_among-above hs k (omega arith))

is_among-fresh : (hs : List ℕ) (k : ℕ) → is_among hs k && nat_eq k (suc (sum hs)) ≡ false
is_among-fresh hs k = elim (Bool-cases (nat_eq k (suc (sum hs)))) [
  | inl same ↦ ground (arith, is_among-above hs k (ground arith))
  | inr other ↦ ground arith
]

is_among-without :
    (conn : ℕ) (hs : List ℕ) (k : ℕ)
    → is_among (without conn hs) k ≡ is_among hs k && not (nat_eq k conn)
unfolding is_among without
is_among-without conn [] k = refl
is_among-without conn (h ∷ hs) k = ground (arith, is_among-without conn hs k)

is_among-cons : (h : ℕ) (hs : List ℕ) (k : ℕ) → is_among (h ∷ hs) k ≡ is_among hs k || nat_eq k h
unfolding is_among
is_among-cons h hs k = ground arith

abbrev sample_handles : Handles handle_ra
sample_handles = record {
  is_open = is_among;
  after_lookup = λ name hs k. refl;
  after_listen = λ iface hs k. is_among-cons (suc (sum hs)) hs k;
  fresh = λ iface hs k. is_among-fresh hs k;
  after_close = λ conn hs k. is_among-without conn hs k;
}

-- two networks
abbrev sample_cfg : AdvertiserConfig
sample_cfg = record {
  networks =
      record { interface = "br0"; prefix = record { addr = sample_addr; bits = 64 } }
      ∷ record { interface = "br1"; prefix = record { addr = sample_addr; bits = 64 } }
      ∷ [];
  dns = sample_addr ∷ [];
  interval = 10;
  tunnel_mtu = pos 1480;
}

is_open-new_advertiser_example :
    let (started, hs) = new_advertiser handle_ra sample_cfg (7 ∷ []) in
    (is_among hs 8 ≡ is_among (7 ∷ []) 8 || keeps_open started 8)
    × (is_among (7 ∷ []) 8 && keeps_open started 8 ≡ false)
    × ((a : Advertiser) → started ≡ ok a → is_among (stop handle_ra a hs) 8 ≡ is_among (7 ∷ []) 8)
is_open-new_advertiser_example =
    is_open-new_advertiser handle_ra sample_handles sample_cfg (7 ∷ []) 8

-- the advertiser of the sample networks
abbrev sample_advertiser : Advertiser
sample_advertiser = record {
  conns =
      record {
        conn = 0;
        iface = sample_interface;
        prefix = record { addr = sample_addr; bits = 64 };
      }
      ∷ record {
        conn = 1;
        iface = record sample_interface { name = "br1" };
        prefix = record { addr = sample_addr; bits = 64 };
      }
      ∷ [];
  dns = sample_addr ∷ [];
  tunnel_mtu = pos 1480;
  interval = 10;
}

sample_started : (new_advertiser sample_ra sample_cfg empty_disk).0 ≡ ok sample_advertiser
unfolding new_advertiser open_conns
sample_started = refl
