-- ===== src/Ra/Message.antt =====
-- What the Router Advertisement of internal/ra/advertiser.go announces.
use mathlib.Core.List.{append-nil}
use unifi_6in.Prelude.{
  Bool, if◌then◌else◌, ap, ◌*◌, ℕ, ◌^◌, ◌<◌, ◌≡◌, refl, ℤ, pos, Option, some, List, [], ◌∷◌, ◌++◌,
  arith, is_positive, false,
}
use unifi_6in.Net.{Addr, Prefix}
use unifi_6in.Ra.{
  Interface, RaOption, mtu, source_link_layer, prefix_information, recursive_dns, link_layer_option,
  mtu_option, build_ra,
}

-- the MTUs that a list of options announces
abbrev pub mtus : List RaOption → List ℕ
mtus [] = []
mtus (mtu n ∷ os) = n ∷ mtus os
mtus (source_link_layer _ ∷ os) = mtus os
mtus (prefix_information _ _ _ _ _ _ ∷ os) = mtus os
mtus (recursive_dns _ _ ∷ os) = mtus os

mtus-append : (xs ys : List RaOption) → mtus (xs ++ ys) ≡ mtus xs ++ mtus ys
mtus-append [] ys = refl
mtus-append (mtu n ∷ xs) ys = ap (λ ns. n ∷ ns) (mtus-append xs ys)
mtus-append (source_link_layer _ ∷ xs) ys = mtus-append xs ys
mtus-append (prefix_information _ _ _ _ _ _ ∷ xs) ys = mtus-append xs ys
mtus-append (recursive_dns _ _ ∷ xs) ys = mtus-append xs ys

mtus-link_layer_option : (iface : Option Interface) → mtus (link_layer_option iface) ≡ []
unfolding link_layer_option
mtus-link_layer_option iface = ground arith

mtus-dns :
    (b : Bool) (dns : List Addr) → mtus (if b then recursive_dns (30 * 60) dns ∷ [] else []) ≡ []
mtus-dns b dns = ground arith

mtus-mtu_option :
    (iface : Option Interface) (prefix : Prefix) (dns : List Addr) (n : ℤ)
    → mtus (build_ra iface prefix dns n).options ≡ mtus (mtu_option iface n)
unfolding build_ra
mtus-mtu_option iface prefix dns n =
    simp (mtus-append, mtus-link_layer_option, mtus-dns, append-nil)

-- Where the tunnel's MTU is positive and fits 32 bits, it is the one MTU that the message
-- announces, whatever the interface's own is; where it is zero, the message announces the
-- interface's MTU if that is positive and fits 32 bits, and none if that is not positive.
pub mtus-build_ra :
    (iface : Interface) (prefix : Prefix) (dns : List Addr) (n : ℕ)
    → n < 2 ^ 32
    → (0 < n → mtus (build_ra (some iface) prefix dns (pos n)).options ≡ n ∷ [])
      × ((m : ℕ)
          → iface.mtu ≡ pos m
          → 0 < m
          → m < 2 ^ 32
          → mtus (build_ra (some iface) prefix dns (pos 0)).options ≡ m ∷ [])
      × (is_positive iface.mtu ≡ false
          → mtus (build_ra (some iface) prefix dns (pos 0)).options ≡ [])
unfolding mtu_option
mtus-build_ra iface prefix dns n h = (
  λ p. rw mtus-mtu_option (ground arith),
  λ m e p q. rw mtus-mtu_option (ground arith),
  λ e. rw mtus-mtu_option (ground arith),
)
