-- ===== src/Net.antt =====
-- What the program uses of the package net/netip. An address is its number with its family; the
-- parsers and the printer are an interface, which the modules take as a parameter.
use unifi_6in.Prelude.{ℕ, ◌+◌, ◌-◌, ◌*◌, ◌/◌, ◌^◌, String, Bool, true, false, ltb, if◌then◌else◌}
use unifi_6in.Errors.{Result}

pub data Family : Type 0 where
  invalid v4 v6 : Family

-- netip.Addr; the zero Addr has the family `invalid`
pub record Addr : Type 0 where
  pub family : Family
  pub number : ℕ
  pub zone : String

-- netip.Prefix
pub record Prefix : Type 0 where
  pub addr : Addr
  pub bits : ℕ

abbrev width : Family → ℕ
width invalid = 0
width v4 = 32
width v6 = 128

-- Addr.Is6, which holds of IPv4-mapped IPv6 addresses too
abbrev pub is6 : Addr → Bool
is6 a = elim a.family [ v6 ↦ true | _ ↦ false ]

abbrev zero_addr : Addr
zero_addr = record { family = invalid; number = 0; zone = "" }

-- Addr.Next, the zero Addr where there is none
unfoldable pub next : Addr → Addr
next a =
    if ltb (a.number + 1) (2 ^ width a.family)
    then record a { number = a.number + 1 }
    else zero_addr

-- Prefix.Masked().Addr()
unfoldable pub network_addr : Prefix → Addr
network_addr p =
    let size = 2 ^ (width p.addr.family - p.bits) in
    record p.addr { number = (p.addr.number / size) * size; zone = "" }

-- The parsers and printers of netip and net, and the quoting of `%q`.
pub record NetIp : Type 0 where
  -- netip.ParseAddr, netip.ParsePrefix
  pub parse_addr : String → Result Addr
  pub parse_prefix : String → Result Prefix
  -- Addr.String
  pub addr_string : Addr → String
  -- net.ParseIP(s) != nil
  pub is_ip : String → Bool
  -- strconv.Quote
  pub quote : String → String
