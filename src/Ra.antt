-- ===== src/Ra.antt =====
-- internal/ra/advertiser.go: the Router Advertisement message, and the connections that an
-- advertiser opens when it starts and closes when it stops.
-- The packages net and ndp are the parameter `platform`, over a world `W`.
pub mod Connections
pub mod Message
pub mod Loops
use unifi_6in.Prelude.{
  ℕ, zero, suc, ◌-◌, ◌%◌, ◌^◌, ◌*◌, String, ℤ, pos, negsuc, is_positive, Bool, true, false, ◌&&◌,
  not, Option, none, some, List, [], ◌∷◌, ◌++◌, is_empty, if◌then◌else◌,
}
use unifi_6in.Text.{◌<>◌}
use unifi_6in.Errors.{Error, wrapped, Result, ok, err}
use unifi_6in.Net.{Addr, Prefix}

-- net.Interface, as far as it is used
pub record Interface : Type 0 where
  pub name : String
  pub hardware_addr : List ℕ
  pub mtu : ℤ

-- the options of ndp, lifetimes in seconds
pub data RaOption : Type 0 where
  source_link_layer : List ℕ → RaOption
  mtu : ℕ → RaOption
  prefix_information :
      (bits : ℕ) (on_link autonomous : Bool) (valid preferred : ℕ) → Addr → RaOption
  recursive_dns : (lifetime : ℕ) → List Addr → RaOption

pub data Preference : Type 0 where
  low : Preference
  medium : Preference
  high : Preference

pub record RouterAdvertisement : Type 0 where
  pub hop_limit : ℕ
  pub managed : Bool
  pub other : Bool
  pub preference : Preference
  pub router_lifetime : ℕ
  pub options : List RaOption

-- uint32(n)
abbrev pub uint32 : ℤ → ℕ
uint32 (pos n) = n % 2 ^ 32
uint32 (negsuc n) = (2 ^ 32 - 1) - n % 2 ^ 32

-- uint8(n)
abbrev pub uint8 : ℕ → ℕ
uint8 n = n % 2 ^ 8

unfoldable pub link_layer_option : Option Interface → List RaOption
link_layer_option none = []
link_layer_option (some iface) =
    if not (is_empty iface.hardware_addr) then source_link_layer iface.hardware_addr ∷ [] else []

unfoldable pub mtu_option : Option Interface → ℤ → List RaOption
mtu_option iface tunnel_mtu =
    if is_positive tunnel_mtu then mtu (uint32 tunnel_mtu) ∷ [] else elim iface [
      | none ↦ []
      | some i ↦ if is_positive i.mtu then mtu (uint32 i.mtu) ∷ [] else []
    ]

-- func BuildRA
unfoldable pub build_ra : Option Interface → Prefix → List Addr → ℤ → RouterAdvertisement
build_ra iface prefix dns tunnel_mtu = record {
  hop_limit = 64;
  managed = false;
  other = false;
  preference = medium;
  router_lifetime = 30 * 60;
  options =
      link_layer_option iface
      ++ (mtu_option iface tunnel_mtu
          ++ (prefix_information (uint8 prefix.bits) true true (2 * 3600) (30 * 60) prefix.addr
              ∷ (if not (is_empty dns) then recursive_dns (30 * 60) dns ∷ [] else [])));
}

pub record NetworkEntry : Type 0 where
  pub interface : String
  pub prefix : Prefix

pub record AdvertiserConfig : Type 0 where
  pub networks : List NetworkEntry
  pub dns : List Addr
  pub interval : ℕ
  pub tunnel_mtu : ℤ

-- an open ndp.Conn is a handle
pub record ConnEntry : Type 0 where
  pub conn : ℕ
  pub iface : Interface
  pub prefix : Prefix

pub record Advertiser : Type 0 where
  pub conns : List ConnEntry
  pub dns : List Addr
  pub tunnel_mtu : ℤ
  pub interval : ℕ

pub record RaPlatform (W : Type 0) : Type 0 where
  -- net.InterfaceByName
  pub interface_by_name : String → W → Result Interface × W
  -- ndp.Listen(iface, ndp.LinkLocal)
  pub listen : Interface → W → Result ℕ × W
  -- (*ndp.Conn).Close
  pub close : ℕ → W → W
  -- strconv.Quote
  pub quote : String → String

module _ {W : Type 0} (platform : RaPlatform W) where
  -- func closeConns
  unfoldable pub close_conns : List ConnEntry → W → W
  close_conns [] w = w
  close_conns (c ∷ cs) w = close_conns cs (platform.close c.conn w)

  -- the loop of NewAdvertiser over the networks, `conns` being those opened so far
  unfoldable pub open_conns : List NetworkEntry → List ConnEntry → W → Result (List ConnEntry) × W
  unfolding close_conns
  open_conns [] conns w = (ok conns, w)
  open_conns (nw ∷ nws) conns w =
      let (found, w1) = platform.interface_by_name nw.interface w in
      elim found [
        | err e ↦ (
          err (wrapped ("interface " <> platform.quote nw.interface <> ": ") e ""),
          close_conns conns w1,
        )
        | ok iface ↦
            let (listening, w2) = platform.listen iface w1 in
            elim listening [
              | err e ↦ (
                err (wrapped ("ndp listen on " <> platform.quote nw.interface <> ": ") e ""),
                close_conns conns w2,
              )
              | ok conn ↦
                  open_conns nws
                    (conns ++ record { conn = conn; iface = iface; prefix = nw.prefix } ∷ []) w2
            ]
      ]

  -- func NewAdvertiser
  unfoldable pub new_advertiser : AdvertiserConfig → W → Result Advertiser × W
  unfolding open_conns
  new_advertiser cfg w =
      let (opened, w1) = open_conns cfg.networks [] w in
      elim opened [
        | err e ↦ (err e, w1)
        | ok conns ↦ (
          ok (record {
            conns = conns;
            dns = cfg.dns;
            tunnel_mtu = cfg.tunnel_mtu;
            interval = elim cfg.interval [ zero ↦ 10 | suc n ↦ suc n ];
          }),
          w1,
        )
      ]

  -- func (a *Advertiser) Stop
  unfoldable pub stop : Advertiser → W → W
  unfolding close_conns
  stop a w = close_conns a.conns w
