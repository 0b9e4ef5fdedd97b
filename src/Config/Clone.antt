-- ===== src/Config/Clone.antt =====
-- The Clone methods of internal/config/config.go over a heap of arrays: here a slice is the address
-- of its array. Elsewhere a configuration is a value, which is what a `view` gives.
pub mod Copying
pub mod Independence
use unifi_6in.Prelude.{ℕ, String, Bool, List, [], ◌∷◌}
use unifi_6in.Heap.{Heap, alloc}
use unifi_6in.Config.Types.{
  TunnelConfig, NetworkConfig, LanConfig, HealthConfig, ServerConfig, Config, ProfileConfig,
  Profile, Document,
}

-- the structs with slices
pub record LanRef : Type 0 where
  pub enabled : Bool
  pub dns : ℕ
  pub mode : String
  pub networks : ℕ

pub record ConfigRef : Type 0 where
  pub tunnel : TunnelConfig
  pub lan : LanRef
  pub health : HealthConfig
  pub server : ServerConfig

pub record ProfileConfigRef : Type 0 where
  pub tunnel : TunnelConfig
  pub lan : LanRef
  pub health : HealthConfig

pub record ProfileRef : Type 0 where
  pub id : String
  pub name : String
  pub config : ProfileConfigRef
  pub is_valid : Bool
  pub validation_errors : ℕ

pub record DocumentRef : Type 0 where
  pub storage_format : String
  pub tunnel_enabled : Bool
  pub active_profile_id : String
  pub profiles : ℕ
  pub server : ServerConfig

-- the arrays
pub data Cell : Type 0 where
  strings : List String → Cell
  networks : List NetworkConfig → Cell
  profiles : List ProfileRef → Cell

abbrev pub strings_in : Cell → List String
strings_in (strings xs) = xs
strings_in (networks _) = []
strings_in (profiles _) = []

abbrev pub networks_in : Cell → List NetworkConfig
networks_in (networks xs) = xs
networks_in (strings _) = []
networks_in (profiles _) = []

abbrev pub profiles_in : Cell → List ProfileRef
profiles_in (profiles xs) = xs
profiles_in (strings _) = []
profiles_in (networks _) = []

-- What a struct with slices is, as a value.
abbrev pub lan_view : (ℕ → Cell) → LanRef → LanConfig
lan_view cell l = record {
  enabled = l.enabled;
  dns = strings_in (cell l.dns);
  mode = l.mode;
  networks = networks_in (cell l.networks);
}

abbrev pub config_view : (ℕ → Cell) → ConfigRef → Config
config_view cell c = record {
  tunnel = c.tunnel;
  lan = lan_view cell c.lan;
  health = c.health;
  server = c.server;
}

abbrev pub profile_view : (ℕ → Cell) → ProfileRef → Profile
profile_view cell p = record {
  id = p.id;
  name = p.name;
  config = record {
    tunnel = p.config.tunnel;
    lan = lan_view cell p.config.lan;
    health = p.config.health;
  };
  is_valid = p.is_valid;
  validation_errors = strings_in (cell p.validation_errors);
}

abbrev pub profiles_view : (ℕ → Cell) → List ProfileRef → List Profile
profiles_view cell [] = []
profiles_view cell (p ∷ ps) = profile_view cell p ∷ profiles_view cell ps

abbrev pub document_view : (ℕ → Cell) → DocumentRef → Document
document_view cell d = record {
  storage_format = d.storage_format;
  tunnel_enabled = d.tunnel_enabled;
  active_profile_id = d.active_profile_id;
  profiles = profiles_view cell (profiles_in (cell d.profiles));
  server = d.server;
}

-- append([]string(nil), xs...) and append([]NetworkConfig(nil), xs...): a new array
unfoldable pub copy_strings : ℕ → Heap Cell → ℕ × Heap Cell
copy_strings a h = alloc (strings (strings_in (h.cell a))) h

unfoldable pub copy_networks : ℕ → Heap Cell → ℕ × Heap Cell
copy_networks a h = alloc (networks (networks_in (h.cell a))) h

-- the two assignments to clone.LAN
unfoldable pub clone_lan : LanRef → Heap Cell → LanRef × Heap Cell
unfolding copy_strings copy_networks
clone_lan l h =
    let (dns, h1) = copy_strings l.dns h in
    let (lans, h2) = copy_networks l.networks h1 in (record l { dns = dns; networks = lans }, h2)

-- func (c *Config) Clone, of a config that is not nil
unfoldable pub clone_config : ConfigRef → Heap Cell → ConfigRef × Heap Cell
unfolding clone_lan
clone_config c h = let (lan, h1) = clone_lan c.lan h in (record c { lan = lan }, h1)

-- func (c ProfileConfig) clone
unfoldable pub clone_profile_config : ProfileConfigRef → Heap Cell → ProfileConfigRef × Heap Cell
unfolding clone_lan
clone_profile_config c h = let (lan, h1) = clone_lan c.lan h in (record c { lan = lan }, h1)

-- func (p Profile) clone
unfoldable pub clone_profile : ProfileRef → Heap Cell → ProfileRef × Heap Cell
unfolding clone_profile_config copy_strings
clone_profile p h =
    let (config, h1) = clone_profile_config p.config h in
    let (errors, h2) = copy_strings p.validation_errors h1 in
    (record p { config = config; validation_errors = errors }, h2)

-- the loop of Document.Clone
unfoldable pub clone_profiles : List ProfileRef → Heap Cell → List ProfileRef × Heap Cell
unfolding clone_profile
clone_profiles [] h = ([], h)
clone_profiles (p ∷ ps) h =
    let (p', h1) = clone_profile p h in let (ps', h2) = clone_profiles ps h1 in (p' ∷ ps', h2)

-- func (d *Document) Clone, of a document that is not nil; its array of profiles is made once it is
-- known what it holds
unfoldable pub clone_document : DocumentRef → Heap Cell → DocumentRef × Heap Cell
unfolding clone_profiles
clone_document d h =
    let (cloned, h1) = clone_profiles (profiles_in (h.cell d.profiles)) h in
    let (array, h2) = alloc (profiles cloned) h1 in (record d { profiles = array }, h2)
