-- ===== src/Dpi/Variants/Shared.antt =====
-- The tables of daemon/internal/dpi/variants.go, and the loops that several kinds of variants share.
use dark_routev.Base.{Bool, List, String, [], if◌then◌else◌, itoa, true, ℕ, ◌<>◌, ◌==◌, ◌||◌, ◌∷◌}
use dark_routev.Config.{TunnelConfig, AmneziaWgConfig}
use dark_routev.Dpi.{BlockType, is_block_none, is_block_tcp, is_block_protocol}

pub record AwgProfile : Type 0 where
  pub name : String
  pub jc : ℕ
  pub jmin : ℕ
  pub jmax : ℕ
  pub s1 : ℕ
  pub s2 : ℕ
  pub h1 : ℕ
  pub h2 : ℕ
  pub h3 : ℕ
  pub h4 : ℕ

abbrev pub mild : AwgProfile
mild = record {
  name = "mild";
  jc = 2;
  jmin = 20;
  jmax = 50;
  s1 = 0;
  s2 = 0;
  h1 = 0;
  h2 = 0;
  h3 = 0;
  h4 = 0;
}

abbrev pub moderate : AwgProfile
moderate = record {
  name = "moderate";
  jc = 4;
  jmin = 40;
  jmax = 70;
  s1 = 0;
  s2 = 0;
  h1 = 1262700631;
  h2 = 1752251508;
  h3 = 1346454851;
  h4 = 1532746439;
}

abbrev pub aggressive : AwgProfile
aggressive = record {
  name = "aggressive";
  jc = 7;
  jmin = 50;
  jmax = 100;
  s1 = 10;
  s2 = 10;
  h1 = 904958478;
  h2 = 1153565019;
  h3 = 1750837079;
  h4 = 1009857588;
}

-- `awgProfiles`
abbrev pub awg_profiles : List AwgProfile
awg_profiles = mild ∷ moderate ∷ aggressive ∷ []

-- `mtuVariants`
abbrev pub mtu_values : List ℕ
mtu_values = 1200 ∷ 1280 ∷ 1360 ∷ []

-- `endpointPortVariants`
abbrev pub endpoint_ports : List ℕ
endpoint_ports = 443 ∷ 80 ∷ 53 ∷ []

-- The three assignments with which every variant is made.
abbrev pub as_variant : TunnelConfig → String → TunnelConfig → TunnelConfig
as_variant tc suffix v = record v {
  id = tc.id <> ":dpi:" <> suffix;
  is_variant = true;
  base_config_id = tc.id;
}

-- The loop over `mtuVariants`, the same in wgVariants and awgVariants.
unfoldable pub mtu_loop : TunnelConfig → List ℕ → List TunnelConfig
mtu_loop tc [] = []
mtu_loop tc (mtu ∷ rest) =
    let more = mtu_loop tc rest in
    if mtu == tc.mtu
    then more
    else as_variant tc ("mtu" <> itoa mtu) (record tc { mtu = mtu }) ∷ more

-- The loop over `endpointPortVariants`, with what a port changes in the copy.
unfoldable pub port_loop :
    TunnelConfig → String → ℕ → (ℕ → TunnelConfig) → List ℕ → List TunnelConfig
port_loop tc prefix current with_port [] = []
port_loop tc prefix current with_port (p ∷ rest) =
    let more = port_loop tc prefix current with_port rest in
    if p == current then more else as_variant tc (prefix <> itoa p) (with_port p) ∷ more

-- `hint == BlockProtocol || hint == BlockTCP || hint == BlockNone`
abbrev pub rotates_ports : BlockType → Bool
rotates_ports hint = is_block_protocol hint || is_block_tcp hint || is_block_none hint

-- The settings of the profile, as far as rebuildVariant restores them too.
abbrev pub with_junk : AwgProfile → AmneziaWgConfig → AmneziaWgConfig
with_junk prof awg = record awg {
  junk_packet_count = prof.jc;
  junk_packet_min_size = prof.jmin;
  junk_packet_max_size = prof.jmax;
  init_packet_junk_size = prof.s1;
  response_packet_junk_size = prof.s2;
}
