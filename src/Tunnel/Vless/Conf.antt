-- ===== src/Tunnel/Vless/Conf.antt =====
-- daemon/internal/tunnel/vless.go, `writeConf`: the configuration of sing-box. The JSON text of it is
-- left to encoding/json, so the field names stand for the keys.
use dark_routev.Base.{
  Bool, List, Option, String, [], false, if◌then◌else◌, none, not, some, str_eq, true, ℕ, ◌&&◌,
  ◌||◌, ◌∷◌,
}
use dark_routev.Base.Dict.{Dict, insert}
use dark_routev.Config.{VlessConfig}

-- singBoxECH, singBoxUTLS, singBoxReality
pub record SingBoxEch : Type 0 where
  pub enabled : Bool
  pub config : String

pub record SingBoxUtls : Type 0 where
  pub enabled : Bool
  pub fingerprint : String

pub record SingBoxReality : Type 0 where
  pub enabled : Bool
  pub public_key : String
  pub short_id : String

-- singBoxTLS; a pointer that may be nil is an `Option`.
pub record SingBoxTls : Type 0 where
  pub enabled : Bool
  pub server_name : String
  pub insecure : Bool
  pub utls : Option SingBoxUtls
  pub ech : Option SingBoxEch
  pub reality : Option SingBoxReality

-- singBoxTransport
pub record SingBoxTransport : Type 0 where
  pub type : String
  pub path : String
  pub service_name : String
  pub host : String
  pub headers : Dict String

-- singBoxOutbound
pub record SingBoxOutbound : Type 0 where
  pub tag : String
  pub type : String
  pub server : String
  pub port : ℕ
  pub uuid : String
  pub flow : String
  pub tls : Option SingBoxTls
  pub transport : Option SingBoxTransport

-- singBoxInbound
pub record SingBoxInbound : Type 0 where
  pub tag : String
  pub type : String
  pub listen : String
  pub port : ℕ
  pub sniff : Bool

-- singBoxConfig
pub record SingBoxConfig : Type 0 where
  pub log : Dict String
  pub inbounds : List SingBoxInbound
  pub outbounds : List SingBoxOutbound
  pub route : Dict String

-- The block `if vless.Security == "tls" || vless.Security == "reality"`
unfoldable pub tls_of : VlessConfig → Option SingBoxTls
tls_of vless =
    let is_reality = str_eq vless.security "reality" in
    if str_eq vless.security "tls" || is_reality
    then some (record {
      enabled = true;
      server_name = vless.sni;
      insecure = false;
      utls =
          (if str_eq vless.fingerprint ""
            then none
            else some (record { enabled = true; fingerprint = vless.fingerprint }));
      ech =
          (if vless.ech then some (record { enabled = true; config = vless.ech_config }) else none);
      reality =
          (if is_reality
            then some (record {
              enabled = true;
              public_key = vless.reality_public_key;
              short_id = vless.reality_short_id;
            })
            else none);
    })
    else none

abbrev transport_at : String → String → String → SingBoxTransport
transport_at type path service = record {
  type = type;
  path = path;
  service_name = service;
  host = "";
  headers = [];
}

-- The switch on vless.Transport
unfoldable pub transport_of : VlessConfig → Option SingBoxTransport
transport_of vless =
    if str_eq vless.transport "ws"
    then some (transport_at "ws" vless.transport_path "")
    else if str_eq vless.transport "grpc"
    then some (transport_at "grpc" "" vless.transport_path)
    else if str_eq vless.transport "httpupgrade"
    then some (transport_at "httpupgrade" vless.transport_path "")
    else if str_eq vless.transport "quic"
    then some (transport_at "quic" "" "")
    else if str_eq vless.transport "h3"
    then some (transport_at "http" "" "")
    else none

-- `outbound.Transport.Host = …; outbound.Transport.Headers["Host"] = …`
unfoldable pub front : String → SingBoxTransport → SingBoxTransport
front host t = record t { host = host; headers = insert "Host" host t.headers }

-- `if vless.DomainFronting && vless.FrontingHost != "" && outbound.Transport != nil`
unfoldable pub fronted : VlessConfig → Option SingBoxTransport → Option SingBoxTransport
fronted vless none = none
fronted vless (some t) =
    if vless.domain_fronting && not (str_eq vless.fronting_host "")
    then some (front vless.fronting_host t)
    else some t

unfoldable pub outbound_of : VlessConfig → SingBoxOutbound
outbound_of vless = record {
  tag = "vless-out";
  type = "vless";
  server = vless.address;
  port = vless.port;
  uuid = vless.uuid;
  flow = vless.flow;
  tls = tls_of vless;
  transport = fronted vless (transport_of vless);
}

-- What `writeConf` writes
unfoldable pub sing_box_config : VlessConfig → ℕ → SingBoxConfig
sing_box_config vless local_port = record {
  log = ("level", "warn") ∷ [];
  inbounds =
      record {
        tag = "socks-in";
        type = "socks";
        listen = "127.0.0.1";
        port = local_port;
        sniff = true;
      }
      ∷ [];
  outbounds = outbound_of vless ∷ [];
  route = ("final", "vless-out") ∷ [];
}
