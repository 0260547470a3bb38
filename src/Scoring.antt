-- ===== src/Scoring.antt =====
-- daemon/internal/scoring/scoring.go: the history of each configuration and the ranking by it. The
-- arithmetic of Go's float64 is the parameter `Floats`.
pub mod Laws
mod Tests
use dark_routev.Base.{
  Bool, List, Option, String, [], first, if◌then◌else◌, map, none, some, str_eq, suc, ℕ, ◌&&◌, ◌==◌,
  ◌||◌, ◌∷◌,
}
use dark_routev.Base.Dict.{Dict, lookup, insert}
use dark_routev.Config.{
  TunnelConfig, VlessConfig, Protocol, wire_guard, amnezia_wg, vless_protocol, other_protocol,
}

-- The operations on float64; `ratio n d` is the constant n / d.
pub record Floats (F : Type 0) : Type 0 where
  pub ratio : ℕ → ℕ → F
  pub plus : F → F → F
  pub minus : F → F → F
  pub times : F → F → F
  pub over : F → F → F
  pub exp_of_negative : F → F
  pub less : F → F → Bool
  pub same : F → F → Bool

module _ {F : Type 0} (f : Floats F) where
  abbrev pub num : ℕ → F
  num n = f.ratio n 1

  -- `a <= b`
  abbrev pub at_most : F → F → Bool
  at_most a b = f.less a b || f.same a b

-- Session; only the fields that RecordSession reads
pub record Session : Type 0 where
  pub config_id : String
  pub started_at : ℕ
  pub success : Bool

-- Entry
pub record Entry (F : Type 0) : Type 0 where
  pub config_id : String
  pub ewma_rtt : F
  pub ewma_loss : F
  pub session_success : F
  pub last_used : ℕ
  pub sessions : ℕ
  pub dpi_bypass_success : F
  pub last_block_type : String

module _ {F : Type 0} (f : Floats F) where
  fresh_entry : String → Entry F
  fresh_entry config_id = record {
    config_id = config_id;
    ewma_rtt = num f 0;
    ewma_loss = num f 0;
    session_success = f.ratio 1 2;
    last_used = 0;
    sessions = 0;
    dpi_bypass_success = num f 0;
    last_block_type = "";
  }

  or_fresh : String → Option (Entry F) → Entry F
  unfolding fresh_entry
  or_fresh config_id none = fresh_entry config_id
  or_fresh config_id (some e) = e

  -- `entryOrDefault`, and what `entry` returns
  unfoldable pub entry_or_default : Dict (Entry F) → String → Entry F
  unfolding or_fresh
  entry_or_default db config_id = or_fresh config_id (lookup config_id db)

  -- `ewmaAlpha*val + (1-ewmaAlpha)*old`
  unfoldable pub ewma : F → F → F
  ewma val old = f.plus (f.times (f.ratio 3 10) val) (f.times (f.ratio 7 10) old)

  -- 1.0 for a success
  abbrev pub outcome : Bool → F
  outcome success = if success then num f 1 else num f 0

  -- `RecordSession`
  unfoldable pub record_session : Session → Dict (Entry F) → Dict (Entry F)
  unfolding ewma
  record_session s db =
      let e = entry_or_default db s.config_id in
      insert s.config_id
        (record e {
          session_success = ewma (outcome s.success) e.session_success;
          sessions = suc e.sessions;
          last_used = s.started_at;
        })
        db

  -- `RecordDPIResult`
  unfoldable pub record_dpi_result : String → String → Bool → Dict (Entry F) → Dict (Entry F)
  unfolding ewma
  record_dpi_result config_id block_type succeeded db =
      let e = entry_or_default db config_id in
      insert config_id
        (record e {
          last_block_type = block_type;
          dpi_bypass_success = ewma (outcome succeeded) e.dpi_bypass_success;
        })
        db

  -- `RecordProbeResult`; the round-trip time is in milliseconds.
  unfoldable pub record_probe_result : String → ℕ → F → Dict (Entry F) → Dict (Entry F)
  unfolding ewma
  record_probe_result config_id avg_rtt_ms packet_loss db =
      let e = entry_or_default db config_id in
      let rtt = if avg_rtt_ms == 0 then num f 5000 else num f avg_rtt_ms in
      let first = f.same e.ewma_rtt (num f 0) in
      insert config_id
        (record e {
          ewma_rtt = if first then rtt else ewma rtt e.ewma_rtt;
          ewma_loss = if first then packet_loss else ewma packet_loss e.ewma_loss;
        })
        db

  -- `clamp01`
  unfoldable pub clamp01 : F → F
  clamp01 v = if f.less v (num f 0) then num f 0 else if f.less (num f 1) v then num f 1 else v

  vless_security : Option VlessConfig → F
  vless_security none = f.ratio 70 100
  vless_security (some vl) =
      if str_eq vl.security "reality"
      then f.ratio 95 100
      else if str_eq vl.security "tls"
      then f.ratio 85 100
      else f.ratio 65 100

  security_of : Protocol → TunnelConfig → F
  unfolding vless_security
  security_of amnezia_wg tc = f.ratio 92 100
  security_of wire_guard tc = f.ratio 88 100
  security_of vless_protocol tc = vless_security tc.vless_config
  security_of (other_protocol _) tc = f.ratio 6 10

  -- `protocolSecurity`
  unfoldable pub protocol_security : TunnelConfig → F
  unfolding security_of
  protocol_security tc = security_of tc.protocol tc

  -- `CompositeScore`
  unfoldable pub composite_score : Entry F → TunnelConfig → F
  unfolding clamp01 protocol_security
  composite_score e tc =
      let one = num f 1 in
      let rtt = if at_most f e.ewma_rtt (num f 0) then num f 1000 else e.ewma_rtt in
      let loss = clamp01 e.ewma_loss in
      let session =
        if at_most f e.session_success (num f 0) then f.ratio 1 2 else e.session_success in
      let rtt_norm = f.over one (f.plus one (f.over rtt (num f 120))) in
      let performance = clamp01 (f.times (f.minus one loss) rtt_norm) in
      let unknown = str_eq e.last_block_type "" && f.same e.dpi_bypass_success (num f 0) in
      let dpi = if unknown then f.ratio 1 2 else e.dpi_bypass_success in
      let availability =
        clamp01 (f.plus (f.times (f.ratio 6 10) dpi) (f.times (f.ratio 4 10) session)) in
      let sample_conf = f.minus one (f.exp_of_negative (f.over (num f e.sessions) (num f 6))) in
      let reliability =
        clamp01 (
          f.plus (f.times session sample_conf) (f.times (f.ratio 1 2) (f.minus one sample_conf))) in
      f.times (num f 100) (
        f.plus
          (f.plus
            (f.plus (f.times (f.ratio 40 100) availability) (f.times (f.ratio 35 100) performance))
            (f.times (f.ratio 15 100) (protocol_security tc)))
          (f.times (f.ratio 10 100) reliability))

  -- One step of an insertion sort by descending score. `sort.Slice` is not stable, so the order of
  -- equal scores is one of those that Go may produce.
  insert_by_score : F × TunnelConfig → List (F × TunnelConfig) → List (F × TunnelConfig)
  insert_by_score x [] = x ∷ []
  insert_by_score x (y ∷ rest) =
      let deeper = insert_by_score x rest in if f.less y.0 x.0 then x ∷ y ∷ rest else y ∷ deeper

  sort_by_score : List (F × TunnelConfig) → List (F × TunnelConfig)
  unfolding insert_by_score
  sort_by_score [] = []
  sort_by_score (x ∷ rest) = insert_by_score x (sort_by_score rest)

  -- A configuration with its score
  unfoldable pub scored : Dict (Entry F) → TunnelConfig → F × TunnelConfig
  scored db tc = (composite_score (entry_or_default db tc.id) tc, tc)

  -- `Rank`
  unfoldable pub rank : Dict (Entry F) → List TunnelConfig → List TunnelConfig
  unfolding sort_by_score scored
  rank db configs = map (λ (x : F × TunnelConfig). x.1) (sort_by_score (map (scored db) configs))
