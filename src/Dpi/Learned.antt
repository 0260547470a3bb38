-- ===== src/Dpi/Learned.antt =====
-- daemon/internal/dpi/persist.go: the variants that worked before. The file contents are lists of
-- entries, `none` where a file cannot be read or parsed.
pub mod Laws
pub mod Restart
pub mod Params
mod Tests
use Prim.Native.String.{len, slice}
use dark_routev.Base.{
  Bool, List, Option, String, [], ends_with, first, if◌then◌else◌, keep, length, ltb, none, some,
  str_eq, suc, true, ℕ, ◌&&◌, ◌<>◌, ◌∷◌,
}
use dark_routev.Base.Dict.{lookup, insert, values}
use dark_routev.Config.{Protocol, other_protocol, TunnelConfig, AmneziaWgConfig, VlessConfig}
use dark_routev.Dpi.Variants.Shared.{AwgProfile, awg_profiles, with_junk}

pub record LearnedEntry : Type 0 where
  pub base_config_id : String
  pub variant_suffix : String
  pub effective_mtu : ℕ
  pub effective_fp : String
  pub effective_trans : String
  pub awg_profile : String
  pub success_count : ℕ
  pub last_success : ℕ

-- The map of entries by variant ID.
abbrev pub LearnedDb : Type 0
LearnedDb = List (String × LearnedEntry)

-- `extractVariantSuffix`
unfoldable pub extract_variant_suffix : String → String → String
extract_variant_suffix variant_id base_id =
    let prefix = base_id <> ":" in
    if ltb (len prefix) (len variant_id) && str_eq (slice variant_id 0 (len prefix)) prefix
    then slice variant_id (len prefix) (len variant_id)
    else variant_id

-- `extractAWGProfile`
unfoldable pub extract_awg_profile : String → String
extract_awg_profile variant_id =
    if ends_with variant_id "mild"
    then "mild"
    else if ends_with variant_id "moderate"
    then "moderate"
    else if ends_with variant_id "aggressive"
    then "aggressive"
    else ""

new_entry : TunnelConfig → LearnedEntry
new_entry v = record {
  base_config_id = v.base_config_id;
  variant_suffix = extract_variant_suffix v.id v.base_config_id;
  effective_mtu = 0;
  effective_fp = "";
  effective_trans = "";
  awg_profile = "";
  success_count = 0;
  last_success = 0;
}

capture_vless : Option VlessConfig → LearnedEntry → LearnedEntry
capture_vless none e = e
capture_vless (some vl) e = record e {
  effective_fp = vl.fingerprint;
  effective_trans = vl.transport;
}

capture_awg : String → Option AmneziaWgConfig → LearnedEntry → LearnedEntry
capture_awg id none e = e
capture_awg id (some awg) e = record e { awg_profile = extract_awg_profile id }

-- The counter, the time and the effective parameters that RecordSuccess writes to an entry.
unfoldable pub capture : TunnelConfig → ℕ → LearnedEntry → LearnedEntry
unfolding capture_vless capture_awg
capture v now e =
    let counted = record e { success_count = suc e.success_count; last_success = now } in
    let sized = record counted { effective_mtu = if ltb 0 v.mtu then v.mtu else e.effective_mtu } in
    capture_awg v.id v.amnezia_wg_config (capture_vless v.vless_config sized)

pub entry_or_new : TunnelConfig → Option LearnedEntry → LearnedEntry
entry_or_new v none = new_entry v
entry_or_new v (some e) = e

-- `RecordSuccess`, without the writing of the files
unfoldable pub record_success : TunnelConfig → ℕ → LearnedDb → LearnedDb
unfolding capture entry_or_new new_entry
record_success v now db =
    if v.is_variant then insert v.id (capture v now (entry_or_new v (lookup v.id db))) db else db

-- The first profile with the name.
find_profile : String → List AwgProfile → Option AwgProfile
find_profile name ps = first (λ (p : AwgProfile). str_eq p.name name) ps

restore_vless : LearnedEntry → VlessConfig → VlessConfig
restore_vless e vl = record vl {
  fingerprint = if str_eq e.effective_fp "" then vl.fingerprint else e.effective_fp;
  transport = if str_eq e.effective_trans "" then vl.transport else e.effective_trans;
}

restore_profile : Option AwgProfile → AmneziaWgConfig → AmneziaWgConfig
restore_profile none awg = awg
restore_profile (some p) awg = with_junk p awg

restore_awg : LearnedEntry → AmneziaWgConfig → AmneziaWgConfig
unfolding find_profile restore_profile
restore_awg e awg =
    if str_eq e.awg_profile ""
    then awg
    else restore_profile (find_profile e.awg_profile awg_profiles) awg

abbrev pub map_option : {A : Type 0} → (A → A) → Option A → Option A
map_option f none = none
map_option f (some a) = some (f a)

-- What rebuildVariant makes of a copy of the base.
unfoldable pub rebuild_copy : TunnelConfig → LearnedEntry → TunnelConfig
unfolding restore_vless restore_awg
rebuild_copy base e = record base {
  id = e.base_config_id <> (":" <> e.variant_suffix);
  is_variant = true;
  base_config_id = e.base_config_id;
  mtu = if ltb 0 e.effective_mtu then e.effective_mtu else base.mtu;
  vless_config = map_option (restore_vless e) base.vless_config;
  amnezia_wg_config = map_option (restore_awg e) base.amnezia_wg_config;
}

rebuild_for : Protocol → TunnelConfig → LearnedEntry → Option TunnelConfig
rebuild_for (other_protocol p) base e = none
rebuild_for _ base e = some (rebuild_copy base e)

-- `rebuildVariant`; the only caller passes a base that is not nil.
unfoldable pub rebuild_variant : TunnelConfig → LearnedEntry → Option TunnelConfig
unfolding rebuild_for rebuild_copy
rebuild_variant base e = rebuild_for base.protocol base e

-- One step of an insertion sort by descending success count. `sort.Slice` is not stable, so the
-- order of entries with equal counts is one of those that Go may produce.
insert_by_count : LearnedEntry → List LearnedEntry → List LearnedEntry
insert_by_count e [] = e ∷ []
insert_by_count e (f ∷ rest) =
    let deeper = insert_by_count e rest in
    if ltb e.success_count f.success_count then f ∷ deeper else e ∷ f ∷ rest

sort_by_count : List LearnedEntry → List LearnedEntry
unfolding insert_by_count
sort_by_count [] = []
sort_by_count (e ∷ rest) = insert_by_count e (sort_by_count rest)

matches : String → LearnedEntry → Bool
matches base_id e = str_eq e.base_config_id base_id && ltb 0 e.success_count

add_some : {A : Type 0} → Option A → List A → List A
add_some none rest = rest
add_some (some a) rest = a ∷ rest

rebuild_all : TunnelConfig → List LearnedEntry → List TunnelConfig
unfolding add_some
rebuild_all base [] = []
rebuild_all base (e ∷ rest) = add_some (rebuild_variant base e) (rebuild_all base rest)

-- `GetCandidates`
unfoldable pub get_candidates : String → TunnelConfig → LearnedDb → List TunnelConfig
unfolding rebuild_all sort_by_count matches
get_candidates base_id base db =
    rebuild_all base (sort_by_count (keep (matches base_id) (values db)))

-- `Count`
unfoldable pub count : LearnedDb → ℕ
count db = length db

-- The loop of loadFrom over the parsed entries.
load_entries : List LearnedEntry → LearnedDb → LearnedDb
load_entries [] db = db
load_entries (e ∷ rest) db =
    load_entries rest (insert (e.base_config_id <> (":" <> e.variant_suffix)) e db)

-- `load`: the persistent copy, or the runtime one where that cannot be read.
unfoldable pub load : Option (List LearnedEntry) → Option (List LearnedEntry) → LearnedDb
unfolding load_entries
load (some persistent) runtime = load_entries persistent []
load none (some runtime) = load_entries runtime []
load none none = []

-- `save`: the same list goes to both files.
unfoldable pub save : LearnedDb → List LearnedEntry
save db = values db
