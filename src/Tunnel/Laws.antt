-- ===== src/Tunnel/Laws.antt =====
-- The range of derived tables and marks.
use native.Mathlib.Nat.{mod-lt}
use dark_routev.Base.{arith, codes, if_ind, ltb, refl, ℕ, ◌%◌, ◌+◌, ◌-◌, ◌<◌, ◌^◌, ◌≡◌, ◌≤◌}
use dark_routev.Config.{TunnelConfig}
use dark_routev.Tunnel.{hash_from, signed_mod, routing_table_id, fwmark_for_table, fwmark}

pub signed_mod-lt : (h m : ℕ) → 0 < m → signed_mod h m < m
unfolding signed_mod
signed_mod-lt h m p =
    if_ind (λ n. n < m) (ltb h (2 ^ 63)) ((h % m + m) % m) ((m - (2 ^ 64 - h) % m) % m)
      (λ _. mod-lt (h % m + m) p) (λ _. mod-lt (m - (2 ^ 64 - h) % m) p)

small : (n : ℕ) → n < 200 → n % 2 ^ 32 ≡ n
small n h = omega arith

-- A configuration that sets no routing table gets one from 100 to 199, which is also its mark.
pub routing_table_id-range :
    (tc : TunnelConfig)
    → tc.routing_table_id ≡ 0
    → (100 ≤ routing_table_id tc) × (routing_table_id tc < 200) × (fwmark tc ≡ routing_table_id tc)
unfolding routing_table_id fwmark fwmark_for_table
routing_table_id-range tc h =
    let slot : ℕ = signed_mod (hash_from 0 (codes tc.id)) 100 in
    let below : slot < 100 = signed_mod-lt (hash_from 0 (codes tc.id)) 100 (omega arith) in
    rw (h, small (100 + slot) (omega (arith, below))) (omega arith, omega (arith, below), refl)
