-- ===== src/Tunnel/Tests.antt =====
-- The derived routing table of a concrete configuration.
use dark_routev.Base.{refl, ◌≡◌}
use dark_routev.Tunnel.{routing_table_id}
use dark_routev.Samples.{wg_base}

table_of_office : routing_table_id wg_base ≡ 160
unfolding routing_table_id
table_of_office = refl
