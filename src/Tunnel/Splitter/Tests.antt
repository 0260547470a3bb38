-- ===== src/Tunnel/Splitter/Tests.antt =====
-- A connection that keeps its packets, and the theorems at it.
use dark_routev.Base.{List, [], arith, drop, length, none, refl, take, ℕ, ◌++◌, ◌<◌, ◌∷◌, ◌≡◌}
use dark_routev.Tunnel.Splitter.{Writer, new_splitter, first_write, write, write_each}
use dark_routev.Tunnel.Splitter.Laws.{joined, write_each-joined, write-new_splitter}

abbrev record_packet : Writer (List (List ℕ))
record_packet p c = (length p, none, c ++ (p ∷ []))

abbrev hello : List ℕ
hello = 22 ∷ 3 ∷ 1 ∷ 0 ∷ 5 ∷ []

write_each-joined_example :
    joined (write_each record_packet (hello ∷ [] ∷ (7 ∷ []) ∷ []) (new_splitter [] 2)).conn
    ≡ joined (new_splitter {C = List (List ℕ)} [] 2).conn ++ joined (hello ∷ [] ∷ (7 ∷ []) ∷ [])
write_each-joined_example =
    write_each-joined (λ c. c) record_packet (λ p c. (refl, refl, refl))
      (hello ∷ [] ∷ (7 ∷ []) ∷ []) (new_splitter [] 2)

two_packets :
    (write record_packet hello (new_splitter [] 2)).2.conn ≡ (22 ∷ 3 ∷ []) ∷ (1 ∷ 0 ∷ 5 ∷ []) ∷ []
unfolding write new_splitter first_write
two_packets = refl

write-new_splitter_example :
    ((write record_packet hello (new_splitter [] 2)).2.conn
      ≡ ([] ++ (take 2 hello ∷ [])) ++ (drop 2 hello ∷ []))
    × (length (take 2 hello) ≡ 2)
    × (0 < 2)
    × (0 < length (drop 2 hello))
write-new_splitter_example =
    write-new_splitter (λ c. c) record_packet (λ p c. (refl, refl, refl)) 2 hello [] (omega arith)
