-- ===== src/Dpi/Detect/Laws.antt =====
-- The ports that the HTTP stage probes.
use dark_routev.Base.{
  Bool, List, String, [], arith, false, if_ind, not, refl, str_eq, sym, ℕ, ◌&&◌, ◌++◌, ◌==◌, ◌||◌,
  ◌∙◌, ◌∷◌, ◌≡◌,
}
use dark_routev.Config.{ProbeTarget}
use dark_routev.Dpi.Detect.{has, is_http, http_port, ports_loop, detection_http_ports}

-- An HTTP target of the host has the port.
abbrev pub asked : String → ℕ → List ProbeTarget → Bool
asked host p [] = false
asked host p (t ∷ targets) =
    (str_eq t.host host && is_http t.type && http_port t == p) || asked host p targets

-- No port stands twice.
abbrev pub NoRepeat : List ℕ → Type 0
NoRepeat [] = Unit {0}
NoRepeat (q ∷ qs) = (has q qs ≡ false) × NoRepeat qs

has-append : (p q : ℕ) (qs : List ℕ) → has p (qs ++ (q ∷ [])) ≡ (has p qs || q == p)
has-append p q [] = ground arith
has-append p q (r ∷ qs) = ground (arith, has-append p q qs)

NoRepeat-append : (q : ℕ) (qs : List ℕ) → NoRepeat qs → has q qs ≡ false → NoRepeat (qs ++ (q ∷ []))
NoRepeat-append q [] n h = (refl, tt)
NoRepeat-append q (r ∷ qs) n h =
    (ground (arith, n.0, h, has-append r q qs), NoRepeat-append q qs n.1 (ground (arith, h)))

abbrev Agrees : List ℕ → List ℕ → Type 0
Agrees seen ports = (p : ℕ) → has p seen ≡ has p ports

ports_loop-has :
    (host : String) (p : ℕ) (seen ports : List ℕ) (targets : List ProbeTarget)
    → Agrees seen ports
    → has p (ports_loop host seen ports targets) ≡ (has p ports || asked host p targets)
unfolding ports_loop
ports_loop-has host p seen ports [] a = ground arith
ports_loop-has host p seen ports (t ∷ targets) a =
    let q : ℕ = http_port t in
    let skip = ports_loop-has host p seen ports targets a in
    let add =
      ports_loop-has host p (q ∷ seen) (ports ++ (q ∷ [])) targets
        (λ r. ground (arith, a r, has-append r q ports)) in
    ground (arith, skip, add, a q, a p, has-append p q ports)

ports_loop-NoRepeat :
    (host : String) (seen ports : List ℕ) (targets : List ProbeTarget)
    → Agrees seen ports
    → NoRepeat ports
    → NoRepeat (ports_loop host seen ports targets)
unfolding ports_loop
ports_loop-NoRepeat host seen ports [] a n = n
ports_loop-NoRepeat host seen ports (t ∷ targets) a n =
    let q : ℕ = http_port t in
    let skip = ports_loop-NoRepeat host seen ports targets a n in
    if_ind NoRepeat (not (str_eq t.host host) || not (is_http t.type)) _ _ (λ _. skip)
      (λ _.
        if_ind NoRepeat (has q seen) _ _ (λ _. skip)
          (λ u.
            ports_loop-NoRepeat host (q ∷ seen) (ports ++ (q ∷ [])) targets
              (λ r. ground (arith, a r, has-append r q ports))
              (NoRepeat-append q ports n (sym (a q) ∙ u))))

-- The HTTP stage probes port 80 and the port of each HTTP target of the host, no other, and none
-- twice.
pub detection_http_ports_lem :
    (host : String) (targets : List ProbeTarget)
    → ((p : ℕ) → has p (detection_http_ports host targets) ≡ (80 == p || asked host p targets))
      × NoRepeat (detection_http_ports host targets)
unfolding detection_http_ports
detection_http_ports_lem host targets = (
  λ p. ground (arith, ports_loop-has host p (80 ∷ []) (80 ∷ []) targets (λ r. refl)),
  ports_loop-NoRepeat host (80 ∷ []) (80 ∷ []) targets (λ r. refl) (refl, tt),
)
