-- ===== src/Tunnel/Vless/Routing/Laws.antt =====
-- daemon/internal/tunnel/vless.go: what setting up and removing leave of a kernel that obeys the
-- documented behaviour of ip and iptables. The kernel is seen by the number of rules for a mark and a
-- table, by whether a table has routes, and by the number of redirections of a mark to a port.
use mathlib.Core.Path.{fun_ext}
use dark_routev.Base.{
  Bool, String, arith, eq_iff, false, if◌then◌else◌, itoa, none, refl, some, str_eq, subst, true, ℕ,
  ◌&&◌, ◌+◌, ◌-◌, ◌<◌, ◌≡◌,
}
use dark_routev.Shell.{Command, Shell, Outcome, in_context, run, status, run_ignored}
use dark_routev.Shell.Laws.{and_then_ind}
use dark_routev.Tunnel.Vless.Routing.{
  rule, add_route, flush_routes, redirect, or_undo, setup_with, teardown_with, setup_routing,
  teardown_routing,
}

pub record Tables : Type 0 where
  pub rules : String → String → ℕ
  pub routed : String → Bool
  pub redirects : String → String → ℕ

-- The number at one pair of texts is changed, the others are not.
abbrev pub change_at : String → String → (ℕ → ℕ) → (String → String → ℕ) → String → String → ℕ
change_at a b f n x y = if str_eq a x && str_eq b y then f (n x y) else n x y

-- Two views agree.
abbrev pub Agree : Tables → Tables → Type 0
Agree v w =
    ((m t : String) → v.rules m t ≡ w.rules m t)
    × ((t : String) → v.routed t ≡ w.routed t)
    × ((m p : String) → v.redirects m p ≡ w.redirects m p)

abbrev pub with_rule : String → String → Tables → Tables
with_rule m t v = record v { rules = change_at m t (λ n. n + 1) v.rules }

abbrev pub without_rule : String → String → Tables → Tables
without_rule m t v = record v { rules = change_at m t (λ n. n - 1) v.rules }

abbrev pub with_route : String → Bool → Tables → Tables
with_route t b v = record v { routed = λ x. if str_eq t x then b else v.routed x }

abbrev pub with_redirect : String → String → Tables → Tables
with_redirect m p v = record v { redirects = change_at m p (λ n. n + 1) v.redirects }

abbrev pub without_redirect : String → String → Tables → Tables
without_redirect m p v = record v { redirects = change_at m p (λ n. n - 1) v.redirects }

module _ {K : Type 0} (view : K → Tables) where
  -- The manual pages of ip-rule, ip-route and iptables: what a command that succeeds adds or removes.
  -- One that fails changes nothing.
  pub record ObeysRouting (sh : Shell K) : Type 0 where
    pub adds_rule :
        (m t : String) (k : K)
        → let (ok, k') = sh (rule "add" m t) k in
          Agree (view k') (if ok then with_rule m t (view k) else view k)
    pub dels_rule :
        (m t : String) (k : K)
        → let (ok, k') = sh (rule "del" m t) k in
          Agree (view k') (if ok then without_rule m t (view k) else view k)
    pub adds_route :
        (t : String) (k : K)
        → let (ok, k') = sh (add_route t) k in
          Agree (view k') (if ok then with_route t true (view k) else view k)
    pub flushes_routes :
        (t : String) (k : K)
        → let (ok, k') = sh (flush_routes t) k in
          Agree (view k') (if ok then with_route t false (view k) else view k)
    pub adds_redirect :
        (m p : String) (k : K)
        → let (ok, k') = sh (redirect "-A" m p) k in
          Agree (view k') (if ok then with_redirect m p (view k) else view k)
    pub dels_redirect :
        (m p : String) (k : K)
        → let (ok, k') = sh (redirect "-D" m p) k in
          Agree (view k') (if ok then without_redirect m p (view k) else view k)

  -- Nothing comes between, such as another holder of the xtables lock: what is there can be removed.
  pub record IsUndisturbed (sh : Shell K) : Type 0 where
    pub finds_rule :
        (m t : String) (k : K) → 0 < (view k).rules m t → (sh (rule "del" m t) k).0 ≡ true
    pub finds_route :
        (t : String) (k : K) → (view k).routed t ≡ true → (sh (flush_routes t) k).0 ≡ true
    pub finds_redirect :
        (m p : String) (k : K) → 0 < (view k).redirects m p → (sh (redirect "-D" m p) k).0 ≡ true

  -- What setting up promises: all three entries, or none.
  abbrev pub SetUp : String → String → String → K → Outcome K → Type 0
  SetUp m t p k (none, k') =
      Agree (view k') (with_redirect m p (with_route t true (with_rule m t (view k))))
  SetUp m t p k (some c, k') = Agree (view k') (view k)

  or_undo_status :
      (P : Outcome K → Type 0) (undo : K → K) (c : Command) (r : Bool × K) (rest : K → Outcome K)
      → (r.0 ≡ false → P (some c, undo r.1))
      → (r.0 ≡ true → P (rest r.1))
      → P (or_undo undo (status c r) rest)
  or_undo_status P undo c (true, k) rest f t = t refl
  or_undo_status P undo c (false, k) rest f t = f refl

  pub or_undo_ind :
      (P : Outcome K → Type 0) (undo : K → K) (sh : Shell K) (c : Command) (k : K)
      (rest : K → Outcome K)
      → ((sh c k).0 ≡ false → P (some c, undo (sh c k).1))
      → ((sh c k).0 ≡ true → P (rest (sh c k).1))
      → P (or_undo undo (run sh c k) rest)
  or_undo_ind P undo sh c k rest f t = or_undo_status P undo c (sh c k) rest f t

  made :
      (r : Bool × K) (x : Tables) (k : K)
      → r.0 ≡ true
      → Agree (view r.1) (if r.0 then x else view k)
      → Agree (view r.1) x
  made (true, k') x k e a = a
  made (false, k') x k e a = ground arith

  unmade :
      (r : Bool × K) (x : Tables) (k : K)
      → r.0 ≡ false
      → Agree (view r.1) (if r.0 then x else view k)
      → Agree (view r.1) (view k)
  unmade (true, k') x k e a = ground arith
  unmade (false, k') x k e a = a

  -- A removal either takes effect or finds nothing.
  rule_removed :
      (m t : String) (k : K) (r : Bool × K)
      → Agree (view r.1) (if r.0 then without_rule m t (view k) else view k)
      → (0 < (view k).rules m t → r.0 ≡ true)
      → Agree (view r.1) (without_rule m t (view k))
  rule_removed m t k (true, k') a f = a
  rule_removed m t k (false, k') a f =
      ((λ x y. ground (arith, a.0 x y, f, eq_iff m x, eq_iff t y)), a.1, a.2)

  routes_removed :
      (t : String) (k : K) (r : Bool × K)
      → Agree (view r.1) (if r.0 then with_route t false (view k) else view k)
      → ((view k).routed t ≡ true → r.0 ≡ true)
      → Agree (view r.1) (with_route t false (view k))
  routes_removed t k (true, k') a f = a
  routes_removed t k (false, k') a f = (a.0, (λ x. ground (arith, a.1 x, f, eq_iff t x)), a.2)

  redirect_removed :
      (m p : String) (k : K) (r : Bool × K)
      → Agree (view r.1) (if r.0 then without_redirect m p (view k) else view k)
      → (0 < (view k).redirects m p → r.0 ≡ true)
      → Agree (view r.1) (without_redirect m p (view k))
  redirect_removed m p k (true, k') a f = a
  redirect_removed m p k (false, k') a f =
      (a.0, a.1, (λ x y. ground (arith, a.2 x y, f, eq_iff m x, eq_iff p y)))

  module _ (sh : Shell K) (h : ObeysRouting sh) (u : IsUndisturbed sh) where
    del_rule :
        (m t : String) (k : K) → Agree (view (sh (rule "del" m t) k).1) (without_rule m t (view k))
    del_rule m t k =
        rule_removed m t k (sh (rule "del" m t) k) (h.dels_rule m t k) (u.finds_rule m t k)

    del_routes :
        (t : String) (k : K) → Agree (view (sh (flush_routes t) k).1) (with_route t false (view k))
    del_routes t k =
        routes_removed t k (sh (flush_routes t) k) (h.flushes_routes t k) (u.finds_route t k)

    del_redirect :
        (m p : String) (k : K)
        → Agree (view (sh (redirect "-D" m p) k).1) (without_redirect m p (view k))
    del_redirect m p k =
        redirect_removed m p k (sh (redirect "-D" m p) k) (h.dels_redirect m p k)
          (u.finds_redirect m p k)

    -- Either all three entries are made, or the kernel is as it was.
    setup_with-SetUp :
        (port table mark : ℕ) (k : K)
        → (view k).routed (itoa table) ≡ false
        → SetUp (itoa mark) (itoa table) (itoa port) k (setup_with sh port table mark k)
    unfolding setup_with
    setup_with-SetUp port table mark k new =
        let m = itoa mark in
        let t = itoa table in
        let p = itoa port in
        let P = SetUp m t p k in
        let del = run_ignored sh (rule "del" m t) in
        let a₁ = h.adds_rule m t k in
        and_then_ind P sh (rule "add" m t) k _
          (λ f. unmade (sh (rule "add" m t) k) (with_rule m t (view k)) k f a₁)
          (λ t₁.
            let k₁ = run_ignored sh (rule "add" m t) k in
            let b₁ = made (sh (rule "add" m t) k) (with_rule m t (view k)) k t₁ a₁ in
            let a₂ = h.adds_route t k₁ in
            or_undo_ind P del sh (add_route t) k₁ _
              (λ f.
                let k₂ = run_ignored sh (add_route t) k₁ in
                let b₂ = unmade (sh (add_route t) k₁) (with_route t true (view k₁)) k₁ f a₂ in
                let c = del_rule m t k₂ in
                (
                  (λ x y. ground (arith, b₁.0 x y, b₂.0 x y, c.0 x y)),
                  (λ x. ground (arith, b₁.1 x, b₂.1 x, c.1 x)),
                  (λ x y. ground (arith, b₁.2 x y, b₂.2 x y, c.2 x y)),
                ))
              (λ t₂.
                let k₂ = run_ignored sh (add_route t) k₁ in
                let b₂ = made (sh (add_route t) k₁) (with_route t true (view k₁)) k₁ t₂ a₂ in
                let a₃ = h.adds_redirect m p k₂ in
                let undo : K → K = λ k₃. del (run_ignored sh (flush_routes t) k₃) in
                or_undo_ind P undo sh (redirect "-A" m p) k₂ (λ k₃. (none, k₃))
                  (λ f.
                    let k₃ = run_ignored sh (redirect "-A" m p) k₂ in
                    let b₃ =
                      unmade (sh (redirect "-A" m p) k₂) (with_redirect m p (view k₂)) k₂ f a₃ in
                    let c = del_routes t k₃ in
                    let d = del_rule m t (run_ignored sh (flush_routes t) k₃) in
                    (
                      (λ x y. ground (arith, b₁.0 x y, b₂.0 x y, b₃.0 x y, c.0 x y, d.0 x y)),
                      (λ x.
                          ground
                            (arith, new, eq_iff t x, b₁.1 t, b₁.1 x, b₂.1 x, b₃.1 x, c.1 x, d.1 x)),
                      (λ x y. ground (arith, b₁.2 x y, b₂.2 x y, b₃.2 x y, c.2 x y, d.2 x y)),
                    ))
                  (λ t₃.
                    let b₃ =
                      made (sh (redirect "-A" m p) k₂) (with_redirect m p (view k₂)) k₂ t₃ a₃ in
                    (
                      (λ x y. ground (arith, b₁.0 x y, b₂.0 x y, b₃.0 x y)),
                      (λ x. ground (arith, b₁.1 x, b₂.1 x, b₃.1 x)),
                      (λ x y. ground (arith, b₁.2 x y, b₂.2 x y, b₃.2 x y)),
                    ))))

    torn_down :
        (port table mark : ℕ) (k k' : K)
        → (view k).routed (itoa table) ≡ false
        → SetUp (itoa mark) (itoa table) (itoa port) k (none, k')
        → Agree (view (teardown_with sh port table mark k')) (view k)
    unfolding teardown_with
    torn_down port table mark k k' new s =
        let m = itoa mark in
        let t = itoa table in
        let p = itoa port in
        let k₁ = run_ignored sh (rule "del" m t) k' in
        let k₂ = run_ignored sh (flush_routes t) k₁ in
        let a = del_rule m t k' in
        let b = del_routes t k₁ in
        let c = del_redirect m p k₂ in
        (
          (λ x y. ground (arith, s.0 x y, a.0 x y, b.0 x y, c.0 x y)),
          (λ x. ground (arith, new, eq_iff t x, s.1 x, a.1 x, b.1 x, c.1 x)),
          (λ x y. ground (arith, s.2 x y, a.2 x y, b.2 x y, c.2 x y)),
        )

  -- A context that is not done in any state
  abbrev pub IsLive : (K → Bool) → Type 0
  IsLive done = (k : K) → done k ≡ false

  live_shell : (sh : Shell K) (done : K → Bool) → IsLive done → sh ≡ in_context done sh
  unfolding in_context
  live_shell sh done live = fun_ext λ c. fun_ext λ k. rw (live k) refl

  module _ (sh : Shell K) (up_done down_done : K → Bool) where
    -- After the entries that were set up are removed, the kernel is as it was.
    abbrev pub TornDown : ℕ → ℕ → ℕ → K → Outcome K → Type 0
    TornDown port table mark k (none, k') =
        Agree (view (teardown_routing down_done sh port table mark k')) (view k)
    TornDown port table mark k (some c, k') = Agree (view k') (view k)

    from_SetUp :
        (h : ObeysRouting sh) (u : IsUndisturbed sh) (live : IsLive down_done) (port table mark : ℕ)
        (k : K)
        → (view k).routed (itoa table) ≡ false
        → (o : Outcome K) → SetUp (itoa mark) (itoa table) (itoa port) k o
        → TornDown port table mark k o
    unfolding teardown_routing
    from_SetUp h u live port table mark k new (some c, k') s = s
    from_SetUp h u live port table mark k new (none, k') s =
        subst (λ cmd. Agree (view (teardown_with cmd port table mark k')) (view k))
          (live_shell sh down_done live) (torn_down sh h u port table mark k k' new s)

    -- Where the commands do what the manual pages say, nothing comes between them, both contexts last,
    -- and the table has no routes before: setting up the routing and removing it again gives back the
    -- rules, routes and redirections as they were, and setting up that fails changes none of them.
    pub teardown_routing-setup_routing :
        ObeysRouting sh
        → IsUndisturbed sh
        → IsLive up_done
        → IsLive down_done
        → (port table mark : ℕ) (k : K) → (view k).routed (itoa table) ≡ false
        → TornDown port table mark k (setup_routing up_done sh port table mark k)
    unfolding setup_routing
    teardown_routing-setup_routing h u up_live down_live port table mark k new =
        from_SetUp h u down_live port table mark k new _ (
          subst
            (λ cmd. SetUp (itoa mark) (itoa table) (itoa port) k (setup_with cmd port table mark k))
            (live_shell sh up_done up_live) (setup_with-SetUp sh h u port table mark k new))
