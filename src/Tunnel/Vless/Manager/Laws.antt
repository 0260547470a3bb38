-- ===== src/Tunnel/Vless/Manager/Laws.antt =====
-- daemon/internal/tunnel/vless.go, Up and Down: the process and the routing stand or fall together.
use dark_routev.Base.{
  Bool, Option, String, arith, false, if_ind, itoa, none, refl, some, subst, sym, true, ℕ, ◌∙◌, ◌≡◌,
}
use dark_routev.Base.Dict.{Dict, lookup, insert, lookup-insert, lookup-insert_same}
use dark_routev.Config.{TunnelConfig, VlessConfig, DaemonConfig}
use dark_routev.Shell.{Command, Shell, Outcome, in_context, run_ignored}
use dark_routev.Shell.Laws.{and_then_ind}
use dark_routev.Tunnel.{routing_table_id, fwmark_for_table}
use dark_routev.Tunnel.Vless.Routing.{
  setup_routing, teardown_routing, local_port, setup_with, teardown_with, rule, add_route,
  flush_routes, redirect,
}
use dark_routev.Tunnel.Vless.Routing.Laws.{
  Tables, Agree, ObeysRouting, IsUndisturbed, IsLive, or_undo_ind, TornDown,
  teardown_routing-setup_routing,
}
use dark_routev.Tunnel.Vless.Manager.{
  System, Vless, UpError, wait_for_port, kill_proc, is_up, after_routing, after_start, after_write,
  written, up_with, up, down,
}
use dark_routev.Tunnel.Vless.Manager.Killing.{
  or_map, Kept, Started, IsApart, Agree-trans, Kept-trans, SameOthers, Gone, Killed, Killed-Gone,
  old_pid, kill_proc-Killed,
}

module _ {K : Type 0} (view : K → Tables) (runs : K → ℕ → Bool) (sys : System K) where
  module _ (apart : IsApart view runs sys) where
    SameOthers-insert :
        (id : String) (pid : ℕ) (m : Vless K) (procs : Dict ℕ)
        → SameOthers view runs sys id m.procs procs
        → SameOthers view runs sys id m.procs (insert id pid procs)
    SameOthers-insert id pid m procs s other ne =
        ground (arith, s other ne, lookup-insert id other pid procs)

    -- Commands in a context start nothing that goes on.
    in_context-runs :
        (done : K → Bool) (pid : ℕ) (c : Command) (k : K)
        → runs (in_context done sys.shell c k).1 pid ≡ true
        → runs k pid ≡ true
    unfolding in_context
    in_context-runs done pid c k =
        if_ind (λ (r : Bool × K). runs r.1 pid ≡ true → runs k pid ≡ true) (done k) (false, k)
          (sys.shell c k) (λ _ r. r) (λ _. apart.commands c k pid)

    setup_routing-runs :
        (done : K → Bool) (port table mark : ℕ) (k : K) (pid : ℕ)
        → runs (setup_routing done sys.shell port table mark k).1 pid ≡ true
        → runs k pid ≡ true
    unfolding setup_routing setup_with
    setup_routing-runs done port table mark k pid =
        let m = itoa mark in
        let t = itoa table in
        let p = itoa port in
        let cmd : Shell K = in_context done sys.shell in
        let was = in_context-runs done pid in
        let P : Outcome K → Type 0 = λ o. runs o.1 pid ≡ true → runs k pid ≡ true in
        let del = run_ignored cmd (rule "del" m t) in
        let k₁ = run_ignored cmd (rule "add" m t) k in
        let k₂ = run_ignored cmd (add_route t) k₁ in
        let k₃ = run_ignored cmd (redirect "-A" m p) k₂ in
        let w₁ = was (rule "add" m t) k in
        and_then_ind P cmd (rule "add" m t) k _ (λ f. w₁)
          (λ t₁.
            or_undo_ind view P del cmd (add_route t) k₁ _
              (λ f r. w₁ (was (add_route t) k₁ (was (rule "del" m t) k₂ r)))
              (λ t₂.
                or_undo_ind view P (λ k₃. del (run_ignored cmd (flush_routes t) k₃)) cmd
                  (redirect "-A" m p) k₂ (λ k₃. (none, k₃))
                  (λ f r. w₁ (
                    was (add_route t) k₁ (
                      was (redirect "-A" m p) k₂ (
                        was (flush_routes t) k₃
                          (was (rule "del" m t) (run_ignored cmd (flush_routes t) k₃) r)))))
                  (λ t₃ r. w₁ (was (add_route t) k₁ (was (redirect "-A" m p) k₂ r)))))

    teardown_routing-runs :
        (done : K → Bool) (port table mark : ℕ) (k : K) (pid : ℕ)
        → runs (teardown_routing done sys.shell port table mark k) pid ≡ true
        → runs k pid ≡ true
    unfolding teardown_routing teardown_with
    teardown_routing-runs done port table mark k pid r =
        let was = in_context-runs done pid in was _ k (was _ _ (was _ _ r))

    module _ (obeys : ObeysRouting view sys.shell) (calm : IsUndisturbed view sys.shell)
        (up_done down_done : K → Bool) (up_live : IsLive view up_done)
        (down_live : IsLive view down_done) (tc : TunnelConfig) (vless : VlessConfig) where
      -- What Up promises: if it succeeds the process is known, and Down undoes all of it; if it fails
      -- there is nothing new. Other configurations keep their processes.
      abbrev pub UpDone : Vless K → Option UpError × Vless K → Type 0
      UpDone m (none, m') =
          (is_up sys tc m' ≡ true)
          × SameOthers view runs sys tc.id m.procs m'.procs
          × Killed view runs sys tc.id m (down sys down_done tc vless m')
      UpDone m (some e, m') = Killed view runs sys tc.id m m'

      -- The same, after the old process has been killed
      abbrev Done : Vless K → Option UpError × Vless K → Type 0
      Done m (none, m') =
          (is_up sys tc m' ≡ true)
          × SameOthers view runs sys tc.id m.procs m'.procs
          × Gone view runs sys tc.id m (down sys down_done tc vless m')
      Done m (some e, m') = Gone view runs sys tc.id m m'

      Done-UpDone :
          (m n : Vless K) (r : Option UpError × Vless K)
          → Killed view runs sys tc.id m n
          → Done n r
          → UpDone m r
      Done-UpDone m n (none, m') k (u, s, g) = (
        u,
        (λ other ne. s other ne ∙ k.0.1 other ne),
        Killed-Gone view runs sys tc.id m n (down sys down_done tc vless m') k g,
      )
      Done-UpDone m n (some e, m') k g = Killed-Gone view runs sys tc.id m n m' k g

      -- The process that was started last is killed again.
      kill_proc-Gone :
          (m n : Vless K) (pid : ℕ)
          → lookup tc.id n.procs ≡ some pid
          → SameOthers view runs sys tc.id m.procs n.procs
          → Agree (view n.system) (view m.system)
          → Started view runs sys (some pid) n.system m.system
          → Gone view runs sys tc.id m (kill_proc sys tc.id n)
      kill_proc-Gone m n pid e s a new =
          let l = kill_proc sys tc.id n in
          let ((gone, t, (b, kept)), ended) = kill_proc-Killed view runs sys apart tc.id n in
          (
            gone,
            (λ other ne. t other ne ∙ s other ne),
            (
              Agree-trans view runs sys (view l.system) (view n.system) (view m.system) b a,
              λ x r.
                  old_pid view runs sys x pid l.system m.system r (ended pid e) (new x (kept x r)),
            ),
          )

      after_routing-Done :
          (m : Vless K) (procs : Dict ℕ) (pid : ℕ) (k : K) (o : Outcome K)
          → lookup tc.id procs ≡ some pid
          → SameOthers view runs sys tc.id m.procs procs
          → Agree (view k) (view m.system)
          → Started view runs sys (some pid) o.1 m.system
          → TornDown view sys.shell up_done down_done
              (local_port tc vless)
              (routing_table_id tc)
              (fwmark_for_table (routing_table_id tc))
              k
              o
          → Done m (after_routing sys tc procs o)
      unfolding after_routing is_up down
      after_routing-Done m procs pid k (none, k') e s a new t =
          let table = routing_table_id tc in
          let port = local_port tc vless in
          let mark = fwmark_for_table table in
          let k₂ = teardown_routing down_done sys.shell port table mark k' in
          let n : Vless K = record { procs = procs; system = k₂ } in
          (
            rw e refl,
            s,
            kill_proc-Gone m n pid e s
                (Agree-trans view runs sys (view k₂) (view k) (view m.system) t a)
                (λ x r. new x (teardown_routing-runs down_done port table mark k' x r)),
          )
      after_routing-Done m procs pid k (some c, k') e s a new t =
          kill_proc-Gone m (record { procs = procs; system = k' }) pid e s
            (Agree-trans view runs sys (view k') (view k) (view m.system) t a) new

      after_start-Done :
          (m : Vless K) (k : K) (r : Option ℕ × K)
          → lookup tc.id m.procs ≡ none
          → (view m.system).routed (itoa (routing_table_id tc)) ≡ false
          → Kept view runs sys k m.system
          → Agree (view r.1) (view k)
          → Started view runs sys r.0 r.1 k
          → Done m (after_start sys up_done tc vless m.procs r)
      unfolding after_start
      after_start-Done m k (none, k') gone empty (a, was) b new = (
        gone,
        (λ other ne. refl),
        (
          Agree-trans view runs sys (view k') (view k) (view m.system) b a,
          λ pid r. was pid (new pid r),
        ),
      )
      after_start-Done m k (some pid, k') gone empty (a, was) b new =
          let port = local_port tc vless in
          let table = routing_table_id tc in
          let mark = fwmark_for_table table in
          let procs = insert tc.id pid m.procs in
          let same = SameOthers-insert tc.id pid m m.procs (λ other ne. refl) in
          let kept = Agree-trans view runs sys (view k') (view k) (view m.system) b a in
          let o = setup_routing up_done sys.shell port table mark k' in
          let known = lookup-insert_same tc.id pid m.procs in
          let fresh : Started view runs sys (some pid) k' m.system =
            λ x r. or_map (was x) (new x r) in
          if_ind (Done m) (wait_for_port sys port k') _ _
            (λ _.
              after_routing-Done m procs pid k' o known same kept
                (λ x r. fresh x (setup_routing-runs up_done port table mark k' x r))
                (teardown_routing-setup_routing view sys.shell up_done down_done obeys calm up_live
                  down_live port table mark k' (kept.1 (itoa table) ∙ empty)))
            (λ _.
              kill_proc-Gone m (record { procs = procs; system = k' }) pid known same kept fresh)

      after_write-Done :
          (cfg : DaemonConfig) (m : Vless K) (r : Bool × K)
          → lookup tc.id m.procs ≡ none
          → (view m.system).routed (itoa (routing_table_id tc)) ≡ false
          → Kept view runs sys r.1 m.system
          → Done m (after_write sys up_done cfg tc vless m.procs r)
      unfolding after_write
      after_write-Done cfg m (false, k) gone empty a = (gone, (λ other ne. refl), a)
      after_write-Done cfg m (true, k) gone empty a =
          let (b, new) = apart.starts _ _ k in after_start-Done m k _ gone empty a b new

      written-Kept :
          (r : Bool × K) (k : K)
          → Kept view runs sys r.1 k
          → Kept view runs sys (written sys up_done tc vless r).1 k
      unfolding written
      written-Kept (false, k') k a = a
      written-Kept (true, k') k a =
          Kept-trans view runs sys (written sys up_done tc vless (true, k')).1 k' k
            (apart.files _ _ k') a

      -- Where ip and iptables do what their manual pages say with nothing between, both contexts last,
      -- and the routing table of the configuration is empty: an Up that succeeds leaves a known process,
      -- and the Down after it gives back the rules, routes and redirections from before; an Up that
      -- fails, at whatever step, leaves the same routing. After either, the process that the
      -- configuration had before has ended, no process runs that did not run before the Up, and none of
      -- the configuration is known. The entries of other configurations are never touched.
      pub up-UpDone :
          (cfg : DaemonConfig) (m : Vless K)
          → tc.vless_config ≡ some vless
          → (view m.system).routed (itoa (routing_table_id tc)) ≡ false
          → UpDone m (up sys up_done cfg tc m)
      unfolding up up_with
      up-UpDone cfg m e empty =
          let clean = kill_proc sys tc.id m in
          let k = kill_proc-Killed view runs sys apart tc.id m in
          subst (λ v. UpDone m (up_with sys up_done cfg tc v m)) (sym e)
            (Done-UpDone m clean _ k (
              after_write-Done cfg clean _ k.0.0 (k.0.2.0.1 (itoa (routing_table_id tc)) ∙ empty) (
                written-Kept (sys.make_dir "/tmp/vpn-watchdog" clean.system) clean.system
                  (apart.dirs _ clean.system))))
