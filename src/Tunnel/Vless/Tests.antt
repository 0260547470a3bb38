-- ===== src/Tunnel/Vless/Tests.antt =====
-- A kernel that is its own view, a system on it, and the theorems at them.
use dark_routev.Base.{
  Bool, Bool-cases, List, String, [], arith, false, if_ind, if◌then◌else◌, inl, inr, itoa, none,
  refl, some, str_eq, suc, true, zero, ℕ, ◌*◌, ◌+◌, ◌==◌, ◌∷◌, ◌≡◌, ◌⊎◌,
}
use dark_routev.Config.{default_daemon_config}
use dark_routev.Shell.{Shell, in_context}
use dark_routev.Tunnel.Vless.Routing.{setup_routing, setup_with, local_port}
use dark_routev.Base.Dict.{lookup}
use dark_routev.Tunnel.{routing_table_id, fwmark_for_table}
use dark_routev.Tunnel.Vless.Routing.Laws.{
  Tables, Agree, ObeysRouting, IsUndisturbed, TornDown, with_rule, without_rule, with_route,
  with_redirect, without_redirect, teardown_routing-setup_routing,
}
use dark_routev.Tunnel.Vless.Manager.{System, Vless, up, kill_proc, wait_for_port}
use dark_routev.Tunnel.Waiting.{wait_loop, port_fuel, answered}
use dark_routev.Tunnel.Waiting.Laws.{Waited, wait_loop-port}
use dark_routev.Tunnel.Vless.Manager.Killing.{IsApart, Kept}
use dark_routev.Tunnel.Vless.Manager.Laws.{UpDone, up-UpDone}
use dark_routev.Samples.{vless_base, vless_block}

-- The n-th argument
abbrev arg : ℕ → List String → String
arg n [] = ""
arg zero (a ∷ rest) = a
arg (suc n) (a ∷ rest) = arg n rest

abbrev done : Tables → Bool × Tables
done v = (true, v)

abbrev kernel : Shell Tables
kernel (name, args) v =
    if str_eq name "iptables"
    then done (
        if str_eq (arg 2 args) "-A"
        then with_redirect (arg 7 args) (arg 13 args) v
        else without_redirect (arg 7 args) (arg 13 args) v)
    else if str_eq (arg 0 args) "rule"
    then done (
        if str_eq (arg 1 args) "add"
        then with_rule (arg 3 args) (arg 5 args) v
        else without_rule (arg 3 args) (arg 5 args) v)
    else if str_eq (arg 1 args) "flush"
    then done (with_route (arg 3 args) false v)
    else done (with_route (arg 6 args) true v)

same : (v : Tables) → Agree v v
same v = ((λ x y. refl), (λ x. refl), (λ x y. refl))

-- A kernel with the process groups that run in it
record Host : Type 0 where
  tables : Tables
  runs : ℕ → Bool

abbrev host_shell : Shell Host
host_shell c h = let (ok, v) = kernel c h.tables in (ok, record h { tables = v })

host_shell-ObeysRouting : ObeysRouting (λ (h : Host). h.tables) host_shell
host_shell-ObeysRouting = record {
  adds_rule = λ m t h. same (with_rule m t h.tables);
  dels_rule = λ m t h. same (without_rule m t h.tables);
  adds_route = λ t h. same (with_route t true h.tables);
  flushes_routes = λ t h. same (with_route t false h.tables);
  adds_redirect = λ m p h. same (with_redirect m p h.tables);
  dels_redirect = λ m p h. same (without_redirect m p h.tables);
}

host_shell-IsUndisturbed : IsUndisturbed (λ (h : Host). h.tables) host_shell
host_shell-IsUndisturbed = record {
  finds_rule = λ m t h p. refl;
  finds_route = λ t h p. refl;
  finds_redirect = λ m p h q. refl;
}

-- A context without an end
abbrev lasting : Host → Bool
lasting h = false

abbrev set_running : ℕ → Bool → Host → Host
set_running pid b h = record h { runs = λ x. if pid == x then b else h.runs x }

-- sing-box listens at the second dialing.
abbrev system : System Host
system = record {
  shell = host_shell;
  make_dir = λ d h. (true, h);
  write_conf = λ p c h. (true, h);
  start = λ b args h. (some 4242, set_running 4242 true h);
  signal = λ pid n h. if n == 9 then set_running pid false h else h;
  wait = λ pid h. h;
  time = λ h i. i * 301;
  answers = λ h port i. i == 1;
}

signalled :
    (pid n : ℕ) (h : Host)
    → Kept (λ (h : Host). h.tables) (λ h. h.runs) system (system.signal pid n h) h
signalled pid n h =
    if_ind (λ k. Kept (λ (h : Host). h.tables) (λ h. h.runs) system k h) (n == 9)
      (set_running pid false h) h (λ _. (same h.tables, λ x r. ground (arith, r)))
      (λ _. (same h.tables, λ x r. r))

new_or_old :
    (x : ℕ) (h : Host)
    → (if 4242 == x then true else h.runs x) ≡ true
    → (4242 ≡ x) ⊎ (h.runs x ≡ true)
new_or_old x h r = elim (Bool-cases (4242 == x)) [
  | inl e ↦ inl (ground (arith, e))
  | inr e ↦ inr (ground (arith, e, r))
]

system-IsApart : IsApart (λ (h : Host). h.tables) (λ h. h.runs) system
system-IsApart = record {
  dirs = λ d h. (same h.tables, λ x r. r);
  files = λ p c h. (same h.tables, λ x r. r);
  starts = λ b args h. (same h.tables, λ x r. new_or_old x h r);
  signals = signalled;
  waits = λ pid h. (same h.tables, λ x r. r);
  commands = λ c h pid r. r;
  kills = λ pid h. ground arith;
}

abbrev idle : Vless Host
idle = record {
  procs = ("other", 17) ∷ [];
  system = record {
    tables = record { rules = λ m t. 0; routed = λ t. false; redirects = λ m p. 0 };
    runs = λ x. x == 17;
  };
}

wait_loop-port_example :
    Waited
      (λ i. i * 301)
      (λ i. i == 1)
      (0 * 301 + 10000)
      0
      (wait_loop (λ i. i * 301) (λ i. i == 1) (0 * 301 + 10000) port_fuel 0)
wait_loop-port_example = wait_loop-port (λ i. i * 301) (λ i. i == 1) (λ i. omega arith)

teardown_routing-setup_routing_example :
    TornDown
      (λ (h : Host). h.tables)
      host_shell
      lasting
      lasting
      1080
      160
      160
      idle.system
      (setup_routing lasting host_shell 1080 160 160 idle.system)
teardown_routing-setup_routing_example =
    teardown_routing-setup_routing (λ (h : Host). h.tables) host_shell lasting lasting
      host_shell-ObeysRouting host_shell-IsUndisturbed (λ k. refl) (λ k. refl) 1080 160 160
      idle.system refl

up-UpDone_example :
    UpDone
      (λ (h : Host). h.tables)
      (λ h. h.runs)
      system
      system-IsApart
      host_shell-ObeysRouting
      host_shell-IsUndisturbed
      lasting
      lasting
      (λ k. refl)
      (λ k. refl)
      vless_base
      vless_block
      idle
      (up system lasting default_daemon_config vless_base idle)
up-UpDone_example =
    up-UpDone (λ (h : Host). h.tables) (λ h. h.runs) system system-IsApart host_shell-ObeysRouting
      host_shell-IsUndisturbed lasting lasting (λ k. refl) (λ k. refl) vless_base vless_block
      default_daemon_config idle refl refl

-- The tunnel of the sample comes up.
up_runs : (up system lasting default_daemon_config vless_base idle).0 ≡ none
unfolding up local_port routing_table_id fwmark_for_table kill_proc lookup wait_for_port wait_loop
    answered setup_routing setup_with in_context itoa
up_runs = refl
