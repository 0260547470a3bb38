-- ===== src/Switch/Apply/Traces.antt =====
-- The calls that a round of the loop makes, in their order.
use dark_routev.Base.{
  Bool, In-append_right, List, Option, String, [], ap, arith, false, if_ind, leb, none, refl, some,
  suc, sym, true, ℕ, ◌++◌, ◌+◌, ◌-◌, ◌<◌, ◌∙◌, ◌∷◌, ◌≡◌, ◌≤◌,
}
use dark_routev.Config.{TunnelConfig}
use dark_routev.Machine.{enter_switching}
use dark_routev.Dpi.{BlockType}
use dark_routev.Tunnel.{Backend, for_config, fwmark}
use dark_routev.Switch.{
  Engine, Outside, Effect, tunnel_up, policy_apply, policy_clear, probe_all, record_session, moment,
  emit,
}
use dark_routev.Switch.Apply.{
  record_attempt, dpi_outcome, apply, apply_on, brought_up, verify, verified, applied, apply_failed,
  verify_failed, succeeded, fail_machine, try_config, try_from,
}
use dark_routev.Switch.Apply.Effects.{
  AllCleared, sessions, sessions-append, sessions-dpi, append_assoc, append_nil, RoundTrace,
  AllCleared-append, after_apply, after_verify, down_part, after_apply-sessions,
  after_apply-AllCleared, after_verify-sessions, after_verify-AllCleared, after_verify-clear,
  failed_round,
}

module _ (o : Outside) (hint : BlockType) (reason : String) (max_attempts : ℕ) where
  verified-trace :
      (tc : TunnelConfig) (before ups : List Effect) (r : Bool × Engine)
      → r.1.effects ≡ before ++ (tunnel_up tc ∷ policy_apply (fwmark tc) ∷ ups)
      → sessions ups ≡ 0
      → AllCleared ups
      → RoundTrace tc before (verified o hint reason max_attempts tc r)
  unfolding verified verify_failed succeeded fail_machine record_attempt after_verify down_part
  verified-trace tc before ups (false, e) h z c =
      failed_round tc before (tunnel_up tc ∷ policy_apply (fwmark tc) ∷ ups) (after_verify tc hint)
        e h z (after_verify-sessions tc hint)
        (
          In-append_right (policy_clear (fwmark tc)) ups _ (after_verify-clear tc hint),
          AllCleared-append ups _ c (after_verify-AllCleared tc hint),
        )
  verified-trace tc before ups (true, e) h z c = (
    (tunnel_up tc ∷ policy_apply (fwmark tc) ∷ ups)
        ++ (record_session tc.id true ∷ dpi_outcome tc hint true),
    ap (λ t. t ++ (record_session tc.id true ∷ dpi_outcome tc hint true)) h
        ∙ append_assoc before _ _,
    omega (
      arith,
      z,
      sessions-append ups (record_session tc.id true ∷ dpi_outcome tc hint true),
      sessions-dpi tc hint true,
    ),
  )

  verify-trace :
      (tc : TunnelConfig) (before : List Effect) (e : Engine)
      → e.effects ≡ before ++ (tunnel_up tc ∷ policy_apply (fwmark tc) ∷ [])
      → RoundTrace tc before (verified o hint reason max_attempts tc (verify o e))
  unfolding verify
  verify-trace tc before e h =
      if_ind
        (λ (r : Bool × Engine). RoundTrace tc before (verified o hint reason max_attempts tc r))
        (o.in_time (moment e)) _ _
        (λ _.
          verified-trace tc before (probe_all 0 ∷ []) _
            (ap (λ t. t ++ (probe_all 0 ∷ [])) h ∙ append_assoc before _ _) refl tt)
        (λ _. verified-trace tc before [] (false, e) h refl tt)

  brought_up-trace :
      (tc : TunnelConfig) (e : Engine) (r : Option String)
      → RoundTrace tc e.effects (applied o hint reason max_attempts tc (brought_up o tc e r))
  unfolding applied brought_up apply_failed fail_machine record_attempt after_apply
  brought_up-trace tc e (some text) =
      failed_round tc e.effects (tunnel_up tc ∷ []) (after_apply tc hint)
        (emit (tunnel_up tc ∷ []) e) refl refl (after_apply-sessions tc hint)
        (after_apply-AllCleared tc hint)
  brought_up-trace tc e none =
      verify-trace tc e.effects (emit (tunnel_up tc ∷ policy_apply (fwmark tc) ∷ []) e) refl

  applied-trace :
      (tc : TunnelConfig) (e : Engine) (b : Option Backend)
      → RoundTrace tc e.effects (applied o hint reason max_attempts tc (apply_on o tc e b))
  unfolding applied apply_on apply_failed fail_machine record_attempt after_apply
  applied-trace tc e none =
      failed_round tc e.effects [] (after_apply tc hint) e (sym (append_nil e.effects)) refl
        (after_apply-sessions tc hint) (after_apply-AllCleared tc hint)
  applied-trace tc e (some b) = brought_up-trace tc e (o.up (moment e) tc)

  -- A round of the loop records exactly one session, and if it does not apply the configuration,
  -- every policy mark that it applied is cleared after that.
  pub try_config-trace :
      (tc : TunnelConfig) (e : Engine)
      → RoundTrace tc e.effects (try_config o hint reason max_attempts tc e)
  unfolding try_config apply
  try_config-trace tc e =
      applied-trace tc (record e { machine = enter_switching tc.id e.machine }) (for_config tc)

  round_sessions :
      (tc : TunnelConfig) (before : List Effect) (r : Bool × Engine)
      → RoundTrace tc before r
      → sessions r.1.effects ≡ sessions before + 1
  round_sessions tc before (true, e) (es, h, k) =
      ap sessions h ∙ omega (arith, sessions-append before es, k)
  round_sessions tc before (false, e) (es, h, k, c) =
      ap sessions h ∙ omega (arith, sessions-append before es, k)

  -- The loop tries at most as many configurations as the limit leaves from its round `i` on, which
  -- the recorded sessions count.
  pub try_from-sessions :
      (i : ℕ) (tcs : List TunnelConfig) (e : Engine)
      → sessions (try_from o hint reason max_attempts i tcs e).1.effects
        ≤ sessions e.effects + (max_attempts - i)
  unfolding try_from
  try_from-sessions i [] e = omega arith
  try_from-sessions i (tc ∷ more) e =
      let r : Bool × Engine = try_config o hint reason max_attempts tc e in
      let bound = sessions e.effects + (max_attempts - i) in
      let one = round_sessions tc e.effects r (try_config-trace tc e) in
      let later = try_from-sessions (suc i) more r.1 in
      if_ind (λ (s : String × Engine). sessions s.1.effects ≤ bound) (leb max_attempts i) ("", e) _
        (λ _. omega arith)
        (λ f.
          let room : i < max_attempts = ground (arith, f) in
          if_ind (λ (s : String × Engine). sessions s.1.effects ≤ bound) r.0 (tc.id, r.1)
            (try_from o hint reason max_attempts (suc i) more r.1) (λ _. omega (arith, one, room))
            (λ _. omega (arith, one, later, room)))
