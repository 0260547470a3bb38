-- ===== src/Tunnel/Vless/Manager/Killing.antt =====
-- daemon/internal/tunnel/vless.go, killProc: what it leaves, in a system in which files, signals and
-- commands start nothing.
use dark_routev.Base.{
  Bool, List, Option, String, arith, eq_refl, false, inl, inr, none, refl, some, str_eq, subst,
  true, ℕ, ◌∙◌, ◌≡◌, ◌⊎◌,
}
use dark_routev.Base.Dict.{Dict, lookup, lookup-remove}
use dark_routev.Shell.{Command}
use dark_routev.Tunnel.Vless.Conf.{SingBoxConfig}
use dark_routev.Tunnel.Vless.Routing.Laws.{Tables, Agree}
use dark_routev.Tunnel.Vless.Manager.{System, Vless, killed, kill_proc}

-- What does not run before does not run after, where nothing is started.
not_running :
    (after before : Bool) → (after ≡ true → before ≡ true) → before ≡ false → after ≡ false
not_running true before f e = ground (arith, f refl, e)
not_running false before f e = refl

pub or_map : {A B C : Type 0} → (B → C) → A ⊎ B → A ⊎ C
or_map f (inl a) = inl a
or_map f (inr b) = inr (f b)

same_pid : (a b : ℕ) (o : Option ℕ) → o ≡ some a → o ≡ some b → a ≡ b
same_pid a b none e f = ground (arith, e)
same_pid a b (some c) e f = ground (arith, e, f)

module _ {K : Type 0} (view : K → Tables) (runs : K → ℕ → Bool) (sys : System K) where
  -- The first state has the routing of the second, and no process group that did not run in it.
  abbrev pub Kept : K → K → Type 0
  Kept k' k = Agree (view k') (view k) × ((pid : ℕ) → runs k' pid ≡ true → runs k pid ≡ true)

  -- A program that is started runs in the group that is answered.
  abbrev pub Started : Option ℕ → K → K → Type 0
  Started none k' k = (pid : ℕ) → runs k' pid ≡ true → runs k pid ≡ true
  Started (some new) k' k = (pid : ℕ) → runs k' pid ≡ true → (new ≡ pid) ⊎ (runs k pid ≡ true)

  -- Files, signals and the start of a program do not change the routing, only the start of a program
  -- makes a process group, and one that has got SIGKILL and been waited for has ended.
  pub record IsApart : Type 0 where
    pub dirs : (d : String) (k : K) → Kept (sys.make_dir d k).1 k
    pub files : (p : String) (c : SingBoxConfig) (k : K) → Kept (sys.write_conf p c k).1 k
    pub starts :
        (b : String) (args : List String) (k : K)
        → let (o, k') = sys.start b args k in Agree (view k') (view k) × Started o k' k
    pub signals : (pid n : ℕ) (k : K) → Kept (sys.signal pid n k) k
    pub waits : (pid : ℕ) (k : K) → Kept (sys.wait pid k) k
    pub commands :
        (c : Command) (k : K) (pid : ℕ) → runs (sys.shell c k).1 pid ≡ true → runs k pid ≡ true
    pub kills : (pid : ℕ) (k : K) → runs (sys.wait pid (sys.signal pid 9 k)) pid ≡ false

  pub Agree-refl : (v : Tables) → Agree v v
  Agree-refl v = ((λ x y. refl), (λ x. refl), (λ x y. refl))

  pub Agree-trans : (u v w : Tables) → Agree u v → Agree v w → Agree u w
  Agree-trans u v w a b =
      ((λ x y. a.0 x y ∙ b.0 x y), (λ x. a.1 x ∙ b.1 x), (λ x y. a.2 x y ∙ b.2 x y))

  pub Kept-refl : (k : K) → Kept k k
  Kept-refl k = (Agree-refl (view k), λ pid r. r)

  pub Kept-trans : (k l m : K) → Kept k l → Kept l m → Kept k m
  Kept-trans k l m (a, f) (b, g) =
      (Agree-trans (view k) (view l) (view m) a b, λ pid r. g pid (f pid r))

  -- The entries of the other configurations are the same.
  abbrev pub SameOthers : String → Dict ℕ → Dict ℕ → Type 0
  SameOthers id procs procs' =
      (other : String) → str_eq id other ≡ false → lookup other procs' ≡ lookup other procs

  -- No process of the configuration is known, the others are, the routing is the same, and no process
  -- runs that did not run before.
  abbrev pub Gone : String → Vless K → Vless K → Type 0
  Gone id m m' =
      (lookup id m'.procs ≡ none) × SameOthers id m.procs m'.procs × Kept m'.system m.system

  -- Besides, the process of the configuration has ended.
  abbrev pub Killed : String → Vless K → Vless K → Type 0
  Killed id m m' =
      Gone id m m' × ((pid : ℕ) → lookup id m.procs ≡ some pid → runs m'.system pid ≡ false)

  pub Killed-Gone : (id : String) (m n l : Vless K) → Killed id m n → Gone id n l → Killed id m l
  Killed-Gone id m n l ((_, s, k), ended) (gone, t, j) = (
    (gone, (λ other ne. t other ne ∙ s other ne), Kept-trans l.system n.system m.system j k),
    λ pid e. not_running (runs l.system pid) (runs n.system pid) (j.1 pid) (ended pid e),
  )

  pub old_pid :
      (x pid : ℕ) (l m : K)
      → runs l x ≡ true
      → runs l pid ≡ false
      → (pid ≡ x) ⊎ (runs m x ≡ true)
      → runs m x ≡ true
  old_pid x pid l m r e (inl same) = ground (arith, r, e, same)
  old_pid x pid l m r e (inr old) = old

  module _ (apart : IsApart) where
    ended :
        (pid pid' : ℕ) (k : K) → pid ≡ pid' → runs (sys.wait pid (sys.signal pid 9 k)) pid' ≡ false
    ended pid pid' k e =
        subst (λ x. runs (sys.wait pid (sys.signal pid 9 k)) x ≡ false) e (apart.kills pid k)

    killed-Killed :
        (id : String) (procs : Dict ℕ) (k : K) (o : Option ℕ)
        → lookup id procs ≡ o
        → Killed id (record { procs = procs; system = k }) (killed sys id procs k o)
    unfolding killed
    killed-Killed id procs k none e =
        ((e, (λ other ne. refl), Kept-refl k), λ pid f. ground (arith, e, f))
    killed-Killed id procs k (some pid) e =
        let k₁ = sys.signal pid 15 k in
        let k₂ = sys.signal pid 9 k₁ in
        (
          (
            ground (arith, lookup-remove id id procs, eq_refl id),
            (λ other ne. ground (arith, lookup-remove id other procs)),
            Kept-trans (sys.wait pid k₂) k₂ k (apart.waits pid k₂)
                (Kept-trans k₂ k₁ k (apart.signals pid 9 k₁) (apart.signals pid 15 k)),
          ),
          λ pid' f. ended pid pid' k₁ (same_pid pid pid' (lookup id procs) e f),
        )

    pub kill_proc-Killed : (id : String) (m : Vless K) → Killed id m (kill_proc sys id m)
    unfolding kill_proc
    kill_proc-Killed id m = killed-Killed id m.procs m.system (lookup id m.procs) refl
