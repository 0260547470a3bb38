-- ===== src/Tunnel/Splitter/Laws.antt =====
-- daemon/internal/tunnel/clienthello_splitter.go: what the peer receives.
use dark_routev.Base.{
  Bool-cases, List, Option, String, [], ap, arith, drop, false, if_ind, if◌then◌else◌, inl, inr,
  is_some, leb, length, length-append, length-drop, length-take, ltb, lt→ltb, none, refl, some,
  subst, sym, take, take-append-drop, ℕ, ◌++◌, ◌<◌, ◌==◌, ◌||◌, ◌∙◌, ◌∷◌, ◌≡◌,
}
use dark_routev.Tunnel.Splitter.{
  Writer, Splitter, new_splitter, second_part, after_first, first_write, or_write, write,
  write_each,
}

-- The bytes of the packets, one after the other
abbrev pub joined : List (List ℕ) → List ℕ
joined [] = []
joined (p ∷ ps) = p ++ joined ps

append_assoc : (a b c : List ℕ) → (a ++ b) ++ c ≡ a ++ (b ++ c)
append_assoc [] b c = refl
append_assoc (x ∷ a) b c = ap (λ t. x ∷ t) (append_assoc a b c)

append_nil : (a : List ℕ) → a ++ [] ≡ a
append_nil [] = refl
append_nil (x ∷ a) = ap (λ t. x ∷ t) (append_nil a)

joined-append : (ps : List (List ℕ)) (p : List ℕ) → joined (ps ++ (p ∷ [])) ≡ joined ps ++ p
joined-append [] p = append_nil p
joined-append (q ∷ ps) p =
    ap (λ t. q ++ t) (joined-append ps p) ∙ sym (append_assoc q (joined ps) p)

module _ {C : Type 0} (received : C → List (List ℕ)) where
  -- A connection that does not fail: all bytes are written, as one packet.
  abbrev pub IsReliable : Writer C → Type 0
  IsReliable send =
      (p : List ℕ) (c : C)
      → ((send p c).0 ≡ length p)
        × ((send p c).1 ≡ none)
        × (received (send p c).2 ≡ received c ++ (p ∷ []))

  -- What a write has done: all bytes are reported and sent, in their order.
  abbrev pub AllSent : List ℕ → C → ℕ × Option String × C → Type 0
  AllSent p c (n, err, c') =
      (n ≡ length p) × (err ≡ none) × (joined (received c') ≡ joined (received c) ++ p)

  module _ (send : Writer C) (h : IsReliable send) where
    send-AllSent : (p : List ℕ) (c : C) → AllSent p c (send p c)
    send-AllSent p c = let (n, e, r) = h p c in (n, e, ap joined r ∙ joined-append (received c) p)

    -- Two parts after each other
    after_first-AllSent :
        (p q : List ℕ) (c : C) (r : ℕ × Option String × C)
        → AllSent p c r
        → AllSent (p ++ q) c (after_first send q r)
    unfolding after_first second_part
    after_first-AllSent p q c (n, some e, c') a = ground arith
    after_first-AllSent p q c (n, none, c') a =
        let b = send-AllSent q c' in
        (
          omega (arith, a.0, b.0, length-append p q),
          b.1,
          b.2 ∙ ap (λ t. t ++ q) (a.2) ∙ append_assoc (joined (received c)) p q,
        )

    first_write-AllSent :
        (split_at : ℕ) (p : List ℕ) (c : C) → AllSent p c (first_write send split_at p c)
    unfolding first_write
    first_write-AllSent split_at p c =
        if_ind (AllSent p c) (leb (length p) split_at) (send p c) _ (λ _. send-AllSent p c)
          (λ _.
            subst (λ q. AllSent q c (after_first send (drop split_at p) (send (take split_at p) c)))
              (take-append-drop split_at p)
              (after_first-AllSent (take split_at p) (drop split_at p) c (send (take split_at p) c)
                (send-AllSent (take split_at p) c)))

    or_write-AllSent :
        (p : List ℕ) (c : C) (r : ℕ × Option String × C)
        → AllSent p c r
        → AllSent p c (or_write send p r)
    unfolding or_write
    or_write-AllSent [] c (n, err, c') a =
        if_ind (AllSent [] c) (ltb 0 n || is_some err) (n, err, c') (send [] c') (λ _. a)
          (λ f.
            let b = send-AllSent [] c' in (b.0, b.1, b.2 ∙ append_nil (joined (received c')) ∙ a.2))
    or_write-AllSent (x ∷ p) c (n, err, c') a =
        if_ind (AllSent (x ∷ p) c) (ltb 0 n || is_some err) (n, err, c') (send (x ∷ p) c') (λ _. a)
          (λ f. let n_pos = a.0 in ground (arith, n_pos, f))

    -- A write of the splitter reports and sends all of its bytes.
    write-AllSent :
        (p : List ℕ) (s : Splitter C)
        → let (n, err, s') = write send p s in AllSent p s.conn (n, err, s'.conn)
    unfolding write
    write-AllSent p s = elim (Bool-cases s.fired) [
      | inl e ↦ rw e (send-AllSent p s.conn)
      | inr e ↦ rw e (or_write-AllSent p s.conn _ (first_write-AllSent s.split_at p s.conn))
    ]

    -- Over a connection that does not fail, the peer receives the bytes of all writes in their order,
    -- whatever the length at which the first one is split.
    pub write_each-joined :
        (ps : List (List ℕ)) (s : Splitter C)
        → joined (received (write_each send ps s).conn) ≡ joined (received s.conn) ++ joined ps
    unfolding write_each
    write_each-joined [] s = sym (append_nil (joined (received s.conn)))
    write_each-joined (p ∷ ps) s =
        let s' = (write send p s).2 in
        write_each-joined ps s'
        ∙ ap (λ t. t ++ joined ps) ((write-AllSent p s).2)
        ∙ append_assoc (joined (received s.conn)) p (joined ps)

    after_first-send :
        (q : List ℕ) (r : ℕ × Option String × C)
        → r.1 ≡ none
        → (after_first send q r).2 ≡ (send q r.2).2
    unfolding after_first second_part
    after_first-send q (n, some e, c) h = ground arith
    after_first-send q (n, none, c) h = refl

    or_write-done : (p : List ℕ) (r : ℕ × Option String × C) → 0 < r.0 → or_write send p r ≡ r
    unfolding or_write
    or_write-done p (n, err, c) h = rw (lt→ltb 0 n h) refl

    two_parts :
        (n : ℕ) (p : List ℕ) (c : C)
        → n < length p
        → received (or_write send p (first_write send n p c)).2
          ≡ (received c ++ (take n p ∷ [])) ++ (drop n p ∷ [])
    unfolding first_write
    two_parts n p c lt =
        let sent = send (take n p) c in
        let a = first_write-AllSent n p c in
        let split : leb (length p) n ≡ false = ground (arith, lt) in
        let whole : first_write send n p c ≡ after_first send (drop n p) sent = rw split refl in
        ap (λ (r : ℕ × Option String × C). received r.2)
          (or_write-done p (first_write send n p c) (omega (arith, a.0, lt)) ∙ whole)
        ∙ ap received (after_first-send (drop n p) sent ((h (take n p) c).1))
        ∙ ((h (drop n p) sent.2).2)
        ∙ ap (λ t. t ++ (drop n p ∷ [])) ((h (take n p) c).2)

    -- Over a connection that does not fail, the first write of more bytes than the limit goes out in
    -- two packets, the first of as many bytes as the limit says, neither of them empty; a limit of 0
    -- stands for 32.
    pub write-new_splitter :
        (limit : ℕ) (p : List ℕ) (c : C)
        → let n = if limit == 0 then 32 else limit in
          n < length p
          → (received (write send p (new_splitter c limit)).2.conn
              ≡ (received c ++ (take n p ∷ [])) ++ (drop n p ∷ []))
            × (length (take n p) ≡ n)
            × (0 < n)
            × (0 < length (drop n p))
    unfolding write new_splitter
    write-new_splitter limit p c lt =
        let n = if limit == 0 then 32 else limit in
        let zero_limit : leb limit 0 ≡ (limit == 0) = ground arith in
        (
          rw zero_limit (two_parts n p c lt),
          omega (arith, length-take n p, lt),
          ground arith,
          omega (arith, length-drop n p, lt),
        )
