-- ===== src/Advisor/Attempts/Laws.antt =====
-- The log is the end of the history.
use native.Mathlib.Nat.{zero-add, add-zero, suc-add}
use dark_routev.Base.{
  List, [], ap, arith, drop, if_ind, length, length-append, length-drop, ltb, refl, suc, sym, zero,
  ℕ, ◌++◌, ◌+◌, ◌-◌, ◌<◌, ◌∙◌, ◌∷◌, ◌≡◌, ◌≤◌,
}
use dark_routev.Advisor.{AttemptEntry}
use dark_routev.Advisor.Attempts.{AttemptLog, new_attempt_log, add, recent}

-- The last `n` elements
abbrev pub last {ℓ} : {A : Type ℓ} → ℕ → List A → List A
last n xs = drop (length xs - n) xs

drop_all {ℓ} : {A : Type ℓ} (n : ℕ) (xs : List A) → length xs ≤ n → drop n xs ≡ []
drop_all zero [] h = refl
drop_all zero (x ∷ xs) h = absurd (omega arith)
drop_all (suc n) [] h = refl
drop_all (suc n) (x ∷ xs) h = drop_all n xs (omega arith)

drop-append {ℓ} :
    {A : Type ℓ} (n : ℕ) (xs ys : List A) → n ≤ length xs → drop n (xs ++ ys) ≡ drop n xs ++ ys
drop-append zero xs ys h = refl
drop-append (suc n) [] ys h = absurd (omega arith)
drop-append (suc n) (x ∷ xs) ys h = drop-append n xs ys (omega arith)

drop-drop {ℓ} : {A : Type ℓ} (m n : ℕ) (xs : List A) → drop m (drop n xs) ≡ drop (n + m) xs
drop-drop m zero xs = rw zero-add
drop-drop zero (suc n) [] = rw add-zero
drop-drop (suc m) (suc n) [] = rw suc-add
drop-drop m (suc n) (x ∷ xs) = rw suc-add (drop-drop m n xs)

-- The log after the entries were added one after the other.
pub add_all : List AttemptEntry → AttemptLog → AttemptLog
add_all [] l = l
add_all (e ∷ es) l = add_all es (add e l)

-- Cutting the grown list to its end gives the end of the grown history.
last-grown :
    (n : ℕ) (h : List AttemptEntry) (e : AttemptEntry)
    → last n (last n h ++ (e ∷ [])) ≡ last n (h ++ (e ∷ []))
last-grown n h e =
    let k : ℕ = length h - n in
    let joined : drop k h ++ (e ∷ []) ≡ drop k (h ++ (e ∷ [])) =
      sym (drop-append k h (e ∷ []) (omega arith)) in
    let size : length (last n h ++ (e ∷ [])) ≡ length h - k + 1 =
      rw (length-append (drop k h) (e ∷ []), length-drop k h) in
    let whole : length (h ++ (e ∷ [])) ≡ length h + 1 = length-append h (e ∷ []) in
    let moved : k + (length (last n h ++ (e ∷ [])) - n) ≡ length (h ++ (e ∷ [])) - n =
      rw (size, whole) (omega arith) in
    ap (drop (length (last n h ++ (e ∷ [])) - n)) joined
    ∙ drop-drop (length (last n h ++ (e ∷ [])) - n) k (h ++ (e ∷ []))
    ∙ ap (λ m. drop m (h ++ (e ∷ []))) moved

add_lem :
    (h : List AttemptEntry) (e : AttemptEntry) (l : AttemptLog)
    → l.entries ≡ last l.max_size h
    → (add e l).entries ≡ last l.max_size (h ++ (e ∷ []))
unfolding add
add_lem h e l w =
    let grown : List AttemptEntry = l.entries ++ (e ∷ []) in
    if_ind (λ kept. kept ≡ last l.max_size (h ++ (e ∷ []))) (ltb l.max_size (length grown))
      (drop (length grown - l.max_size) grown) grown
      (λ t. ap (λ es. last l.max_size (es ++ (e ∷ []))) w ∙ last-grown l.max_size h e)
      (λ f.
        let low : length grown - l.max_size ≡ 0 = ground (arith, f) in
        sym (ap (λ m. drop m grown) low)
        ∙ ap (λ es. last l.max_size (es ++ (e ∷ []))) w
        ∙ last-grown l.max_size h e)

add-max_size : (e : AttemptEntry) (l : AttemptLog) → (add e l).max_size ≡ l.max_size
unfolding add
add-max_size e l = refl

append_nil : (h : List AttemptEntry) → h ++ [] ≡ h
append_nil [] = refl
append_nil (x ∷ h) = ap (λ t. x ∷ t) (append_nil h)

append_one : (h es : List AttemptEntry) (e : AttemptEntry) → (h ++ (e ∷ [])) ++ es ≡ h ++ (e ∷ es)
append_one [] es e = refl
append_one (x ∷ h) es e = ap (λ t. x ∷ t) (append_one h es e)

add_all-entries :
    (h es : List AttemptEntry) (l : AttemptLog)
    → l.entries ≡ last l.max_size h
    → (add_all es l).entries ≡ last l.max_size (h ++ es)
unfolding add_all
add_all-entries h [] l w = rw append_nil w
add_all-entries h (e ∷ es) l w =
    let later =
      add_all-entries (h ++ (e ∷ [])) es (add e l) (rw (add-max_size e l) (add_lem h e l w)) in
    let moved = ap (λ m. last m ((h ++ (e ∷ [])) ++ es)) (add-max_size e l) in
    later ∙ moved ∙ ap (last l.max_size) (append_one h es e)

new_attempt_log-max_size :
    (stored : List AttemptEntry) (limit : ℕ)
    → 0 < limit
    → (new_attempt_log stored limit).max_size ≡ limit
unfolding new_attempt_log
new_attempt_log-max_size stored limit p = ground arith

new_attempt_log-entries :
    (stored : List AttemptEntry) (limit : ℕ) → (new_attempt_log stored limit).entries ≡ stored
unfolding new_attempt_log
new_attempt_log-entries stored limit = refl

last-last : (n m : ℕ) (h : List AttemptEntry) → n ≤ m → last n (last m h) ≡ last n h
last-last n m h le =
    let k : ℕ = length h - m in
    let size : length (last m h) ≡ length h - k = length-drop k h in
    let moved : k + (length (last m h) - n) ≡ length h - n = omega (arith, size, le) in
    drop-drop (length (last m h) - n) k h ∙ ap (λ j. drop j h) moved

recent-last : (n : ℕ) (l : AttemptLog) → 0 < n → recent n l ≡ last n l.entries
unfolding recent
recent-last n l p = ap (λ j. drop j l.entries) (ground arith)

-- A log that starts with at most as many entries as its limit, which is not zero, answers a request for
-- the last `n` entries (at least one and at most the limit) with the last `n` of all that it
-- started with and was given since, in their order.
pub recent-add_all :
    (stored es : List AttemptEntry) (limit n : ℕ)
    → length stored ≤ limit
    → 0 < n
    → n ≤ limit
    → recent n (add_all es (new_attempt_log stored limit)) ≡ last n (stored ++ es)
recent-add_all stored es limit n fits p le =
    let start : AttemptLog = new_attempt_log stored limit in
    let size : start.max_size ≡ limit = new_attempt_log-max_size stored limit (omega arith) in
    let uncut : length stored - start.max_size ≡ 0 = omega (arith, size) in
    let whole : start.entries ≡ last start.max_size stored =
      new_attempt_log-entries stored limit ∙ sym (ap (λ j. drop j stored) uncut) in
    recent-last n (add_all es start) p
    ∙ ap (last n) (add_all-entries stored es start whole)
    ∙ last-last n start.max_size (stored ++ es) (omega (arith, size))
