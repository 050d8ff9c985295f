-- ===== src/Client/Discovery/Quorum.antt =====
-- The quorum rule of `discoverFamily` (internal/client/ipdiscovery/discover.go): who wins, whatever
-- the order in which the answers arrive and in which the counts are walked.
use diyddns.Prelude.{
  ℕ, suc, ◌+◌, ◌≤◌, ◌<◌, true, false, ◌≡◌, ◌≢◌, refl, subst, fun_ext, ◌⊎◌, ◌↔◌, inl, inr, List, [],
  ◌∷◌, Option, none, some, ite, if_pos, if_neg, arith, Bool-cases, ltb, ◌==◌,
}
use diyddns.Client.Discovery.{
  Scan, scan_start, scan_step, scan, pick, collect, bump, tally, discover_family,
}

module _ {A : Type 0} (eq : Discrete A) where
  -- How many of the answers are the address `b`.
  unfoldable pub count : A → List A → ℕ
  count b [] = 0
  count b (a ∷ addrs) = let rest = count b addrs in ite (eq a b) (suc rest) rest

  -- A count for each address, `k` set to `n`.
  abbrev put : (A → ℕ) → A → ℕ → A → ℕ
  put f k n b = ite (eq k b) n (f b)

  -- Each entry is positive, and its address has not been seen before.
  abbrev Fresh : (A → ℕ) → List (A × ℕ) → Type 0
  Fresh f [] = Unit {0}
  Fresh f ((k, n) ∷ es) = (f k ≡ 0) × (0 < n) × Fresh (put f k n) es

  abbrev extend : (A → ℕ) → List (A × ℕ) → A → ℕ
  extend f [] b = f b
  extend f ((k, n) ∷ es) b = extend (put f k n) es b

  -- `entries` lists the counts `f`, each once, in some order.
  pub record Enumerates (f : A → ℕ) (entries : List (A × ℕ)) : Type 0 where
    pub fresh : Fresh (λ _. 0) entries
    pub agrees : (b : A) → extend (λ _. 0) entries b ≡ f b

  -- What the loop knows of the counts `f` that it has walked.
  record Walked (f : A → ℕ) (s : Scan A) : Type 0 where
    below : (b : A) → f b ≤ s.top
    single :
        s.tie ≡ false
        → ((s.top ≡ 0) × (s.winner ≡ none))
          ⊎ ((a : A) × (s.winner ≡ some a)
              × (f a ≡ s.top)
              × (0 < s.top)
              × ((b : A) → b ≢ a → f b < s.top))
    double : s.tie ≡ true → (a : A) × (b : A) × (a ≢ b) × (f a ≡ s.top) × (f b ≡ s.top)

  start-Walked : Walked (λ _. 0) scan_start
  unfolding scan_start
  start-Walked = record {
    below = λ b. ground arith;
    single = λ _. inl (refl, refl);
    double = λ h. absurd (ground arith);
  }

  module _ (f : A → ℕ) (s : Scan A) (k : A) (n : ℕ) (unseen : f k ≡ 0) (positive : 0 < n) where
    larger-Walked :
        Walked f s
        → s.top < n
        → Walked (put f k n) (record { top = n; winner = some k; tie = false })
    larger-Walked w h = record {
      below = λ b. ground (arith, w.below b);
      single = λ _. inr (k, refl, ground arith, positive, λ b ne. ground (arith, w.below b));
      double = λ t. absurd (ground arith);
    }

    equal-Walked : Walked f s → n ≡ s.top → Walked (put f k n) (record s { tie = true })
    equal-Walked w h = record {
      below = λ b. ground (arith, w.below b);
      single = λ t. absurd (ground arith);
      double = λ _. elim (Bool-cases s.tie) [
        | inl t ↦ let (a, b, ne, ea, eb) = w.double t in (a, b, ne, ground arith, ground arith)
        | inr t ↦ elim (w.single t) [
          | inl (z, _) ↦ absurd (omega arith)
          | inr (a, _, ea, p, _) ↦ (k, a, (λ e. ground arith), ground arith, ground arith)
        ]
      ];
    }

    smaller-Walked : Walked f s → n < s.top → Walked (put f k n) s
    smaller-Walked w h = record {
      below = λ b. ground (arith, w.below b);
      single = λ t. elim (w.single t) [
        | inl (z, _) ↦ absurd (omega arith)
        | inr (a, e, ea, p, lt) ↦ inr (a, e, ground arith, p, λ b ne. ground (arith, lt b ne))
      ];
      double = λ t. let (a, b, ne, ea, eb) = w.double t in (a, b, ne, ground arith, ground arith);
    }

    step-Walked : Walked f s → Walked (put f k n) (scan_step s (k, n))
    unfolding scan_step
    step-Walked w = elim (Bool-cases (ltb s.top n)) [
      | inl more ↦ rw more (larger-Walked w (ground arith))
      | inr less ↦ elim (Bool-cases (n == s.top)) [
        | inl e ↦ rw (less, e) (equal-Walked w (ground arith))
        | inr e ↦ rw (less, e) (smaller-Walked w (ground arith))
      ]
    ]

  scan-Walked :
      (f : A → ℕ) (s : Scan A) (es : List (A × ℕ))
      → Fresh f es
      → Walked f s
      → Walked (extend f es) (scan s es)
  unfolding scan
  scan-Walked f s [] fr w = w
  scan-Walked f s ((k, n) ∷ es) (unseen, p, rest) w =
      scan-Walked (put f k n) (scan_step s (k, n)) es rest (step-Walked f s k n unseen p w)

  -- `a` has the quorum, and more answers than every other address.
  abbrev pub Wins : (A → ℕ) → ℕ → A → Type 0
  Wins f quorum a = (quorum ≤ f a) × ((b : A) → b ≢ a → f b < f a)

  pick_of_Walked :
      (f : A → ℕ) (quorum : ℕ) (es : List (A × ℕ)) (a : A)
      → 0 < quorum
      → Walked f (scan scan_start es)
      → (pick quorum es ≡ some a) ↔ Wins f quorum a
  unfolding pick
  pick_of_Walked f quorum es a q w = elim (Bool-cases (scan scan_start es).tie) [
    | inl t ↦
        let (x, y, ne, ex, ey) = w.double t in
        (
          λ e. absurd (ground arith),
          λ (_, most). absurd (elim (eq x a) [
            | yes h ↦ ground (arith, most y, w.below a)
            | no h ↦ ground (arith, most x, w.below a)
          ]),
        )
    | inr t ↦ elim (w.single t) [
      | inl (z, e) ↦ (λ h. absurd (ground arith), λ (h, _). absurd (ground (arith, w.below a)))
      | inr (x, e, ex, p, lt) ↦ (
        λ h. (ground arith, λ b ne. ground (arith, lt b)),
        λ (h, most). elim (eq x a) [
          | yes same ↦ ground arith
          | no other ↦ absurd (ground (arith, most x, w.below a))
        ],
      )
    ]
  ]

  -- What `extend` says of one address depends on what was known of that address.
  extend_at : (f g : A → ℕ) (m : List (A × ℕ)) (b : A) → f b ≡ g b → extend f m b ≡ extend g m b
  extend_at f g [] b h = h
  extend_at f g ((k, n) ∷ m) b h = extend_at (put f k n) (put g k n) m b (ground arith)

  -- An address that was seen is not in the entries that are left.
  extend_seen : (f : A → ℕ) (m : List (A × ℕ)) (b : A) → Fresh f m → 0 < f b → extend f m b ≡ f b
  extend_seen f [] b fr p = refl
  extend_seen f ((k, n) ∷ m) b (z, _, fr) p = ground (arith, extend_seen (put f k n) m b fr)

  Fresh-zeros :
      (f g : A → ℕ) (m : List (A × ℕ)) → ((b : A) → f b ≡ 0 → g b ≡ 0) → Fresh f m → Fresh g m
  Fresh-zeros f g [] h fr = tt
  Fresh-zeros f g ((k, n) ∷ m) h (z, p, fr) =
      (h k z, p, Fresh-zeros (put f k n) (put g k n) m (λ b e. ground (arith, h b)) fr)

  bump-Fresh : (f : A → ℕ) (a : A) (m : List (A × ℕ)) → f a ≡ 0 → Fresh f m → Fresh f (bump eq a m)
  unfolding bump
  bump-Fresh f a [] z fr = (z, omega arith, tt)
  bump-Fresh f a ((b, n) ∷ m) z (zb, p, fr) = elim (eq a b) [
    | yes h ↦
        rw (if_pos _ h)
          (zb, omega arith, Fresh-zeros (put f b n) (put f b (n + 1)) m (λ x e. ground arith) fr)
    | no h ↦ rw (if_neg _ h) (zb, p, bump-Fresh (put f b n) a m (ground arith) fr)
  ]

  extend-bump :
      (f : A → ℕ) (a : A) (m : List (A × ℕ)) (b : A)
      → f a ≡ 0
      → Fresh f m
      → extend f (bump eq a m) b ≡ (ite (eq a b) 1 0) + extend f m b
  unfolding bump
  extend-bump f a [] b z fr = ground arith
  extend-bump f a ((k, n) ∷ m) b z (zk, p, fr) = elim (eq a k) [
    | yes h ↦ rw (if_pos _ h) (
        ground (
          arith,
          extend_seen (put f k n) m k fr,
          extend_seen (put f k (n + 1)) m k
              (Fresh-zeros (put f k n) (put f k (n + 1)) m (λ x e. ground arith) fr),
          extend_at (put f k n) (put f k (n + 1)) m b,
        ))
    | no h ↦ rw (if_neg _ h) (extend-bump (put f k n) a m b (ground arith) fr)
  ]

  tally-Enumerates :
      (f : A → ℕ) (addrs : List A) (m : List (A × ℕ))
      → Enumerates f m
      → Enumerates (λ b. count b addrs + f b) (tally eq addrs m)
  unfolding tally count
  tally-Enumerates f [] m e = record { fresh = e.fresh; agrees = λ b. omega (arith, e.agrees b) }
  tally-Enumerates f (a ∷ addrs) m e =
      let rest =
        tally-Enumerates (λ b. ite (eq a b) 1 0 + f b) addrs (bump eq a m)
          (record {
            fresh = bump-Fresh (λ _. 0) a m refl e.fresh;
            agrees = λ b. omega (arith, extend-bump (λ _. 0) a m b refl e.fresh, e.agrees b);
          }) in
      record { fresh = rest.fresh; agrees = λ b. ground (arith, rest.agrees b) }

  -- A walk of a map lists the same counts, in an order of its own.
  abbrev pub Reorders : (List (A × ℕ) → List (A × ℕ)) → Type 0
  Reorders walk = (f : A → ℕ) (m : List (A × ℕ)) → Enumerates f m → Enumerates f (walk m)

  answered-Wins :
      (walk : List (A × ℕ) → List (A × ℕ)) (quorum : ℕ) (addrs : List A) (a : A)
      → 0 < quorum
      → Reorders walk
      → (pick quorum (walk (tally eq addrs [])) ≡ some a) ↔ Wins (λ b. count b addrs) quorum a
  answered-Wins walk quorum addrs a q r =
      let e =
        r _ _ (tally-Enumerates (λ _. 0) addrs [] (record { fresh = tt; agrees = λ b. refl })) in
      let w = scan-Walked (λ _. 0) scan_start _ e.fresh start-Walked in
      let same = fun_ext λ b. omega (arith, e.agrees b) in
      let entries = walk (tally eq addrs []) in
      pick_of_Walked (λ b. count b addrs) quorum entries a q
        (subst (λ f. Walked f (scan scan_start entries)) same w)

  -- With a positive quorum, whatever the order in which the answers arrive and in which the map is
  -- walked, an address is the result exactly when at least `quorum` of the valid answers are that
  -- address and every other address has strictly fewer.
  pub discover_family-Wins :
      (walk : List (A × ℕ) → List (A × ℕ)) (quorum : ℕ) (answers : List (Option A)) (a : A)
      → 0 < quorum
      → Reorders walk
      → (discover_family eq walk quorum answers ≡ some a)
        ↔ Wins (λ b. count b (collect eq answers)) quorum a
  unfolding discover_family
  discover_family-Wins walk quorum [] a q r =
      (λ e. absurd (ground arith), λ (h, _). absurd (unfold count collect in omega arith))
  discover_family-Wins walk quorum (o ∷ os) a q r =
      answered-Wins walk quorum (collect eq (o ∷ os)) a q r
