-- ===== src/Market/Reconciliation/Strongest.antt =====
-- The rank of the clusters in `_select_candidate` of marketdata/reconciliation.py.
use mini_qmt.Common.{
  All-of, ℕ, ◌≤◌, ◌≡◌, refl, sym, ap, ◌∙◌, arith, Bool, true, false, List, [], ◌∷◌, ltb, leb,
  leb→le, length, All, if◌then◌else◌,
}
use mini_qmt.Common.Sorting.{sort, insert, All-insert}
use mathlib.Core.Path.{subst}
use mini_qmt.Market.Reconciliation.{
  Values, FieldRule, Candidate, Cluster, support, or_clusters, add_candidates, cluster_before,
  eligible_of, is_consensus, selection_of, select_candidate,
}
use mini_qmt.Market.Reconciliation.Clusters.{add_candidates-first, first_of_insert}

module _ {ℓ} {A : Type ℓ} (f : A → ℕ) where
  -- What is measured by `f` at most as its first element.
  abbrev Led : List A → Type 0
  Led [] = Unit
  Led (y ∷ ys) = All (λ z. f z ≤ f y) ys

module _ {A : Type 0} (f : A → ℕ) (before : A → A → Bool)
    (high : (x y : A) → before y x ≡ true → f x ≤ f y)
    (low : (x y : A) → before y x ≡ false → f y ≤ f x) where
  insert-Led : (x : A) (ys : List A) → Led f ys → Led f (insert before x ys)
  unfolding insert
  insert-Led x [] h = tt
  insert-Led x (y ∷ ys) h = go (before y x) refl
    where
      le_trans : (a : ℕ) {b c : ℕ} → a ≤ b → b ≤ c → a ≤ c
      le_trans a h k = omega arith

      go : (b : Bool) → before y x ≡ b → Led f (if b then y ∷ insert before x ys else x ∷ y ∷ ys)
      go true e = All-insert before (λ z. f z ≤ f y) x ys (high x y e) h
      go false e = (
        low x y e,
        All-of (λ z. f z ≤ f y) (λ z. f z ≤ f x) (λ z l. le_trans (f z) l (low x y e)) ys h,
      )

  sort-Led : (xs : List A) → Led f (sort before xs)
  unfolding sort
  sort-Led [] = tt
  sort-Led (x ∷ xs) = insert-Led x (sort before xs) (sort-Led xs)

module _ {A : Type 0} (P : A → Type 0) (before : A → A → Bool) where
  insert-All : (x : A) (ys : List A) → All P (insert before x ys) → P x × All P ys
  unfolding insert
  insert-All x [] h = h
  insert-All x (y ∷ ys) h = go (before y x) h (insert-All x ys)
    where
      go :
          (b : Bool)
          → All P (if b then y ∷ insert before x ys else x ∷ y ∷ ys)
          → (All P (insert before x ys) → P x × All P ys)
          → P x × All P (y ∷ ys)
      go true k f = let (l, r) = f k.1 in (l, (k.0, r))
      go false k f = k

  -- What holds of a sorted list holds of the list.
  sort-All : (xs : List A) → All P (sort before xs) → All P xs
  unfolding sort
  sort-All [] h = tt
  sort-All (x ∷ xs) h = let (l, r) = insert-All x (sort before xs) h in (l, sort-All xs r)

module _ {V F : Type 0} (values : Values V F) (rule : FieldRule F) where
  -- The measures of `cluster_before` agree with the supports.
  before_high : (x y : Cluster V) → cluster_before values rule y x ≡ true → support x ≤ support y
  before_high (a, left) (b, right) h = ground arith

  before_low : (x y : Cluster V) → cluster_before values rule y x ≡ false → support y ≤ support x
  before_low (a, left) (b, right) h = ground arith

  eligible_enough :
      (ks : List (Cluster V))
      → All (λ k. rule.minimum_independent_backends ≤ support k) (eligible_of values rule ks)
  eligible_enough [] = tt
  eligible_enough (k ∷ ks) =
      go (leb rule.minimum_independent_backends (support k)) refl (eligible_enough ks)
    where
      go :
          (b : Bool)
          → leb rule.minimum_independent_backends (support k) ≡ b
          → All (λ k. rule.minimum_independent_backends ≤ support k) (eligible_of values rule ks)
          → All
              (λ k. rule.minimum_independent_backends ≤ support k)
              (if b then k ∷ eligible_of values rule ks else eligible_of values rule ks)
      go true e r = (leb→le rule.minimum_independent_backends (support k) e, r)
      go false e r = r

  -- A cluster that is not eligible has less support than the minimum.
  below_minimum :
      (m : ℕ) (ks : List (Cluster V))
      → rule.minimum_independent_backends ≤ m
      → All (λ (k : Cluster V). support k ≤ m) (eligible_of values rule ks)
      → All (λ (k : Cluster V). support k ≤ m) ks
  below_minimum m [] h r = tt
  below_minimum m (k ∷ ks) h r =
      go (leb rule.minimum_independent_backends (support k)) refl r (below_minimum m ks h)
    where
      rest : List (Cluster V)
      rest = eligible_of values rule ks

      go :
          (b : Bool)
          → leb rule.minimum_independent_backends (support k) ≡ b
          → All (λ (k : Cluster V). support k ≤ m) (if b then k ∷ rest else rest)
          → (All (λ (k : Cluster V). support k ≤ m) rest
              → All (λ (k : Cluster V). support k ≤ m) ks)
          → All (λ (k : Cluster V). support k ≤ m) (k ∷ ks)
      go true e r f = (r.0, f r.1)
      go false e r f = (less (support k) e, f r)
        where
          less : (n : ℕ) → leb rule.minimum_independent_backends n ≡ false → n ≤ m
          less n e = ground (arith, h)

  of_ranked :
      (m : ℕ) (eligible clusters : List (Cluster V))
      → All (λ k. rule.minimum_independent_backends ≤ support k) eligible
      → All (λ (k : Cluster V). support k ≤ m) (or_clusters eligible clusters)
      → (All (λ (k : Cluster V). support k ≤ m) eligible
          → rule.minimum_independent_backends ≤ m
          → All (λ (k : Cluster V). support k ≤ m) clusters)
      → All (λ (k : Cluster V). support k ≤ m) clusters
  of_ranked m [] clusters h r f = r
  of_ranked m (e ∷ es) clusters h r f = f r (omega (arith, h.0, r.0))

  -- The first ranked cluster has the greatest support of all clusters, eligible or not.
  ranked-strongest :
      (clusters : List (Cluster V)) (w : Cluster V) (ws : List (Cluster V))
      → sort (cluster_before values rule) (or_clusters (eligible_of values rule clusters) clusters)
        ≡ w ∷ ws
      → All (λ (k : Cluster V). support k ≤ support w) clusters
  ranked-strongest clusters w ws sorted =
      let before = cluster_before values rule in
      let eligible = eligible_of values rule clusters in
      let m = support w in
      let led = subst (Led (λ (k : Cluster V). support k)) sorted (
        sort-Led (λ (k : Cluster V). support k) before before_high before_low
          (or_clusters eligible clusters)) in
      let all =
        sort-All (λ (k : Cluster V). support k ≤ m) before (or_clusters eligible clusters)
          (subst (All (λ (k : Cluster V). support k ≤ m)) (sym sorted) (self m, led)) in
      of_ranked m eligible clusters (eligible_enough clusters) all
        (λ r h. below_minimum m clusters h r)
    where
      self : (n : ℕ) → n ≤ n
      self n = omega arith

  -- What the ranked clusters select.
  selected :
      (clusters ranked : List (Cluster V)) (disagreement consensus : Bool)
      → sort (cluster_before values rule) (or_clusters (eligible_of values rule clusters) clusters)
        ≡ ranked
      → ((w : Cluster V) × (ws : List (Cluster V)) × (ranked ≡ w ∷ ws))
      → All
          (λ (k : Cluster V).
            support k ≤ length (selection_of values rule disagreement consensus ranked).agreeing)
          clusters
  selected clusters ranked disagreement consensus sorted (w, ws, e) =
      rw e (ranked-strongest clusters w ws (sorted ∙ e))

  some_ranked :
      (eligible : List (Cluster V)) (l : Cluster V) (ls : List (Cluster V))
      → (w : Cluster V) × (ws : List (Cluster V)) × (sort
            (cluster_before values rule)
            (or_clusters eligible (l ∷ ls))
          ≡ w ∷ ws)
  unfolding sort
  some_ranked [] l ls =
      let before = cluster_before values rule in first_of_insert before l (sort before ls)
  some_ranked (e ∷ es) l ls =
      let before = cluster_before values rule in first_of_insert before e (sort before es)

  -- No group of candidates with equivalent values has more distinct backends than the agreeing ones,
  -- where the groups are those that the loop over the candidates builds.
  pub select_candidate-strongest :
      (c : Candidate V) (cs : List (Candidate V))
      → All
          (λ (k : Cluster V). support k ≤ length (select_candidate values (c ∷ cs) rule).agreeing)
          (add_candidates values rule [] (c ∷ cs))
  unfolding select_candidate
  select_candidate-strongest c cs =
      let before = cluster_before values rule in
      let clusters = add_candidates values rule ((c, []) ∷ []) cs in
      let eligible = eligible_of values rule clusters in
      let (l, ls, opened) = add_candidates-first values rule (c, []) [] cs in
      let (w, ws, sorted) = some_ranked eligible l ls in
      selected clusters (sort before (or_clusters eligible clusters)) (ltb 1 (length clusters))
        (is_consensus values rule eligible) refl
        (w, ws, ap (λ x. sort before (or_clusters eligible x)) opened ∙ sorted)
