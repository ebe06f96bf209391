-- ===== src/Proxy/Experiment/Weights.antt =====
-- selectArm picks an arm with the probability of its weight, and the same arm for a sticky value.
use majordomo_steward.Prelude.{
  ℕ, ◌+◌, ◌-◌, ◌%◌, ◌≤◌, ◌<◌, Str, Option, some, List, [], ◌∷◌, ◌++◌, ◌≡◌, refl, sym, ap, subst,
  Bool-cases, ltb, ltb→lt, ◌∙◌, inl, inr, arith, All, In, here, there, ok,
}
use majordomo_steward.Prelude.Int.{ℤ, pos, negsuc, pos_part, ◌-ℤ◌, +ℤ_pos, -ℤ_pos, int_max, int_mod}
use majordomo_steward.Proxy.Experiment.{
  Arm, u32_mod, fnv32a, offset_basis, total_weight, sticky_value, sticky_number, walk_arms, draw,
  select_arm,
}

-- A weight that is not negative.
abbrev pub IsWeight : Arm → Type 0
IsWeight a = a.weight ≡ pos (pos_part a.weight)

abbrev pub weight_of : List Arm → ℕ
weight_of [] = 0
weight_of (a ∷ arms) = pos_part a.weight + weight_of arms

total_weight-eq :
    (t : ℕ) (arms : List Arm)
    → All IsWeight arms
    → t + weight_of arms ≤ int_max
    → total_weight (pos t) arms ≡ pos (t + weight_of arms)
unfolding total_weight
total_weight-eq t [] w h = ap pos (omega arith)
total_weight-eq t (a ∷ arms) w h = rw w.0 (
    rw (+ℤ_pos t (pos_part a.weight) (omega arith))
      (total_weight-eq (t + pos_part a.weight) arms w.1 (omega arith) ∙ ap pos (omega arith)))

-- Taking off a weight that is too large leaves a negative number.
-ℤ_neg : (n w : ℕ) → n < w → w ≤ int_max → pos n -ℤ pos w ≡ negsuc (w - n - 1)
unfolding ◌-ℤ◌
-ℤ_neg n w h k = ground arith

weight_of-append :
    (front : List Arm) (a : Arm) (back : List Arm)
    → weight_of (front ++ a ∷ back) ≡ weight_of front + pos_part a.weight + weight_of back
weight_of-append [] a back = omega arith
weight_of-append (b ∷ front) a back = omega (arith, weight_of-append front a back)

-- The arm whose interval holds `n` is the one that the walk finds.
walk_arms-interval :
    (n : ℕ) (last : Arm) (front : List Arm) (a : Arm) (back : List Arm)
    → All IsWeight (front ++ a ∷ back)
    → weight_of (front ++ a ∷ back) ≤ int_max
    → weight_of front ≤ n
    → n < weight_of front + pos_part a.weight
    → walk_arms (pos n) last (front ++ a ∷ back) ≡ a
unfolding walk_arms
walk_arms-interval n last [] a back w s lo hi =
    let e : pos n -ℤ a.weight ≡ negsuc (pos_part a.weight - n - 1) =
      ap (λ (x : ℤ). pos n -ℤ x) w.0 ∙ -ℤ_neg n (pos_part a.weight) (omega arith) (omega arith) in
    rw e (ground arith)
walk_arms-interval n last (b ∷ front) a back w s lo hi =
    let e : pos n -ℤ b.weight ≡ pos (n - pos_part b.weight) =
      ap (λ (x : ℤ). pos n -ℤ x) w.0
      ∙ -ℤ_pos n (pos_part b.weight) (omega arith) (omega (arith, weight_of-append front a back)) in
    let rest =
      walk_arms-interval (n - pos_part b.weight) b front a back w.1 (omega arith) (omega arith)
        (omega arith) in
    rw e (ground (arith, rest))

-- What is documented of rand.Intn: for a positive bound, a number from 0 up to the bound.
pub record IsIntn (rand_intn : ℤ → ℤ) : Type 0 where
  pub from_zero : (n : ℕ) → 0 < n → rand_intn (pos n) ≡ pos (pos_part (rand_intn (pos n)))
  pub below : (n : ℕ) → 0 < n → pos_part (rand_intn (pos n)) < n

-- The number that decides: the hash of the sticky value, or a random one where there is no value.
abbrev pub ticket : (ℤ → ℤ) → Str → ℕ → ℕ
ticket rand_intn [] total = pos_part (rand_intn (pos total))
ticket rand_intn (c ∷ value) total = fnv32a offset_basis (c ∷ value) % total

module _ (rand_intn : ℤ → ℤ) (intn : IsIntn rand_intn) where
  ticket_lt : (value : Str) (total : ℕ) → 0 < total → ticket rand_intn value total < total
  ticket_lt [] total h = intn.below total h
  ticket_lt (c ∷ value) total h = omega (arith, h)

  draw-eq :
      (value : Str) (total : ℕ)
      → 0 < total
      → total < u32_mod
      → draw rand_intn value (pos total) ≡ ok (pos (ticket rand_intn value total))
  unfolding draw sticky_number
  draw-eq [] total h k = ap ok (intn.from_zero total h)
  draw-eq (c ∷ value) total h k =
      let e : total % int_mod % u32_mod ≡ total = omega arith in rw e (ground arith)

  select_arm-eq :
      (b : Arm) (rest : List Arm) (key : Option Str) (metadata : List (Str × Str))
      → All IsWeight (b ∷ rest)
      → 0 < weight_of (b ∷ rest)
      → weight_of (b ∷ rest) < u32_mod
      → select_arm rand_intn (b ∷ rest) key metadata
        ≡ ok (
            some (
              walk_arms
                (pos (ticket rand_intn (sticky_value key metadata) (weight_of (b ∷ rest))))
                b
                (b ∷ rest)))
  unfolding select_arm
  select_arm-eq b rest key metadata w h k =
      let e : total_weight (pos 0) (b ∷ rest) ≡ pos (weight_of (b ∷ rest)) =
        total_weight-eq 0 (b ∷ rest) w (omega arith) ∙ ap pos (omega arith) in
      rw e (ground (arith, draw-eq (sticky_value key metadata) (weight_of (b ∷ rest)) h k))

  -- For every list of arms with weights that are not negative and add up to less than 2 ^ 32, cut at
  -- any arm: the arm is selected when the ticket lies in its interval, which begins at the weight of
  -- the arms before it and is as long as its weight. The ticket is the hash of the sticky value
  -- modulo the total, or, if that value is empty, what rand.Intn returns for the total.
  pub select_arm-interval :
      (front : List Arm) (a : Arm) (back : List Arm) (key : Option Str)
      (metadata : List (Str × Str))
      → All IsWeight (front ++ a ∷ back)
      → weight_of (front ++ a ∷ back) < u32_mod
      → weight_of front
        ≤ ticket rand_intn (sticky_value key metadata) (weight_of (front ++ a ∷ back))
      → ticket rand_intn (sticky_value key metadata) (weight_of (front ++ a ∷ back))
        < weight_of front + pos_part a.weight
      → select_arm rand_intn (front ++ a ∷ back) key metadata ≡ ok (some a)
  select_arm-interval [] a back key metadata w k lo hi =
      select_arm-eq a back key metadata w (omega arith) k
      ∙ ap (λ (x : Arm). ok (some x)) (walk_arms-interval _ a [] a back w (omega arith) lo hi)
  select_arm-interval (b ∷ front) a back key metadata w k lo hi =
      select_arm-eq b (front ++ a ∷ back) key metadata w
        (omega (arith, weight_of-append front a back)) k
      ∙ ap (λ (x : Arm). ok (some x))
          (walk_arms-interval _ b (b ∷ front) a back w (omega arith) lo hi)

-- Every number below the total lies in one arm's interval.
interval_of :
    (n : ℕ) (arms : List Arm)
    → n < weight_of arms
    → (front : List Arm) × (a : Arm) × (back : List Arm) × (arms ≡ front ++ a ∷ back)
      × (weight_of front ≤ n)
      × (n < weight_of front + pos_part a.weight)
interval_of n [] h = absurd (omega arith)
interval_of n (a ∷ arms) h = elim (Bool-cases (ltb n (pos_part a.weight))) [
  | inl first ↦ ([], a, arms, refl, omega arith, omega (arith, ltb→lt n (pos_part a.weight) first))
  | inr later ↦ further (interval_of (n - pos_part a.weight) arms (ground arith)) (ground arith)
]
  where
    further :
        ((front : List Arm) × (b : Arm) × (back : List Arm) × (arms ≡ front ++ b ∷ back)
          × (weight_of front ≤ n - pos_part a.weight)
          × (n - pos_part a.weight < weight_of front + pos_part b.weight))
        → pos_part a.weight ≤ n
        → (front : List Arm) × (b : Arm) × (back : List Arm) × (a ∷ arms ≡ front ++ b ∷ back)
          × (weight_of front ≤ n)
          × (n < weight_of front + pos_part b.weight)
    further (front, b, back, e, lo, hi) k =
        (a ∷ front, b, back, ap (λ (l : List Arm). a ∷ l) e, omega arith, omega arith)

In-middle : (front : List Arm) (a : Arm) (back : List Arm) → In a (front ++ a ∷ back)
In-middle [] a back = here
In-middle (b ∷ front) a back = there (In-middle front a back)

module _ (rand_intn : ℤ → ℤ) (intn : IsIntn rand_intn) where
  -- For every list of arms with weights that are not negative and a positive total below 2 ^ 32:
  -- an arm is selected, it is one of the list, and its weight is positive.
  select_arm-In :
      (b : Arm) (rest : List Arm) (key : Option Str) (metadata : List (Str × Str))
      → All IsWeight (b ∷ rest)
      → 0 < weight_of (b ∷ rest)
      → weight_of (b ∷ rest) < u32_mod
      → (a : Arm) × (select_arm rand_intn (b ∷ rest) key metadata ≡ ok (some a))
        × In a (b ∷ rest)
        × (0 < pos_part a.weight)
  select_arm-In b rest key metadata w h k = found (
      interval_of (ticket rand_intn (sticky_value key metadata) (weight_of (b ∷ rest))) (b ∷ rest)
        (ticket_lt rand_intn intn (sticky_value key metadata) _ h))
    where
      n : ℕ
      n = ticket rand_intn (sticky_value key metadata) (weight_of (b ∷ rest))

      found :
          ((front : List Arm) × (a : Arm) × (back : List Arm) × (b ∷ rest ≡ front ++ a ∷ back)
            × (weight_of front ≤ n)
            × (n < weight_of front + pos_part a.weight))
          → (a : Arm) × (select_arm rand_intn (b ∷ rest) key metadata ≡ ok (some a))
            × In a (b ∷ rest)
            × (0 < pos_part a.weight)
      found (front, a, back, e, lo, hi) = (
        a,
        select_arm-eq rand_intn intn b rest key metadata w h k
            ∙ ap (λ (x : Arm). ok (some x)) picked,
        subst (In a) (sym e) (In-middle front a back),
        omega arith,
      )
        where
          picked : walk_arms (pos n) b (b ∷ rest) ≡ a
          picked =
              ap (walk_arms (pos n) b) e
              ∙ walk_arms-interval n b front a back (subst (All IsWeight) e w)
                  (rw (sym e) (omega arith)) lo hi
