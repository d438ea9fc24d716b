-- ===== src/Inference/Router/Order.antt =====
-- The hosts of a model in the order in which crates/inference-client/src/router.rs tries them.
use alpha_swarm.Prelude.{
  ℕ, zero, suc, ◌+◌, ◌%◌, ◌≤◌, List, [], ◌∷◌, ◌++◌, Bool, true, false, ◌≡◌, refl, sym, ◌∙◌, ap,
  subst, arith, ltb, leb, nat_eq, Bool-cases, inl, inr, take, drop, length, count, count-append,
  All, All-append,
}
use alpha_swarm.Inference.{Numbers, insert_by, sort_by, first_of}
use alpha_swarm.Inference.Router.{
  InferenceRouter, Backends, span, rotate_left, is_lighter, rotated, spread, order_by_load,
}

-- No element has more in flight than a later one.
abbrev pub IsAscending : (ℕ → ℕ) → List ℕ → Type 0
IsAscending load [] = Unit
IsAscending load (i ∷ is) = All (λ j. load i ≤ load j) is × IsAscending load is

-- The same elements, each as often.
abbrev pub IsReordering : List ℕ → List ℕ → Type 0
IsReordering is js = (i : ℕ) → count (nat_eq i) is ≡ count (nat_eq i) js

count-insert_by :
    (p : ℕ → Bool) (le : ℕ → ℕ → Bool) (x : ℕ) (ys : List ℕ)
    → count p (insert_by le x ys) ≡ count p (x ∷ ys)
count-insert_by p le x [] = refl
count-insert_by p le x (y ∷ ys) = ground (arith, count-insert_by p le x ys)

count-sort_by :
    (p : ℕ → Bool) (le : ℕ → ℕ → Bool) (xs : List ℕ) → count p (sort_by le xs) ≡ count p xs
count-sort_by p le [] = refl
count-sort_by p le (x ∷ xs) =
    ground (arith, count-insert_by p le x (sort_by le xs), count-sort_by p le xs)

All-imp : (P Q : ℕ → Type 0) (xs : List ℕ) → ((x : ℕ) → P x → Q x) → All P xs → All Q xs
All-imp P Q [] f h = tt
All-imp P Q (x ∷ xs) f h = (f x h.0, All-imp P Q xs f h.1)

All-insert_by :
    (P : ℕ → Type 0) (le : ℕ → ℕ → Bool) (x : ℕ) (ys : List ℕ)
    → P x
    → All P ys
    → All P (insert_by le x ys)
All-insert_by P le x [] h k = (h, tt)
All-insert_by P le x (y ∷ ys) h k = elim (Bool-cases (le x y)) [
  | inl before ↦ rw before (h, k)
  | inr after ↦ rw after (k.0, All-insert_by P le x ys h k.1)
]

All-drop : (P : ℕ → Type 0) (n : ℕ) (xs : List ℕ) → All P xs → All P (drop n xs)
All-drop P zero xs h = h
All-drop P (suc n) [] h = tt
All-drop P (suc n) (x ∷ xs) h = All-drop P n xs h.1

All-take : (P : ℕ → Type 0) (n : ℕ) (xs : List ℕ) → All P xs → All P (take n xs)
All-take P zero xs h = tt
All-take P (suc n) [] h = tt
All-take P (suc n) (x ∷ xs) h = (h.0, All-take P n xs h.1)

count-take-drop :
    (p : ℕ → Bool) (n : ℕ) (xs : List ℕ) → count p (drop n xs) + count p (take n xs) ≡ count p xs
count-take-drop p zero xs = omega arith
count-take-drop p (suc n) [] = omega arith
count-take-drop p (suc n) (x ∷ xs) = omega (arith, count-take-drop p n xs)

count-rotate_left : (p : ℕ → Bool) (n : ℕ) (xs : List ℕ) → count p (rotate_left n xs) ≡ count p xs
count-rotate_left p n xs =
    omega (arith, count-append p (drop n xs) (take n xs), count-take-drop p n xs)

All-rotate_left : (P : ℕ → Type 0) (n : ℕ) (xs : List ℕ) → All P xs → All P (rotate_left n xs)
All-rotate_left P n xs h =
    All-append P (drop n xs) (take n xs) (All-drop P n xs h) (All-take P n xs h)

span-append : (p : ℕ → Bool) (xs : List ℕ) → (span p xs).0 ++ (span p xs).1 ≡ xs
span-append p [] = refl
span-append p (x ∷ xs) = elim (Bool-cases (p x)) [
  | inl holds ↦ rw holds (ap (λ r. x ∷ r) (span-append p xs))
  | inr fails ↦ rw fails refl
]

span-All : (p : ℕ → Bool) (xs : List ℕ) → All (λ x. p x ≡ true) (span p xs).0
span-All p [] = tt
span-All p (x ∷ xs) = elim (Bool-cases (p x)) [
  | inl holds ↦ rw holds (holds, span-All p xs)
  | inr fails ↦ rw fails tt
]

All-right : (P : ℕ → Type 0) (xs ys : List ℕ) → All P (xs ++ ys) → All P ys
All-right P [] ys h = h
All-right P (x ∷ xs) ys h = All-right P xs ys h.1

module _ (load : ℕ → ℕ) where
  insert_by-IsAscending :
      (x : ℕ) (ys : List ℕ)
      → IsAscending load ys
      → IsAscending load (insert_by (λ i j. leb (load i) (load j)) x ys)
  insert_by-IsAscending x [] h = (tt, tt)
  insert_by-IsAscending x (y ∷ ys) h = elim (Bool-cases (leb (load x) (load y))) [
    | inl before ↦ rw before (
      (
        ground arith,
        All-imp (λ j. load y ≤ load j) (λ j. load x ≤ load j) ys (λ j k. ground arith) h.0,
      ),
      h,
    )
    | inr after ↦ rw after (
      All-insert_by (λ j. load y ≤ load j) (λ i j. leb (load i) (load j)) x ys (ground arith) h.0,
      insert_by-IsAscending x ys h.1,
    )
  ]

  sort_by-IsAscending : (xs : List ℕ) → IsAscending load (sort_by (λ i j. leb (load i) (load j)) xs)
  sort_by-IsAscending [] = tt
  sort_by-IsAscending (x ∷ xs) =
      insert_by-IsAscending x (sort_by (λ i j. leb (load i) (load j)) xs) (sort_by-IsAscending xs)

  IsAscending-right : (xs ys : List ℕ) → IsAscending load (xs ++ ys) → IsAscending load ys
  IsAscending-right [] ys h = h
  IsAscending-right (x ∷ xs) ys h = IsAscending-right xs ys h.1

  -- Elements of the same, least load before others.
  level-IsAscending :
      (i : ℕ) (front rest : List ℕ)
      → All (λ j. nat_eq (load j) (load i) ≡ true) front
      → All (λ j. load i ≤ load j) rest
      → IsAscending load rest
      → IsAscending load (front ++ rest)
  level-IsAscending i [] rest f g h = h
  level-IsAscending i (j ∷ front) rest f g h = (
    All-append (λ k. load j ≤ load k) front rest
        (All-imp (λ k. nat_eq (load k) (load i) ≡ true) (λ k. load j ≤ load k) front
          (λ k e. ground arith) f.1)
        (All-imp (λ k. load i ≤ load k) (λ k. load j ≤ load k) rest (λ k e. ground arith) g),
    level-IsAscending i front rest f.1 g h,
  )

abbrev pub IsOrdered :
    {W : Type 0} → InferenceRouter W → List ℕ → List ℕ × InferenceRouter W → Type 0
IsOrdered r candidates (ordered, r') =
    IsReordering ordered candidates × IsAscending r.in_flight ordered × (r'.in_flight ≡ r.in_flight)

module _ {W : Type 0} (numbers : Numbers) (backends : Backends W) (r : InferenceRouter W) where
  rotated-IsOrdered :
      (i : ℕ) (is : List ℕ) (b : Bool) (front rest : List ℕ)
      → front ++ rest ≡ i ∷ is
      → All (λ j. nat_eq (r.in_flight j) (r.in_flight i) ≡ true) front
      → IsAscending r.in_flight (i ∷ is)
      → IsOrdered r (i ∷ is) (rotated numbers backends r (i ∷ is) b (front, rest))
  rotated-IsOrdered i is false front rest e f h = ((λ k. refl), h, refl)
  rotated-IsOrdered i is true front rest e f h = (
    (λ k. omega (
      arith,
      count-append (nat_eq k) (rotate_left (r.rr % length front) front) rest,
      count-rotate_left (nat_eq k) (r.rr % length front) front,
      count-append (nat_eq k) front rest,
      ap (count (nat_eq k)) e,
    )),
    level-IsAscending r.in_flight i (rotate_left (r.rr % length front) front) rest
        (All-rotate_left (λ j. nat_eq (r.in_flight j) (r.in_flight i) ≡ true) (r.rr % length front)
          front f)
        (All-right (λ j. r.in_flight i ≤ r.in_flight j) front rest
          (subst (All (λ j. r.in_flight i ≤ r.in_flight j)) (sym e) (omega arith, h.0)))
        (IsAscending-right r.in_flight front rest (subst (IsAscending r.in_flight) (sym e) h)),
    refl,
  )

  spread-IsOrdered :
      (ordered : List ℕ)
      → IsAscending r.in_flight ordered
      → IsOrdered r ordered (spread numbers backends r ordered (first_of ordered))
  spread-IsOrdered [] h = ((λ i. refl), h, refl)
  spread-IsOrdered (i ∷ is) h =
      let tied : ℕ → Bool = λ j. nat_eq (r.in_flight j) (r.in_flight i) in
      rotated-IsOrdered i is (ltb 1 (length (span tied (i ∷ is)).0)) (span tied (i ∷ is)).0
        (span tied (i ∷ is)).1 (span-append tied (i ∷ is)) (span-All tied (i ∷ is)) h

  reordered :
      (candidates ordered : List ℕ) (result : List ℕ × InferenceRouter W)
      → IsReordering ordered candidates
      → IsOrdered r ordered result
      → IsOrdered r candidates result
  reordered candidates ordered (is, r') h (k, ascending, same) = ((λ i. k i ∙ h i), ascending, same)

-- The hosts that are tried are the candidates, each as often, and none before one with fewer requests
-- in flight; the counters are not changed.
pub order_by_load-IsOrdered :
    {W : Type 0} (numbers : Numbers) (backends : Backends W) (r : InferenceRouter W)
    (candidates : List ℕ)
    → IsOrdered r candidates (order_by_load numbers backends candidates r)
unfolding order_by_load
order_by_load-IsOrdered numbers backends r candidates =
    let ordered = sort_by (is_lighter numbers backends r) candidates in
    let ascending = sort_by-IsAscending r.in_flight candidates in
    let same : IsReordering ordered candidates =
      λ i. count-sort_by (nat_eq i) (is_lighter numbers backends r) candidates in
    elim (Bool-cases (ltb 1 (length ordered))) [
      | inl several ↦ rw several (
          reordered numbers backends r candidates ordered
            (spread numbers backends r ordered (first_of ordered)) same
            (spread-IsOrdered numbers backends r ordered ascending))
      | inr single ↦ rw single (same, ascending, refl)
    ]
