-- ===== src/Netdisco/Sorting.antt =====
-- server/netdisco: Python's list.sort with a key, which keeps equal members in their order. It is written
-- once, over the order of the keys.
use mathlib.Core.List.{Memᴰ}
use mathlib.Core.List.Memᴰ
use srp.Prelude.{if◌then◌else◌, Bool-cases, tenths, ◌≡◌, ◌↔◌, ◌⊎◌, inl, inr, Bool, List, [], ◌∷◌}

module _ {A : Type 0} (not_after : A → A → Bool) where
  unfoldable pub sort_in : A → List A → List A
  sort_in x [] = x ∷ []
  sort_in x (y ∷ ys) = let later = sort_in x ys in if not_after x y then x ∷ y ∷ ys else y ∷ later

  unfoldable pub sort : List A → List A
  sort [] = []
  sort (x ∷ xs) = sort_in x (sort xs)

  Mem-sort_in : (d x : A) (xs : List A) → Memᴰ d (sort_in x xs) ↔ ((d ≡ x) ⊎ Memᴰ d xs)
  unfolding sort_in
  Mem-sort_in d x [] = (Memᴰ.cases_cons, λ c. elim c [ inl e ↦ Memᴰ.head e | inr m ↦ Memᴰ.tail m ])
  Mem-sort_in d x (y ∷ ys) = elim (Bool-cases (not_after x y)) [
    | inl first ↦
        rw first (Memᴰ.cases_cons, λ c. elim c [ inl e ↦ Memᴰ.head e | inr m ↦ Memᴰ.tail m ])
    | inr later ↦ rw later (
      λ m. elim (Memᴰ.cases_cons m) [
        | inl q ↦ inr (Memᴰ.head q)
        | inr n ↦ elim ((Mem-sort_in d x ys).0 n) [ inl q ↦ inl q | inr k ↦ inr (Memᴰ.tail k) ]
      ],
      λ c. elim c [
        | inl q ↦ Memᴰ.tail ((Mem-sort_in d x ys).1 (inl q))
        | inr m ↦ elim (Memᴰ.cases_cons m) [
          | inl q ↦ Memᴰ.head q
          | inr n ↦ Memᴰ.tail ((Mem-sort_in d x ys).1 (inr n))
        ]
      ],
    )
  ]

  pub Mem-sort : (d : A) (xs : List A) → Memᴰ d (sort xs) ↔ Memᴰ d xs
  unfolding sort
  Mem-sort d [] = (λ m. m, λ m. m)
  Mem-sort d (x ∷ xs) =
      let rest = Mem-sort d xs in
      let placed = Mem-sort_in d x (sort xs) in
      (
        λ m. elim (placed.0 m) [ inl e ↦ Memᴰ.head e | inr n ↦ Memᴰ.tail (rest.0 n) ],
        λ m. elim (Memᴰ.cases_cons m) [
          | inl e ↦ placed.1 (inl e)
          | inr n ↦ placed.1 (inr (rest.1 n))
        ],
      )
