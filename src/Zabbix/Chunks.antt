-- ===== src/Zabbix/Chunks.antt =====
-- The chunks are the items, in order, each of them once.
use srp.Prelude.{
  ltb, ltb→lt, ltb-false→le, Bool-cases, tenths, length, take, drop, take-append-drop, length-take,
  length-drop, ℕ, zero, suc, ◌+◌, ◌-◌, ◌≤◌, ◌≡◌, refl, sym, ap, ◌∙◌, inl, inr, List, [], ◌∷◌, ◌++◌,
  arith,
}
use Prim.Native.Nat.{min}
use srp.Zabbix.Protocol.{chunks_from, chunks, step_of}

abbrev pub concat : {A : Type 0} → List (List A) → List A
concat [] = []
concat (xs ∷ xss) = xs ++ concat xss

abbrev pub AreSized : {A : Type 0} → ℕ → List (List A) → Type 0
AreSized step [] = Unit
AreSized step (xs ∷ xss) = (1 ≤ length xs) × (length xs ≤ step) × AreSized step xss

drop-nil : {A : Type 0} (n : ℕ) → drop {A = A} n [] ≡ []
drop-nil zero = refl
drop-nil (suc n) = refl

drop_all : {A : Type 0} (n : ℕ) (xs : List A) → length xs ≤ n → drop n xs ≡ []
drop_all n [] h = drop-nil n
drop_all zero (x ∷ xs) h = absurd (omega (arith, h))
drop_all (suc n) (x ∷ xs) h = drop_all n xs (omega (arith, h))

drop-drop : {A : Type 0} (m n : ℕ) (xs : List A) → drop m (drop n xs) ≡ drop (n + m) xs
drop-drop m zero xs = ap (λ k. drop k xs) (omega arith)
drop-drop m (suc n) [] = drop-nil m ∙ sym (drop-nil (suc n + m))
drop-drop m (suc n) (x ∷ xs) =
    let e : suc n + m ≡ suc (n + m) = omega arith in
    drop-drop m n xs ∙ ap (λ k. drop k (x ∷ xs)) (sym e)

chunks_from_lem :
    {A : Type 0} (fuel step start : ℕ) (items : List A)
    → 1 ≤ step
    → length items ≤ start + fuel
    → (concat (chunks_from fuel step start items) ≡ drop start items)
      × AreSized step (chunks_from fuel step start items)
unfolding chunks_from
chunks_from_lem zero step start items h enough =
    (sym (drop_all start items (omega (arith, enough))), tt)
chunks_from_lem (suc fuel) step start items h enough =
    elim (Bool-cases (ltb start (length items))) [
      | inr past ↦ rw past (sym (drop_all start items (ltb-false→le start (length items) past)), tt)
      | inl inside ↦
          let (same, sized) =
            chunks_from_lem fuel step (start + step) items h (omega (arith, enough, h)) in
          let first : length (take step (drop start items)) ≡ min step (length items - start) =
            rw (length-take step (drop start items), length-drop start items) in
          rw inside (
            ap (λ r. take step (drop start items) ++ r) (same ∙ sym (drop-drop step start items))
                ∙ take-append-drop step (drop start items),
            (
              omega (arith, first, ltb→lt start (length items) inside, h),
              omega (arith, first),
              sized,
            ),
          )
    ]

-- The chunks follow one another as the items do, none is lost or doubled, and each has at least one
-- item and at most `size`, or one where `size` is zero.
pub chunks_lem :
    {A : Type 0} (items : List A) (size : ℕ)
    → (concat (chunks items size) ≡ items) × AreSized (step_of size) (chunks items size)
unfolding chunks
chunks_lem items size =
    chunks_from_lem (length items) (step_of size) 0 items (ground arith) (omega arith)
