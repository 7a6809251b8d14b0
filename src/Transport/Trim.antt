-- ===== src/Transport/Trim.antt =====
-- What _trim_buffer keeps: the youngest lines, within both limits.
use Prim.Native.String.{String}
use srp.Prelude.{
  ltb, if◌then◌else◌, ltb-false→le, Bool-cases, length, take, drop, length-append, take-append-drop,
  length-drop, ℕ, zero, suc, ◌+◌, ◌-◌, ◌≤◌, ◌≡◌, refl, sym, ap, ◌∙◌, inl, inr, Bool, true, false,
  List, [], ◌∷◌, ◌++◌, append_assoc, arith,
}
use srp.Transport.{World, max_buffer_lines, max_buffer_bytes}
use srp.Transport.Buffer.{size, drop_oldest, last_lines, kept}

drop-append_le :
    {A : Type 0} (n : ℕ) (xs ys : List A) → n ≤ length xs → drop n (xs ++ ys) ≡ drop n xs ++ ys
drop-append_le zero xs ys h = refl
drop-append_le (suc n) [] ys h = absurd (omega (arith, h))
drop-append_le (suc n) (x ∷ xs) ys h = drop-append_le n xs ys (omega (arith, h))

module _ {E : Type 0} (w : World E) where
  size-cons :
      (l : String) (lines : List String)
      → size w (l ∷ lines) ≡ w.bytes l + w.newline_bytes + size w lines
  unfolding size
  size-cons l lines = refl

  -- The loop's total is the size of what it has kept so far.
  drop_oldest-cons :
      (l : String) (lines : List String)
      → drop_oldest w (size w (l ∷ lines)) (l ∷ lines) ≡ (
          if ltb max_buffer_bytes (size w (l ∷ lines))
          then drop_oldest w (size w lines) lines
          else l ∷ lines)
  unfolding drop_oldest
  drop_oldest-cons l lines =
      let rest : size w (l ∷ lines) - (w.bytes l + w.newline_bytes) ≡ size w lines =
        omega (arith, size-cons l lines) in
      rw rest refl

  -- What is kept of some lines, and what is gone.
  record Suffix (lines left : List String) : Type 0 where
    pub gone : List String
    pub splits : lines ≡ gone ++ left

  drop_oldest-Suffix : (lines : List String) → Suffix lines (drop_oldest w (size w lines) lines)
  drop_oldest-Suffix [] = record { gone = []; splits = unfold drop_oldest in refl }
  drop_oldest-Suffix (l ∷ lines) = elim (Bool-cases (ltb max_buffer_bytes (size w (l ∷ lines)))) [
    | inl big ↦
        let s = drop_oldest-Suffix lines in
        rw (drop_oldest-cons l lines, big)
          (record { gone = l ∷ s.gone; splits = ap (λ xs. l ∷ xs) s.splits })
    | inr small ↦ rw (drop_oldest-cons l lines, small) (record { gone = []; splits = refl })
  ]

  size-drop_oldest :
      (lines : List String) → size w (drop_oldest w (size w lines) lines) ≤ max_buffer_bytes
  size-drop_oldest [] = unfold drop_oldest size in omega arith
  size-drop_oldest (l ∷ lines) = elim (Bool-cases (ltb max_buffer_bytes (size w (l ∷ lines)))) [
    | inl big ↦ rw (drop_oldest-cons l lines, big) (size-drop_oldest lines)
    | inr small ↦
        rw (drop_oldest-cons l lines, small)
          (ltb-false→le max_buffer_bytes (size w (l ∷ lines)) small)
  ]

  length-drop_oldest :
      (lines : List String) → length (drop_oldest w (size w lines) lines) ≤ length lines
  length-drop_oldest lines =
      let s = drop_oldest-Suffix lines in
      omega (arith, ap length s.splits, length-append s.gone (drop_oldest w (size w lines) lines))

  -- The youngest line stays, if it fits.
  drop_oldest-last :
      (lines : List String) (l : String)
      → w.bytes l + w.newline_bytes ≤ max_buffer_bytes
      → (before : List String) × (drop_oldest w (size w (lines ++ l ∷ [])) (lines ++ l ∷ [])
          ≡ before ++ l ∷ [])
  drop_oldest-last [] l h =
      let none_big : ltb max_buffer_bytes (size w (l ∷ [])) ≡ false = unfold size in ground arith in
      ([], drop_oldest-cons l [] ∙ rw none_big)
  drop_oldest-last (x ∷ lines) l h =
      elim (Bool-cases (ltb max_buffer_bytes (size w (x ∷ lines ++ l ∷ [])))) [
        | inl big ↦
            let (before, e) = drop_oldest-last lines l h in
            (before, drop_oldest-cons x (lines ++ l ∷ []) ∙ rw big e)
        | inr small ↦ (x ∷ lines, drop_oldest-cons x (lines ++ l ∷ []) ∙ rw small)
      ]

  last_lines-Suffix : (lines : List String) → Suffix lines (last_lines w lines)
  last_lines-Suffix lines = record {
    gone = take (length lines - max_buffer_lines) lines;
    splits = sym (take-append-drop (length lines - max_buffer_lines) lines);
  }

  length-last_lines : (lines : List String) → length (last_lines w lines) ≤ max_buffer_lines
  length-last_lines lines = ground (arith, length-drop (length lines - max_buffer_lines) lines)

  Suffix-trans : {xs ys zs : List String} → Suffix xs ys → Suffix ys zs → Suffix xs zs
  Suffix-trans {xs} {ys} {zs} s t = record {
    gone = s.gone ++ t.gone;
    splits = s.splits ∙ ap (λ l. s.gone ++ l) t.splits ∙ sym (append_assoc s.gone t.gone zs);
  }

  -- What is kept are the youngest lines, at most 5000 of them, and of a file of more than 50 MiB at
  -- most 50 MiB.
  pub kept-youngest :
      (big : Bool) (lines : List String)
      → (gone : List String) × (lines ≡ gone ++ kept w big lines)
        × (length (kept w big lines) ≤ max_buffer_lines)
        × (big ≡ true → size w (kept w big lines) ≤ max_buffer_bytes)
  unfolding kept
  kept-youngest true lines =
      let s = Suffix-trans (last_lines-Suffix lines) (drop_oldest-Suffix (last_lines w lines)) in
      (
        s.gone,
        s.splits,
        omega (arith, length-drop_oldest (last_lines w lines), length-last_lines lines),
        λ e. size-drop_oldest (last_lines w lines),
      )
  kept-youngest false lines =
      let s = last_lines-Suffix lines in
      (s.gone, s.splits, length-last_lines lines, λ e. absurd (cc e))

  pub kept-last :
      (big : Bool) (lines : List String) (l : String)
      → w.bytes l + w.newline_bytes ≤ max_buffer_bytes
      → (before : List String) × (kept w big (lines ++ l ∷ []) ≡ before ++ l ∷ [])
  unfolding kept
  kept-last big lines l h =
      let n = length (lines ++ l ∷ []) - max_buffer_lines in
      let short : n ≤ length lines = omega (arith, length-append lines (l ∷ [])) in
      let e : last_lines w (lines ++ l ∷ []) ≡ drop n lines ++ l ∷ [] =
        drop-append_le n lines (l ∷ []) short in
      elim (Bool-cases big) [
        | inl much ↦ rw (much, e) (drop_oldest-last (drop n lines) l h)
        | inr little ↦ rw (little, e) (drop n lines, refl)
      ]
