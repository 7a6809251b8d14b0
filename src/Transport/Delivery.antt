-- ===== src/Transport/Delivery.antt =====
-- What a delivery posts, and what the server made of it.
use srp.Prelude.{
  ltb, leb, if◌then◌else◌, Bool-cases, ℕ, zero, suc, ◌+◌, ◌≡◌, refl, sym, ap, ◌∙◌, inl, inr, Bool,
  true, false, ◌&&◌, List, [], ◌∷◌, ◌++◌, append_assoc, append-nil,
}
use srp.Transport.{
  World, Transport, Reply, Outcome, delivered, dropped, throttled, retry, success, http,
  unreachable, settle, attempt, attempts, deliver, go_on, is_throttled, is_throttle_code,
  send_attempts,
}

abbrev pub one_final : {E : Type 0} → E × Outcome → List E
one_final (e, delivered) = e ∷ []
one_final (e, dropped) = e ∷ []
one_final (e, throttled) = []
one_final (e, retry) = []

-- The envelopes that the server took or rejected, in the order of their posts.
unfoldable pub finals : {E : Type 0} → List (E × Outcome) → List E
finals [] = []
finals (p ∷ posted) = one_final p ++ finals posted

pub finals-append :
    {E : Type 0} (xs ys : List (E × Outcome)) → finals (xs ++ ys) ≡ finals xs ++ finals ys
unfolding finals
finals-append [] ys = refl
finals-append (x ∷ xs) ys =
    rw (finals-append xs ys, append_assoc (one_final x) (finals xs) (finals ys))

pub finals-post :
    {E : Type 0} (posted : List (E × Outcome)) (e : E) (o : Outcome)
    → finals (posted ++ (e, o) ∷ []) ≡ finals posted ++ one_final (e, o)
finals-post posted e o =
    rw (finals-append posted ((e, o) ∷ [])) (unfold finals in rw (append-nil (one_final (e, o))))

-- What is known of an envelope that is handled, or is not.
abbrev pub if_done : {E : Type 0} → Bool → E → List E
if_done true e = e ∷ []
if_done false e = []

module _ {E : Type 0} (w : World E) where
  abbrev pub Final : E → Transport E → Bool × Transport E → Type 0
  Final e t r = (finals r.1.posted ≡ finals t.posted ++ if_done r.0 e) × (r.1.buffer ≡ t.buffer)

  abbrev SettledWell : E → Transport E → Outcome × Transport E → Type 0
  SettledWell e t r =
      (finals r.1.posted ≡ finals t.posted ++ one_final (e, r.0)) × (r.1.buffer ≡ t.buffer)

  settle-SettledWell :
      (e : E) (reply : Reply) (t : Transport E) → SettledWell e t (settle w e reply t)
  unfolding settle
  settle-SettledWell e success t = (finals-post t.posted e delivered, refl)
  settle-SettledWell e (http code header) t = elim (Bool-cases (is_throttle_code code)) [
    | inl busy ↦ rw busy (finals-post t.posted e throttled, refl)
    | inr calm ↦ elim (Bool-cases (leb 400 code && ltb code 500)) [
      | inl bad ↦ rw (calm, bad) (finals-post t.posted e dropped, refl)
      | inr other ↦ rw (calm, other) (finals-post t.posted e retry, refl)
    ]
  ]
  settle-SettledWell e (unreachable text) t = (finals-post t.posted e retry, refl)

  go_on-Final :
      (e : E) (t t' : Transport E) (o : Outcome) (rest : Bool × Transport E)
      → SettledWell e t (o, t')
      → Final e t' rest
      → Final e t (go_on w o t' rest)
  go_on-Final e t t' delivered rest s f = s
  go_on-Final e t t' dropped rest s f = s
  go_on-Final e t t' throttled rest s f = s
  go_on-Final e t t' retry rest s f =
      (f.0 ∙ ap (λ xs. xs ++ if_done rest.0 e) (s.0 ∙ append-nil (finals t.posted)), f.1 ∙ s.1)

  attempts-Final : (n : ℕ) (e : E) (t : Transport E) → Final e t (attempts w n e t)
  unfolding attempts attempt
  attempts-Final zero e t = (sym (append-nil (finals t.posted)), refl)
  attempts-Final (suc n) e t =
      let posted = settle-SettledWell e (w.reply t.posts) (record t { posts = t.posts + 1 }) in
      let next = (settle w e (w.reply t.posts) (record t { posts = t.posts + 1 })).1 in
      go_on-Final e t next (settle w e (w.reply t.posts) (record t { posts = t.posts + 1 })).0
        (attempts w n e next) posted (attempts-Final n e next)

  if-Final :
      (e : E) (t : Transport E) (b : Bool) (x y : Bool × Transport E)
      → Final e t x
      → Final e t y
      → Final e t (if b then x else y)
  if-Final e t true x y f g = f
  if-Final e t false x y f g = g

  -- A delivery returns True exactly when one of its posts was taken or rejected by the server, and
  -- there is one such post; it does not touch the buffer file.
  pub deliver-finals :
      (e : E) (t : Transport E)
      → (finals (deliver w e t).1.posted ≡ finals t.posted ++ if_done (deliver w e t).0 e)
        × ((deliver w e t).1.buffer ≡ t.buffer)
  unfolding deliver
  deliver-finals e t =
      if-Final e t w.offline_mode _ _ (sym (append-nil (finals t.posted)), refl)
        (if-Final e t (is_throttled (w.clock t.ticks) t.throttled_until) _ _
          (sym (append-nil (finals t.posted)), refl)
          (attempts-Final send_attempts e (record t { ticks = t.ticks + 1 })))
