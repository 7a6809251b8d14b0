-- ===== src/Ingest/Pipeline/Scores.antt =====
-- server/pipeline.py: whose scores are made anew after an envelope, and when.
use Prim.Native.String.{String}
use text.Mathlib.TextEquality.{eq_iff}
use srp.Rescore.{Event, RescoreQueue, submit, add, contains}
use srp.Ingest.Pipeline.{
  Envelope, MsgType, Pipeline, Rescored, Failure, Faults, Ended, finished, raised, is_no_trust,
  is_no_rescore, rescore_now, rescore_by, rescore, inventory, historical, heartbeat, events,
  print_jobs, liveness, update_status,
}
use srp.Prelude.{
  if◌then◌else◌, Bool-cases, tenths, ◌≡◌, refl, sym, ◌∙◌, ◌⊎◌, inl, inr, Bool, true, false, Option,
  none, some, List, ◌∷◌, arith,
}

-- The messages without telemetry.
abbrev pub IsBare : MsgType → Type 0
IsBare kind = (kind ≡ liveness) ⊎ (kind ≡ update_status)

-- The messages that the scores are not made of, and those that they are made of.
abbrev pub IsUnscored : MsgType → Type 0
IsUnscored kind = (kind ≡ events) ⊎ (kind ≡ print_jobs) ⊎ IsBare kind

abbrev pub IsScored : MsgType → Type 0
IsScored kind = (kind ≡ inventory) ⊎ (kind ≡ historical) ⊎ (kind ≡ heartbeat)

pub bare_lem : (kind : MsgType) → IsBare kind → is_no_trust kind ≡ true
bare_lem kind h = ground arith

unscored_lem : (kind : MsgType) → IsUnscored kind → is_no_rescore kind ≡ true
unscored_lem kind h = ground arith

scored_lem : (kind : MsgType) → IsScored kind → is_no_rescore kind ≡ false
scored_lem kind h = ground arith

-- The device waits in the queue, which is not stopping, or its scores were just recomputed.
abbrev pub IsRescored : {F : Type 0} → String → Pipeline F → Pipeline F → Type 0
IsRescored device before after = elim before.rescore_queue [
  | none ↦ after.recomputed ≡ device ∷ before.recomputed
  | some q ↦
      (r : RescoreQueue) × (after.rescore_queue ≡ some r)
      × ((q.stopping ≡ true) ⊎ (contains device r.pending ≡ true))
]

contains-add : (d : String) (xs : List String) → contains d (add d xs) ≡ true
unfolding contains
contains-add d xs = ground (arith, eq_iff d d)

contains-submit :
    (d : String) (q : RescoreQueue) → (q.stopping ≡ true) ⊎ (contains d (submit d q).pending ≡ true)
unfolding submit
contains-submit d q = elim (Bool-cases q.stopping) [
  | inl ending ↦ inl ending
  | inr running ↦ inr (by_stopping q.stopping running)
]
  where
    by_stopping :
        (b : Bool)
        → b ≡ false
        → contains d
            (if◌then◌else◌ {A = RescoreQueue} b q (record q {
              pending = add d q.pending;
              events = Event.accepted d ∷ q.events;
            })).pending
          ≡ true
    by_stopping true e = cc e
    by_stopping false e = contains-add d q.pending

module _ {F : Type 0} (faults : Faults F) (env : Envelope F) where
  -- The scores after an envelope, by what it came to.
  pub record AreScoresScoped (before : Pipeline F) (ended : Ended) (after : Pipeline F)
      : Type 0 where
    pub unscored :
        IsUnscored env.msg_type
        → (after.rescore_queue ≡ before.rescore_queue) × (after.recomputed ≡ before.recomputed)
    pub scored :
        IsScored env.msg_type
        → (rescored : Rescored) → ended ≡ finished rescored
        → IsRescored env.device_id before after
    pub stopped :
        (failure : Failure)
        → ended ≡ raised failure
        → (after.rescore_queue ≡ before.rescore_queue) × (after.recomputed ≡ before.recomputed)
    pub others :
        (after.recomputed ≡ before.recomputed)
        ⊎ (after.recomputed ≡ env.device_id ∷ before.recomputed)

  not_unscored : is_no_rescore env.msg_type ≡ false → ¬ IsUnscored env.msg_type
  not_unscored go h = cc (sym go ∙ unscored_lem env.msg_type h)

  pub raised-AreScoresScoped :
      (failure : Failure) (before after : Pipeline F)
      → after.rescore_queue ≡ before.rescore_queue
      → after.recomputed ≡ before.recomputed
      → AreScoresScoped before (raised failure) after
  raised-AreScoresScoped failure before after q r = record {
    unscored = λ _. (q, r);
    scored = λ _ x e. cc e;
    stopped = λ _ _. (q, r);
    others = inl r;
  }

  now-AreScoresScoped :
      (p : Pipeline F) (o : Option Failure)
      → is_no_rescore env.msg_type ≡ false
      → p.rescore_queue ≡ none
      → AreScoresScoped p (rescore_now faults env p o).0 (rescore_now faults env p o).1
  now-AreScoresScoped p none go sync = record {
    unscored = λ h. absurd (not_unscored go h);
    scored = λ _ x e. rw sync refl;
    stopped = λ f e. cc e;
    others = inr refl;
  }
  now-AreScoresScoped p (some failure) go sync = raised-AreScoresScoped failure p p refl refl

  by-AreScoresScoped :
      (p : Pipeline F) (o : Option RescoreQueue)
      → is_no_rescore env.msg_type ≡ false
      → p.rescore_queue ≡ o
      → AreScoresScoped p (rescore_by faults env p o).0 (rescore_by faults env p o).1
  by-AreScoresScoped p none go sync = now-AreScoresScoped p (faults.at_scores env p.db) go sync
  by-AreScoresScoped p (some w) go async = record {
    unscored = λ h. absurd (not_unscored go h);
    scored = λ _ x e. rw async (submit env.device_id w, refl, contains-submit env.device_id w);
    stopped = λ f e. cc e;
    others = inl refl;
  }

  pub rescore-AreScoresScoped :
      (p : Pipeline F) → AreScoresScoped p (rescore faults env p).0 (rescore faults env p).1
  unfolding rescore
  rescore-AreScoresScoped p = elim (Bool-cases (is_no_rescore env.msg_type)) [
    | inl skip ↦
        rw (rescore, skip)
          (record {
            unscored = λ _. (refl, refl);
            scored = λ h x e. cc (sym skip ∙ scored_lem env.msg_type h);
            stopped = λ f e. cc e;
            others = inl refl;
          })
    | inr go ↦ rw (rescore, go) (by-AreScoresScoped p p.rescore_queue go refl)
  ]

  pub db-rescore : (p : Pipeline F) → (rescore faults env p).1.db ≡ p.db
  unfolding rescore
  db-rescore p = elim (Bool-cases (is_no_rescore env.msg_type)) [
    | inl skip ↦ rw (rescore, skip) refl
    | inr go ↦ rw (rescore, go) (by_db p.rescore_queue)
  ]
    where
      now_db : (o : Option Failure) → (rescore_now faults env p o).1.db ≡ p.db
      now_db none = refl
      now_db (some failure) = refl

      by_db : (o : Option RescoreQueue) → (rescore_by faults env p o).1.db ≡ p.db
      by_db none = now_db (faults.at_scores env p.db)
      by_db (some w) = refl
