-- ===== src/Transport/Flush.antt =====
-- What flush_buffer replays: the oldest lines, in their order.
use Prim.Native.String.{String}
use srp.Prelude.{
  if◌then◌else◌, Option-cases, length, ℕ, ◌+◌, ◌≡◌, refl, sym, ap, ◌∙◌, inl, inr, Bool, true, false,
  Option, none, some, List, [], ◌∷◌, ◌++◌, append_assoc, append-nil, arith,
}
use srp.Transport.{World, Transport, Disk, deliver}
use srp.Transport.Buffer.{
  read_buffer, write_buffer, file_of, Replay, replay_loaded, replay_line, replay, flush_buffer,
}
use srp.Transport.Delivery.{finals, Final, deliver-finals}

module _ {E : Type 0} (w : World E) where
  -- the envelopes of some lines; a line that is none has no envelope
  abbrev pub one_loaded : Option E → List E
  one_loaded none = []
  one_loaded (some e) = e ∷ []

  unfoldable pub loaded : List String → List E
  loaded [] = []
  loaded (l ∷ lines) = one_loaded (w.loads l) ++ loaded lines

  abbrev running : ℕ → Transport E → Replay w
  running handled t = record { handled = handled; remaining = []; blocked = false; transport = t }

  abbrev stopped : ℕ → List String → Transport E → Replay w
  stopped handled remaining t = record {
    handled = handled;
    remaining = remaining;
    blocked = true;
    transport = t;
  }

  replay-stopped :
      (lines : List String) (n : ℕ) (remaining : List String) (t : Transport E)
      → replay w lines (stopped n remaining t) ≡ stopped n (remaining ++ lines) t
  unfolding replay replay_line
  replay-stopped [] n remaining t = rw (append-nil remaining)
  replay-stopped (l ∷ lines) n remaining t =
      replay-stopped lines n (remaining ++ l ∷ []) t ∙ rw (append_assoc remaining (l ∷ []) lines)

  -- A replay has handled the first lines, and the others remain.
  pub record Splits (lines : List String) (n : ℕ) (t : Transport E) (q : Replay w) : Type 0 where
    pub done : List String
    pub left : List String
    pub all_lines : lines ≡ done ++ left
    pub remains : q.remaining ≡ left
    pub counts : q.handled ≡ n + length done
    pub reaches : finals q.transport.posted ≡ finals t.posted ++ loaded done
    pub keeps : q.transport.buffer ≡ t.buffer

  Splits-cons :
      (l : String) (lines : List String) (n : ℕ) (t t' : Transport E) (q : Replay w)
      → finals t'.posted ≡ finals t.posted ++ one_loaded (w.loads l)
      → t'.buffer ≡ t.buffer
      → Splits lines (n + 1) t' q
      → Splits (l ∷ lines) n t q
  Splits-cons l lines n t t' q reached kept s = record {
    done = l ∷ s.done;
    left = s.left;
    all_lines = ap (λ xs. l ∷ xs) s.all_lines;
    remains = s.remains;
    counts = omega (arith, s.counts);
    reaches =
        unfold loaded in
        s.reaches
        ∙ ap (λ xs. xs ++ loaded s.done) reached
        ∙ append_assoc (finals t.posted) (one_loaded (w.loads l)) (loaded s.done);
    keeps = s.keeps ∙ kept;
  }

  Splits-none :
      (lines : List String) (n : ℕ) (t t' : Transport E) (q : Replay w)
      → q ≡ stopped n lines t'
      → finals t'.posted ≡ finals t.posted
      → t'.buffer ≡ t.buffer
      → Splits lines n t q
  Splits-none lines n t t' q e reached kept = record {
    done = [];
    left = lines;
    all_lines = refl;
    remains = ap (λ r. r.remaining) e;
    counts = ap (λ r. r.handled) e ∙ omega arith;
    reaches =
        unfold loaded in
        ap (λ r. finals r.transport.posted) e ∙ reached ∙ sym (append-nil (finals t.posted));
    keeps = ap (λ r. r.transport.buffer) e ∙ kept;
  }

  -- One line, by what its envelope's delivery returned.
  replay_line-Splits :
      (l : String) (lines : List String) (n : ℕ) (t : Transport E) (e : E) (r : Bool × Transport E)
      → w.loads l ≡ some e
      → Final w e t r
      → ((t' : Transport E) → Splits lines (n + 1) t' (replay w lines (running (n + 1) t')))
      → Splits
          (l ∷ lines)
          n
          t
          (replay w lines (if r.0 then running (n + 1) r.1 else stopped n (l ∷ []) r.1))
  replay_line-Splits l lines n t e (true, t') fine f next =
      Splits-cons l lines n t t' (replay w lines (running (n + 1) t')) (rw fine f.0) f.1 (next t')
  replay_line-Splits l lines n t e (false, t') fine f next =
      Splits-none (l ∷ lines) n t t' (replay w lines (stopped n (l ∷ []) t'))
        (replay-stopped lines n (l ∷ []) t') (f.0 ∙ append-nil (finals t.posted)) f.1

  pub replay-Splits :
      (lines : List String) (n : ℕ) (t : Transport E)
      → Splits lines n t (replay w lines (running n t))
  unfolding replay replay_line replay_loaded
  replay-Splits [] n t = record {
    done = [];
    left = [];
    all_lines = refl;
    remains = refl;
    counts = omega arith;
    reaches = unfold loaded in sym (append-nil (finals t.posted));
    keeps = refl;
  }
  replay-Splits (l ∷ lines) n t = elim (Option-cases (w.loads l)) [
    | inl corrupt ↦ rw corrupt (
        Splits-cons l lines n t t (replay w lines (running (n + 1) t))
          (rw (corrupt, append-nil (finals t.posted))) refl (replay-Splits lines (n + 1) t))
    | inr (e, fine) ↦ rw fine (
        replay_line-Splits l lines n t e (deliver w e t) fine (deliver-finals w e t)
          (λ t'. replay-Splits lines (n + 1) t'))
  ]

  -- Where the disk works and the buffer has lines, flush_buffer handles the oldest ones and leaves
  -- the others in the file, in order. It returns the number of lines that it handled, and just the
  -- envelopes of these, in the order of the lines, were taken or rejected by the server meanwhile.
  pub flush_buffer-in_order :
      (disk : Disk) (l : String) (lines : List String) (t : Transport E)
      → disk.can_write ≡ true
      → read_buffer w disk t ≡ l ∷ lines
      → (done : List String) × (left : List String) × (l ∷ lines ≡ done ++ left)
        × ((flush_buffer w disk t).0 ≡ length done)
        × ((flush_buffer w disk t).1.buffer ≡ file_of w left)
        × (finals (flush_buffer w disk t).1.posted ≡ finals t.posted ++ loaded done)
  unfolding flush_buffer write_buffer
  flush_buffer-in_order disk l lines t writes reads =
      let s = replay-Splits (l ∷ lines) 0 t in
      rw (reads, writes)
        (s.done, s.left, s.all_lines, s.counts ∙ omega arith, ap (file_of w) s.remains, s.reaches)
