-- ===== src/Transport/Send.antt =====
-- What send promises of an envelope, and how long a throttled sender waits.
use Prim.Native.String.{String}
use mathlib.Core.Path.{subst}
use srp.Prelude.{
  ltb, if◌then◌else◌, ◌+◌, ◌≤◌, ◌≡◌, refl, sym, ap, ◌∙◌, ◌⊎◌, inl, inr, Bool, true, false, Option,
  some, List, [], ◌∷◌, ◌++◌, append_assoc, append-nil, arith,
}
use srp.Transport.{World, Transport, Disk, deliver, max_payload_bytes, max_buffer_bytes}
use srp.Transport.Buffer.{
  read_buffer, write_buffer, file_of, split_all, not_blank, replay_all, flush_lines, flush_buffer,
  trim_buffer, append_buffer, or_empty, kept, is_oversize, send,
}
use srp.Transport.Delivery.{finals, if_done, deliver-finals}
use srp.Transport.Flush.{loaded, replay-Splits}
use srp.Transport.Trim.{kept-last}

module _ {E : Type 0} (w : World E) where
  write_buffer-posted :
      (disk : Disk) (lines : List String) (t : Transport E)
      → (write_buffer w disk lines t).posted ≡ t.posted
  unfolding write_buffer
  write_buffer-posted disk lines t = go disk.can_write
    where
      go : (b : Bool) → (if b then record t { buffer = file_of w lines } else t).posted ≡ t.posted
      go true = refl
      go false = refl

  flush_lines-finals :
      (disk : Disk) (lines : List String) (t : Transport E)
      → (more : List E) × (finals (flush_lines w disk lines t).1.posted ≡ finals t.posted ++ more)
  flush_lines-finals disk [] t = ([], sym (append-nil (finals t.posted)))
  flush_lines-finals disk (l ∷ lines) t =
      let s = replay-Splits w (l ∷ lines) 0 t in
      let r = replay_all w (l ∷ lines) t in
      (loaded w s.done, ap finals (write_buffer-posted disk r.remaining r.transport) ∙ s.reaches)

  flush_buffer-finals :
      (disk : Disk) (t : Transport E)
      → (more : List E) × (finals (flush_buffer w disk t).1.posted ≡ finals t.posted ++ more)
  unfolding flush_buffer
  flush_buffer-finals disk t = flush_lines-finals disk (read_buffer w disk t) t

  -- A line that a read gives back as it was written.
  abbrev pub IsPlain : String → Type 0
  IsPlain l = (w.splitlines l ≡ l ∷ []) × (w.is_blank l ≡ false)

  split_all-append :
      (xs : List String) (l : String)
      → split_all w (xs ++ l ∷ []) ≡ split_all w xs ++ w.splitlines l
  unfolding split_all
  split_all-append [] l = append-nil (w.splitlines l)
  split_all-append (x ∷ xs) l =
      ap (λ ys. w.splitlines x ++ ys) (split_all-append xs l)
      ∙ sym (append_assoc (w.splitlines x) (split_all w xs) (w.splitlines l))

  not_blank-append :
      (xs : List String) (l : String)
      → w.is_blank l ≡ false
      → not_blank w (xs ++ l ∷ []) ≡ not_blank w xs ++ l ∷ []
  unfolding not_blank
  not_blank-append [] l h = rw h
  not_blank-append (x ∷ xs) l h = ground (arith, not_blank-append xs l h)

  read-append :
      (xs : List String) (l : String)
      → IsPlain l
      → not_blank w (split_all w (xs ++ l ∷ [])) ≡ not_blank w (split_all w xs) ++ l ∷ []
  read-append xs l h = rw (split_all-append xs l, h.0) (not_blank-append (split_all w xs) l h.1)

  -- The file that ends with a line.
  abbrev pub EndsWith : String → Option (List String) → Type 0
  EndsWith l file = (before : List String) × (file ≡ some (before ++ l ∷ []))

  file_of-snoc :
      (before : List String) (l : String) → file_of w (before ++ l ∷ []) ≡ some (before ++ l ∷ [])
  file_of-snoc [] l = refl
  file_of-snoc (x ∷ before) l = refl

  trimmed-EndsWith :
      (l : String) (stat same write : Bool) (left : List String) (t : Transport E)
      → EndsWith l t.buffer
      → EndsWith l (file_of w left)
      → EndsWith l
          (if stat
            then if same then t else if write then record t { buffer = file_of w left } else t
            else t).buffer
  trimmed-EndsWith l true true write left t old new = old
  trimmed-EndsWith l true false true left t old new = new
  trimmed-EndsWith l true false false left t old new = old
  trimmed-EndsWith l false same write left t old new = old

  trim_buffer-EndsWith :
      (disk : Disk) (lines : List String) (l : String) (t : Transport E)
      → disk.can_read ≡ true
      → t.buffer ≡ some (lines ++ l ∷ [])
      → IsPlain l
      → w.bytes l + w.newline_bytes ≤ max_buffer_bytes
      → EndsWith l (trim_buffer w disk t).buffer
  unfolding trim_buffer read_buffer write_buffer
  trim_buffer-EndsWith disk lines l t reads file plain fits =
      let read : read_buffer w disk t ≡ not_blank w (split_all w lines) ++ l ∷ [] =
        rw (reads, file) (read-append lines l plain) in
      let big = is_oversize w t.buffer in
      let (before, e) = kept-last w big (not_blank w (split_all w lines)) l fits in
      trimmed-EndsWith l disk.can_stat _ disk.can_write (kept w big (read_buffer w disk t)) t
        (lines, file)
        (
          before,
          ap (λ ls. file_of w (kept w big ls)) read ∙ ap (file_of w) e ∙ file_of-snoc before l,
        )

  append_buffer-EndsWith :
      (disk : Disk) (e : E) (t : Transport E)
      → disk.can_append ≡ true
      → disk.can_read ≡ true
      → IsPlain (w.dumps e)
      → w.bytes (w.dumps e) + w.newline_bytes ≤ max_buffer_bytes
      → EndsWith (w.dumps e) (append_buffer w disk e t).buffer
  append_buffer-EndsWith disk e t appends reads plain fits =
      let longer : Transport E = record t {
        buffer = some (or_empty w t.buffer ++ w.dumps e ∷ []);
      } in
      unfold append_buffer in
      subst (λ b. EndsWith (w.dumps e) (if b then trim_buffer w disk longer else t).buffer)
        (sym appends)
        (trim_buffer-EndsWith disk (or_empty w t.buffer) (w.dumps e) longer reads refl plain fits)

  -- What send did with an envelope.
  abbrev pub Kept : E → Transport E → Bool × Transport E → Type 0
  Kept e t r =
      ((r.0 ≡ true) × (more : List E) × (finals r.1.posted ≡ finals t.posted ++ e ∷ more))
      ⊎ ((r.0 ≡ false) × EndsWith (w.dumps e) r.1.buffer)

  delivered-Kept :
      (disk : Disk) (e : E) (t : Transport E) (r : Bool × Transport E)
      → finals r.1.posted ≡ finals t.posted ++ if_done r.0 e
      → EndsWith (w.dumps e) (append_buffer w disk e r.1).buffer
      → Kept e t
          (if r.0 then (true, (flush_buffer w disk r.1).1) else (false, append_buffer w disk e r.1))
  delivered-Kept disk e t (true, t') final ends =
      let (more, f) = flush_buffer-finals disk t' in
      inl
        (refl, more, f ∙ ap (λ xs. xs ++ more) final ∙ append_assoc (finals t.posted) (e ∷ []) more)
  delivered-Kept disk e t (false, t') final ends = inr (refl, ends)

  -- An envelope that has something to send, is not too large and stays one line in the buffer is not
  -- lost, if the file can be read and appended to: send returns True and the server took or rejected
  -- it, before all that the flush then replays, or send returns False and the file ends with its line.
  pub send-Kept :
      (disk : Disk) (e : E) (t : Transport E)
      → disk.can_append ≡ true
      → disk.can_read ≡ true
      → IsPlain (w.dumps e)
      → w.bytes (w.dumps e) ≤ max_payload_bytes
      → w.newline_bytes ≤ 2
      → Kept e t (send w disk false e t)
  unfolding send
  send-Kept disk e t appends reads plain small newline =
      let fits : ltb max_payload_bytes (w.bytes (w.dumps e)) ≡ false = ground arith in
      let room : w.bytes (w.dumps e) + w.newline_bytes ≤ max_buffer_bytes =
        omega (arith, small, newline) in
      rw fits (
        delivered-Kept disk e t (deliver w e t) (deliver-finals w e t).0
          (append_buffer-EndsWith disk e (deliver w e t).1 appends reads plain room))
