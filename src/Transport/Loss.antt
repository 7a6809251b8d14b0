-- ===== src/Transport/Loss.antt =====
-- An envelope whose line the buffer's reader takes apart: json.dumps with ensure_ascii=False leaves
-- U+2028, U+2029 and U+0085 in a text as they are, and str.splitlines divides a line there.
use Prim.Native.String.{String}
use srp.Prelude.{◌≡◌, refl, true, false, none, some, [], ◌∷◌}
use srp.Transport.{World, Transport, Disk}
use srp.Transport.Buffer.{
  read_buffer, write_buffer, split_all, not_blank, replay, replay_line, replay_loaded, flush_buffer,
}

module _ {E : Type 0} (w : World E) where
  -- A buffered envelope whose line is divided into two parts, neither of them blank and neither JSON,
  -- is lost: where it is all that the buffer holds, and the disk works, the flush counts two handled
  -- lines, removes the file and posts nothing.
  pub flush_buffer_loses :
      (disk : Disk) (t : Transport E) (e : E) (a b : String)
      → t.buffer ≡ some (w.dumps e ∷ [])
      → disk.can_read ≡ true
      → disk.can_write ≡ true
      → w.splitlines (w.dumps e) ≡ a ∷ b ∷ []
      → (w.is_blank a ≡ false) × (w.is_blank b ≡ false)
      → (w.loads a ≡ none) × (w.loads b ≡ none)
      → ((flush_buffer w disk t).0 ≡ 2)
        × ((flush_buffer w disk t).1.buffer ≡ none)
        × ((flush_buffer w disk t).1.posted ≡ t.posted)
  unfolding flush_buffer write_buffer
  flush_buffer_loses disk t e a b file reads writes parts full bad =
      let read : read_buffer w disk t ≡ a ∷ b ∷ [] =
        unfold read_buffer split_all not_blank in rw (file, reads, parts, full.0, full.1) in
      let two : replay w (a ∷ b ∷ [])
            (record { handled = 0; remaining = []; blocked = false; transport = t })
          ≡ record { handled = 2; remaining = []; blocked = false; transport = t } =
        unfold replay replay_line replay_loaded in rw (bad.0, bad.1) in
      rw (read, two, writes) (refl, refl, refl)
