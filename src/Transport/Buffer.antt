-- ===== src/Transport/Buffer.antt =====
-- client/transport.py: the buffer file, its replay and its limits, and the sending of an envelope.
use Prim.Native.String.{String}
use srp.Prelude.{
  ltb, ◌==◌, if◌then◌else◌, length, drop, ℕ, ◌+◌, ◌-◌, Bool, true, false, Option, none, some, List,
  [], ◌∷◌, ◌++◌,
}
use srp.Transport.{
  max_buffer_lines, max_buffer_bytes, max_payload_bytes, oversized, World, Transport, Disk, deliver,
}

module _ {E : Type 0} (w : World E) where
  unfoldable pub split_all : List String → List String
  split_all [] = []
  split_all (l ∷ lines) = w.splitlines l ++ split_all lines

  unfoldable pub not_blank : List String → List String
  not_blank [] = []
  not_blank (l ∷ lines) = let later = not_blank lines in if w.is_blank l then later else l ∷ later

  abbrev pub read_file : Bool → Option (List String) → List String
  read_file can none = []
  read_file can (some lines) = if can then not_blank (split_all lines) else []

  -- _read_buffer
  unfoldable pub read_buffer : Disk → Transport E → List String
  read_buffer disk t = read_file disk.can_read t.buffer

  abbrev pub or_empty : Option (List String) → List String
  or_empty none = []
  or_empty (some lines) = lines

  -- the lines that are not blank, by iteration over the file
  unfoldable pub buffer_depth : Disk → Transport E → ℕ
  buffer_depth disk t = if disk.can_read then length (not_blank (or_empty t.buffer)) else 0

  abbrev pub file_of : List String → Option (List String)
  file_of [] = none
  file_of (l ∷ lines) = some (l ∷ lines)

  -- _write_buffer
  unfoldable pub write_buffer : Disk → List String → Transport E → Transport E
  write_buffer disk lines t = if disk.can_write then record t { buffer = file_of lines } else t

  -- the loop of flush_buffer
  pub record Replay : Type 0 where
    pub handled : ℕ
    pub remaining : List String
    pub blocked : Bool
    pub transport : Transport E

  unfoldable pub replay_loaded : String → Option E → Replay → Replay
  replay_loaded line none r = record r { handled = r.handled + 1 }
  replay_loaded line (some e) r =
      let (done, t) = deliver w e r.transport in
      if done
      then record r { handled = r.handled + 1; transport = t }
      else record r { remaining = r.remaining ++ line ∷ []; blocked = true; transport = t }

  unfoldable pub replay_line : String → Replay → Replay
  replay_line line r =
      if r.blocked
      then record r { remaining = r.remaining ++ line ∷ [] }
      else replay_loaded line (w.loads line) r

  unfoldable pub replay : List String → Replay → Replay
  replay [] r = r
  replay (l ∷ lines) r = replay lines (replay_line l r)

  abbrev pub replay_all : List String → Transport E → Replay
  replay_all lines t =
      replay lines (record { handled = 0; remaining = []; blocked = false; transport = t })

  abbrev pub flush_lines : Disk → List String → Transport E → ℕ × Transport E
  flush_lines disk [] t = (0, t)
  flush_lines disk (l ∷ lines) t =
      let r = replay_all (l ∷ lines) t in (r.handled, write_buffer disk r.remaining r.transport)

  unfoldable pub flush_buffer : Disk → Transport E → ℕ × Transport E
  flush_buffer disk t = flush_lines disk (read_buffer disk t) t

  -- the bytes of a file of these lines
  unfoldable pub size : List String → ℕ
  size [] = 0
  size (l ∷ lines) = w.bytes l + w.newline_bytes + size lines

  -- while kept and total > _MAX_BUFFER_BYTES
  unfoldable pub drop_oldest : ℕ → List String → List String
  drop_oldest total [] = []
  drop_oldest total (l ∷ lines) =
      let later = drop_oldest (total - (w.bytes l + w.newline_bytes)) lines in
      if ltb max_buffer_bytes total then later else l ∷ lines

  -- lines[-_MAX_BUFFER_LINES:]
  abbrev pub last_lines : List String → List String
  last_lines lines = drop (length lines - max_buffer_lines) lines

  unfoldable pub kept : Bool → List String → List String
  kept is_oversize lines =
      if is_oversize
      then drop_oldest (size (last_lines lines)) (last_lines lines)
      else last_lines lines

  abbrev pub is_oversize : Option (List String) → Bool
  is_oversize none = false
  is_oversize (some lines) = ltb max_buffer_bytes (size lines)

  -- _trim_buffer
  unfoldable pub trim_buffer : Disk → Transport E → Transport E
  trim_buffer disk t =
      let lines = read_buffer disk t in
      let left = kept (is_oversize t.buffer) lines in
      if disk.can_stat
      then if length left == length lines then t else write_buffer disk left t
      else t

  -- _append_buffer
  unfoldable pub append_buffer : Disk → E → Transport E → Transport E
  append_buffer disk e t =
      if disk.can_append
      then trim_buffer disk (record t { buffer = some (or_empty t.buffer ++ w.dumps e ∷ []) })
      else t

  unfoldable pub send : Disk → Bool → E → Transport E → Bool × Transport E
  send disk is_empty e t =
      let bytes = w.bytes (w.dumps e) in
      if is_empty
      then (true, t)
      else if ltb max_payload_bytes bytes
      then (true, record t { last_error = oversized bytes })
      else let (done, t') = deliver w e t in
        if done then (true, (flush_buffer disk t').1) else (false, append_buffer disk e t')
