-- ===== src/Trace/Events.antt =====
-- internal/trace/store.go: Append, Read and read. A file is modelled by its lines, each with the event
-- that encoding/json reads in it, if it is one, and its bytes. A write that fails may leave a piece
-- of its line, without its end, behind which the next line goes. Such a line is no event: a JSON object
-- cut off before its end is none, nor is one with another behind it. Numbers are natural. A run's
-- identifier that ValidID refuses is an argument.
use x_mock_mcp.Prelude.Int.{ltb_ℤ, pos, pos_part, ℤ}
use x_mock_mcp.Api.{Failure, Result, err, fail, invalid, ok, other, trace_full}
use x_mock_mcp.Prelude.{
  Assoc, Bool, List, Option, String, [], if◌then◌else◌, insert, leb, lookup, ltb, nat_eq, none, not,
  some, suc, true, ℕ, ◌&&◌, ◌++◌, ◌+◌, ◌^◌, ◌||◌, ◌∷◌,
}

pub record Event : Type 0 where
  pub seq : ℕ
  pub at : String
  pub kind : String
  pub body : String

pub record Line : Type 0 where
  pub event : Option Event
  pub size : ℕ

-- `torn` is what stands behind the last end of a line.
pub record File : Type 0 where
  pub lines : List Line
  pub torn : Option Line

pub record Store : Type 0 where
  pub limit : ℕ
  pub files : Assoc File
  pub seqs : Assoc ℕ

-- A limit that is not positive is 64 MiB.
unfoldable pub open_store : ℤ → Assoc File → Store
open_store limit files = record {
  limit = if ltb_ℤ (pos 0) limit then pos_part limit else 2 ^ 26;
  files = files;
  seqs = [];
}

abbrev pub file_of : Option File → File
file_of none = record { lines = []; torn = none }
file_of (some file) = file

-- The lines that a scanner finds: the last one may lack its end.
abbrev pub scanned : File → List Line
scanned file = elim file.torn [ none ↦ file.lines | some l ↦ file.lines ++ (l ∷ []) ]

abbrev pub in_front : Event → Result (List Event) → Result (List Event)
in_front e (err failure) = err failure
in_front e (ok events) = ok (e ∷ events)

-- One event that was read: it counts if it is after `after`, and `rest` is what follows.
abbrev pub keep_event :
    ℕ → ℕ → ℕ → Event → Result (List Event) → Result (List Event) → Result (List Event)
keep_event after limit taken e rest rest' =
    if ltb after e.seq
    then (if ltb 0 limit && leb limit (suc taken) then ok (e ∷ []) else in_front e rest')
    else rest

-- The loop of read: a line of more than 4 MiB stops the scanner with an error, and so does one that
-- is no event. `taken` events are read already, and a limit of 0 is none.
unfoldable pub scan : ℕ → ℕ → ℕ → List Line → Result (List Event)
scan after limit taken [] = ok []
scan after limit taken (l ∷ ls) =
    let rest = scan after limit taken ls in
    let rest' = scan after limit (suc taken) ls in
    if ltb (2 ^ 22) l.size then err (other "bufio.Scanner: token too long") else (elim l.event [
      | none ↦ err (other "invalid character")
      | some e ↦ keep_event after limit taken e rest rest'
    ])

-- func (s *Store) read, of a run whose file can be opened or does not exist
unfoldable pub read_file : Option Failure → Bool → String → ℕ → ℕ → Store → Result (List Event)
unfolding scan
read_file fault valid run after limit s =
    if not valid then err (invalid "invalid run ID") else (elim fault [
      | some e ↦ err e
      | none ↦ scan after limit 0 (scanned (file_of (lookup run s.files)))
    ])

-- func (s *Store) Read
unfoldable pub read : Option Failure → Bool → String → ℕ → ℤ → Store → Result (List Event)
unfolding read_file
read fault valid run after limit s =
    if ltb_ℤ limit (pos 1) || ltb_ℤ (pos 200) limit
    then err (invalid "trace limit must be 1..200")
    else read_file fault valid run after (pos_part limit) s

unfoldable pub last_seq : List Event → ℕ
last_seq [] = 0
last_seq (e ∷ []) = e.seq
last_seq (e ∷ f ∷ es) = last_seq (f ∷ es)

unfoldable pub sum_sizes : List Line → ℕ
sum_sizes [] = 0
sum_sizes (l ∷ ls) = l.size + sum_sizes ls

unfoldable pub file_size : File → ℕ
unfolding sum_sizes
file_size file = sum_sizes (scanned file)

-- A whole line at the end of a file: behind a torn one it is no event.
abbrev pub add_line : Event → ℕ → File → File
add_line e size file = elim file.torn [
  | none ↦ record {
    lines = file.lines ++ (record { event = some e; size = size } ∷ []);
    torn = none;
  }
  | some l ↦ record {
    lines = file.lines ++ (record { event = none; size = l.size + size } ∷ []);
    torn = none;
  }
]

-- The first `count` bytes of such a line, which are an event if only the line's end is missing.
unfoldable pub add_piece : Event → ℕ → ℕ → File → File
add_piece e size count file = if nat_eq count 0 then file else elim file.torn [
  | none ↦ record file {
    torn = some (record { event = if nat_eq (count + 1) size then some e else none; size = count });
  }
  | some l ↦ record file { torn = some (record { event = none; size = l.size + count }) }
]

-- What may fail in Append: reading the file at first, encoding or opening or Stat, and writing, with
-- the number of bytes that were written.
pub record Faults : Type 0 where
  pub reading : Option Failure
  pub opening : Option Failure
  pub writing : Option (Failure × ℕ)

-- s.seq[run] where it is known, or from the file; the map keeps a number that was read from a file
-- that is not empty.
unfoldable pub noted_seq : String → Assoc ℕ → Result (List Event) → Result (Assoc ℕ × ℕ)
unfolding last_seq
noted_seq run seqs (err e) = err e
noted_seq run seqs (ok []) = ok (seqs, 0)
noted_seq run seqs (ok (e ∷ es)) = ok (insert run (last_seq (e ∷ es)) seqs, last_seq (e ∷ es))

unfoldable pub known_seq : Faults → String → Store → Result (Assoc ℕ × ℕ)
unfolding read_file noted_seq
known_seq f run s = elim (lookup run s.seqs) [
  | some n ↦ ok (s.seqs, n)
  | none ↦ noted_seq run s.seqs (read_file f.reading true run 0 0 s)
]

module _ (line_size : Event → ℕ) where
  -- The rest of Append: the numbered event goes to the end of the file, if there is room.
  unfoldable pub write_event : Faults → String → Event → Store → Store × Result Event
  unfolding file_size add_piece
  write_event f run e s =
      let file = file_of (lookup run s.files) in
      elim f.opening [
        | some failure ↦ (s, err failure)
        | none ↦
            if ltb s.limit (file_size file + line_size e)
            then (s, err (fail trace_full "run trace exceeded size limit"))
            else (elim f.writing [
              | some (failure, count) ↦ (
                record s { files = insert run (add_piece e (line_size e) count file) s.files },
                err failure,
              )
              | none ↦ (
                record s {
                  files = insert run (add_line e (line_size e) file) s.files;
                  seqs = insert run e.seq s.seqs;
                },
                ok e,
              )
            ])
      ]

  unfoldable pub with_seq :
      Faults → String → String → Event → Store → Result (Assoc ℕ × ℕ) → Store × Result Event
  unfolding write_event
  with_seq f now run e s (err failure) = (s, err failure)
  with_seq f now run e s (ok (seqs, n)) =
      write_event f run (record e { seq = n + 1; at = now }) (record s { seqs = seqs })

  -- func (s *Store) Append
  unfoldable pub append : Faults → Bool → String → String → Event → Store → Store × Result Event
  unfolding known_seq with_seq
  append f valid now run e s =
      if not valid then (s, err (invalid "invalid run ID")) else (elim (known_seq f run s) [
        | err failure ↦ (s, err failure)
        | ok (seqs, n) ↦
            write_event f run (record e { seq = n + 1; at = now }) (record s { seqs = seqs })
      ])
