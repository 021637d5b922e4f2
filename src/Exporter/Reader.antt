-- ===== src/Exporter/Reader.antt =====
-- `JsonlReader` of apps/otel-exporter/src/jsonl-reader.ts. A file is a list of bytes; `decode` is
-- `Buffer.toString("utf8")`, and `JSON.parse` is a parameter that returns `none` where it throws. What
-- is logged is left out.
use Prim.Native.Char.{Char, code}
use Prim.Native.String
use loopstorm_guard.Common.{
  ℕ, ◌+◌, String, Bool, true, false, ◌&&◌, not, Option, none, some, List, [], ◌∷◌, ◌++◌, ltb, leb,
  ◌==◌, str_eq, all, if◌then◌else◌, length, drop,
}
use loopstorm_guard.Common.Texts.{trim_end}
use loopstorm_guard.Policies.Content.{Value, undefined, null, is_object, get_member}

abbrev pub Bytes : Type 0
Bytes = List ℕ

infixl 65 ◌<>◌
abbrev pub ◌<>◌ : String → String → String
◌<>◌ = String.◌++◌

abbrev pub put : Char → List String → List String
put c [] = String.◌∷◌ c "" ∷ []
put c (x ∷ xs) = String.◌∷◌ c x ∷ xs

-- `raw.split("\n")`.
unfoldable pub split_lines : String → List String
split_lines String.[] = "" ∷ []
split_lines (String.◌∷◌ c s) =
    let rest = split_lines s in if code c == 10 then "" ∷ rest else put c rest

-- `lines.pop() ?? ""`: the other lines, and the last one.
unfoldable pub pop : List String → List String × String
pop [] = ([], "")
pop (x ∷ []) = ([], x)
pop (x ∷ y ∷ ys) = let rest = pop (y ∷ ys) in (x ∷ rest.0, rest.1)

pub data SavedCursor : Type 0 where
  missing : SavedCursor
  corrupted : SavedCursor
  at : ℕ → SavedCursor

-- The state of the reader, with the file that holds the saved cursor.
pub record Reader : Type 0 where
  pub cursor : ℕ
  pub line_number : ℕ
  pub partial : String
  pub saved : SavedCursor

abbrev pub new_reader : SavedCursor → Reader
new_reader saved = record { cursor = 0; line_number = 0; partial = ""; saved = saved }

-- What a poll finds: the file, if it exists, and whether it can be read and the cursor saved.
pub record Poll : Type 0 where
  pub file : Option Bytes
  pub readable : Bool
  pub writable : Bool

abbrev pub save_cursor : Bool → Reader → Reader
save_cursor writable r = if writable then record r { saved = at r.cursor } else r

abbrev pub reset : Reader → Reader
reset r = record r { cursor = 0 }

-- A cursor beyond the end of the file is reset.
abbrev load_position : ℕ → Bool → Option Bytes → Reader → Reader
load_position v writable none r = reset r
load_position v writable (some file) r =
    if leb v (length file) then record r { cursor = v } else save_cursor writable (reset r)

unfoldable pub load_cursor : Bool → Option Bytes → Reader → Reader
load_cursor writable file r = elim r.saved [
  | missing ↦ reset r
  | corrupted ↦ save_cursor writable (reset r)
  | at v ↦ load_position v writable file r
]

abbrev pub is_present : Value → Bool
is_present undefined = false
is_present null = false
is_present v = true

abbrev required_event_fields : List String
required_event_fields = "run_id" ∷ "seq" ∷ "event_type" ∷ "hash" ∷ "ts" ∷ []

abbrev has_required_fields : Value → Bool
has_required_fields v = all (λ field. is_present (get_member field v)) required_event_fields

module _ (json_parse : String → Option Value) where
  -- The event of a line; none for a line that is skipped.
  abbrev pub parse_line : String → List Value
  parse_line line = elim (json_parse line) [
    | none ↦ []
    | some v ↦ if is_object v && has_required_fields v then v ∷ [] else []
  ]

  -- The number of the last line and the events.
  unfoldable pub process_lines : ℕ → List String → ℕ × List Value
  unfolding trim_end
  process_lines n [] = (n, [])
  process_lines n (line ∷ lines) = elim (str_eq (trim_end line) "") [
    | true ↦ process_lines n lines
    | false ↦
        let rest = process_lines (n + 1) lines in (rest.0, parse_line (trim_end line) ++ rest.1)
  ]

-- A file that is shorter than the cursor has been rotated.
abbrev pub rotated : Bool → Bytes → Reader → Reader
rotated writable file r =
    if ltb (length file) r.cursor
    then save_cursor writable (record r { cursor = 0; partial = "" })
    else r

module _ (json_parse : String → Option Value) (decode : Bytes → String) where
  -- `readChunk` and the lines that it completes: the new bytes are decoded by themselves.
  abbrev pub read_chunk : Bool → Bytes → Reader → Reader × List Value
  read_chunk writable file r =
      let parts = pop (split_lines (r.partial <> decode (drop r.cursor file))) in
      let processed = process_lines json_parse r.line_number parts.0 in
      (
        save_cursor writable
            (record r { cursor = length file; partial = parts.1; line_number = processed.0 }),
        processed.1,
      )

  abbrev pub read_file : Poll → Bytes → Reader → Reader × List Value
  read_file poll file r =
      if leb (length file) r.cursor
      then (r, [])
      else if poll.readable
      then read_chunk poll.writable file r
      else (r, [])

  unfoldable pub read_new_bytes : Poll → Reader → Reader × List Value
  unfolding pop split_lines process_lines
  read_new_bytes poll r = elim poll.file [
    | none ↦ (r, [])
    | some file ↦ read_file poll file (rotated poll.writable file r)
  ]

  -- The beginning of `start` and of `processOnce`, up to the watcher. Where the read throws, both
  -- throw as well.
  unfoldable pub start : Poll → Reader → Reader × List Value
  unfolding read_new_bytes load_cursor
  start poll r = read_new_bytes poll (load_cursor poll.writable poll.file r)

  -- The stream of `readChunk` reports an error.
  abbrev throws : Poll → Reader → Bool
  throws poll r = elim poll.file [
    | none ↦ false
    | some file ↦ not (leb (length file) (rotated poll.writable file r).cursor) && not poll.readable
  ]

  -- `processOnce`; the cursor is not saved again where the read throws.
  unfoldable pub process_once : Poll → Reader → Reader × List Value
  unfolding start load_cursor
  process_once poll r =
      let answer = start poll r in
      if throws poll (load_cursor poll.writable poll.file r)
      then answer
      else (save_cursor poll.writable answer.0, answer.1)
