-- ===== src/Exporter/Tests.antt =====
-- A file that is read in pieces.
use loopstorm_guard.Common.{
  ℕ, ◌≡◌, refl, String, Bool, true, false, Option, some, List, [], ◌∷◌, ◌++◌, ◌==◌, if◌then◌else◌,
  drop,
}
use loopstorm_guard.Common.Texts.{trim_end}
use loopstorm_guard.Policies.Content.{Value, text, object, end, member}
use loopstorm_guard.Exporter.Reader.{
  Bytes, ◌<>◌, split_lines, pop, process_lines, new_reader, read_new_bytes, missing, at,
  load_cursor, start, process_once,
}
use loopstorm_guard.Exporter.Growing.{Growth, poll_with, grown, first_byte}
use loopstorm_guard.Exporter.Polled.{follow, text_events, IsWhole, IsWhole-append}
use loopstorm_guard.Exporter.Followed.{follow_file, follow_complete}

abbrev event : String → Value
event run_id = object (
    member "run_id" (text run_id) (
      member "seq" (text "1")
        (member "event_type" (text "e") (member "hash" (text "h") (member "ts" (text "t") end)))))

abbrev parse : String → Option Value
parse s = some (event s)

-- A few characters of one byte, and one of two.
abbrev ascii : ℕ → String
ascii b = if b == 10 then "\n" else if b == 97 then "a" else if b == 98 then "b" else "?"

abbrev decode_after : Bool → Bytes → String
decode_after true [] = "�"
decode_after true (b ∷ bs) =
    let rest = decode_after false bs in if b == 169 then "é" <> rest else "�" <> rest
decode_after false [] = ""
decode_after false (b ∷ bs) = elim (b == 195) [
  | true ↦ decode_after true bs
  | false ↦ ascii b <> decode_after false bs
]

abbrev decode : Bytes → String
decode = decode_after false

abbrev begun : Bytes
begun = 97 ∷ 10 ∷ 98 ∷ []

-- The second line comes in two pieces, and one poll does not find the file.
abbrev pieces : List Growth
pieces =
    record { added = 195 ∷ 169 ∷ []; found = false; readable = true; writable = true }
    ∷ record { added = 97 ∷ 10 ∷ 10 ∷ []; found = true; readable = true; writable = false }
    ∷ []

pieces_run :
    (follow_file parse decode missing true true begun pieces).1 ≡ event "a" ∷ event "béa" ∷ []
unfolding follow_file follow start load_cursor read_new_bytes pop split_lines process_lines trim_end
pieces_run = refl

-- A reader that starts at a saved cursor reports what comes after it.
saved_run : (follow_file parse decode (at 2) true true begun pieces).1 ≡ event "béa" ∷ []
unfolding follow_file follow start load_cursor read_new_bytes pop split_lines process_lines trim_end
saved_run = refl

-- A character whose two bytes come with two polls is lost.
cut_character :
    (follow parse decode
      (record { added = 195 ∷ []; found = true; readable = true; writable = true }
        ∷ record { added = 169 ∷ 10 ∷ []; found = true; readable = true; writable = true }
        ∷ [])
      []
      (new_reader missing)).1
    ≡ event "�?" ∷ []
unfolding follow read_new_bytes pop split_lines process_lines trim_end
cut_character = refl

-- A file that has become shorter is read from its beginning.
rotation :
    read_new_bytes parse decode
      (poll_with true true true (98 ∷ 10 ∷ []))
      (record { cursor = 9; line_number = 4; partial = "xy"; saved = at 9 })
    ≡ (record { cursor = 2; line_number = 5; partial = ""; saved = at 2 }, event "b" ∷ [])
unfolding read_new_bytes pop split_lines process_lines trim_end
rotation = refl

-- The saved cursor is behind a piece of a line: a new reader reports the rest of it as a line.
restart :
    (process_once parse decode (poll_with true true true (97 ∷ 98 ∷ 10 ∷ [])) (
      new_reader
        (process_once parse decode
          (poll_with true true true (97 ∷ []))
          (new_reader missing)).0.saved)).1
    ≡ event "b" ∷ []
unfolding process_once start load_cursor read_new_bytes pop split_lines process_lines trim_end
restart = refl

line_end : IsWhole parse decode (97 ∷ 10 ∷ 10 ∷ [])
line_end =
    IsWhole-append parse decode (97 ∷ []) (10 ∷ 10 ∷ []) (λ later. refl)
      (IsWhole-append parse decode (10 ∷ []) (10 ∷ []) (λ later. refl) (λ later. refl))

follow_complete_example :
    (follow_file parse decode (at 2) true true begun pieces).1
      ++ (read_new_bytes parse decode
          (poll_with true true true (grown pieces begun))
          (follow_file parse decode (at 2) true true begun pieces).0).1
    ≡ text_events parse decode (decode (drop (first_byte (at 2) true begun) (grown pieces begun)))
follow_complete_example =
    follow_complete parse decode (at 2) true true begun pieces true refl (λ later. refl)
      (λ later. refl, (line_end, tt))
