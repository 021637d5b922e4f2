-- ===== src/Exporter/Followed.antt =====
-- A reader that starts on a file and follows it, against reading the file at once.
use mathlib.Core.Path.{subst}
use loopstorm_guard.Common.{
  ℕ, ◌≡◌, sym, ◌∙◌, ap, String, Bool, true, Option, List, [], ◌++◌, append-nil, arith, All, length,
  length-take, take, drop,
}
use loopstorm_guard.Policies.Content.{Value}
use loopstorm_guard.Exporter.Reader.{
  Bytes, split_lines, pop, Reader, SavedCursor, new_reader, read_new_bytes, start,
}
use loopstorm_guard.Exporter.Lines.{cut, events_of}
use loopstorm_guard.Exporter.Growing.{
  drop-append, take-drop, Growth, poll_with, grown, first_byte, loaded, load_cursor-first_byte,
  first_byte-le,
}
use loopstorm_guard.Exporter.Polled.{
  IsWhole, IsWhole-nil, follow, text_events, HasRead, good_poll, HasReported, poll-HasReported,
  follow-HasReported,
}

module _ (json_parse : String → Option Value) (decode : Bytes → String) where
  -- A new reader: its start on a file of the bytes `old`, which does not throw, and a number of
  -- polls.
  unfoldable pub follow_file : SavedCursor → Bool → Bool → Bytes → List Growth → Reader × List Value
  unfolding start follow
  follow_file saved found writable old gs =
      let begun = start json_parse decode (poll_with found true writable old) (new_reader saved) in
      let rest = follow json_parse decode gs old begun.0 in (rest.0, begun.1 ++ rest.1)

  module _ (empty : decode [] ≡ "") (saved : SavedCursor) (found writable : Bool)
      (old : Bytes) where
    abbrev from : ℕ
    from = first_byte saved found old

    abbrev skipped : Bytes
    skipped = take from old

    length_skipped : length skipped ≡ from
    length_skipped = omega (arith, length-take from old, first_byte-le saved found old)

    loaded-HasRead :
        HasRead json_parse decode skipped
          (IsWhole-nil json_parse decode empty)
          []
          (loaded found writable old saved)
    unfolding cut split_lines pop
    loaded-HasRead =
        let (cursor, partial) = load_cursor-first_byte found writable old saved in
        record {
          cursor = cursor ∙ sym length_skipped ∙ ap length (sym (append-nil skipped));
          partial = partial ∙ ap (λ s. (cut s).1) (sym empty);
          whole = IsWhole-nil json_parse decode empty;
        }

    skipped_whole : skipped ++ drop from old ≡ old
    skipped_whole = take-drop from old

    abbrev Reported : Bytes → List Value → Reader × List Value → Type 0
    Reported = HasReported json_parse decode skipped (IsWhole-nil json_parse decode empty)

    begun-HasReported :
        IsWhole json_parse decode (drop from old)
        → Reported old []
            (start json_parse decode (poll_with found true writable old) (new_reader saved))
    unfolding start cut split_lines pop text_events events_of loaded
    begun-HasReported k =
        let reader = loaded found writable old saved in
        let polled =
          poll-HasReported json_parse decode skipped (IsWhole-nil json_parse decode empty) found
            true writable [] (drop from old) reader loaded-HasRead k in
        let nothing : text_events json_parse decode (decode []) ≡ [] =
          ap (text_events json_parse decode) empty in
        subst
          (λ known.
            Reported old known
              (start json_parse decode (poll_with found true writable old) (new_reader saved)))
          nothing
          (subst
            (λ file.
              Reported file (text_events json_parse decode (decode []))
                (read_new_bytes json_parse decode (poll_with found true writable file) reader))
            skipped_whole polled)

    followed-HasReported :
        (gs : List Growth)
        → IsWhole json_parse decode (drop from old)
        → All (λ g. IsWhole json_parse decode g.added) gs
        → Reported (grown gs old) [] (follow_file saved found writable old gs)
    unfolding follow_file
    followed-HasReported gs k ks =
        let begun = begun-HasReported k in
        let answer =
          start json_parse decode (poll_with found true writable old) (new_reader saved) in
        let known = text_events json_parse decode (decode begun.read) in
        let later : Reported (grown gs old) known (follow json_parse decode gs old answer.0) =
          subst (λ file. Reported (grown gs file) known (follow json_parse decode gs file answer.0))
            (sym begun.is_file)
            (follow-HasReported json_parse decode skipped (IsWhole-nil json_parse decode empty) gs
              begun.read begun.unread answer.0 begun.has_read begun.whole ks) in
        record {
          read = later.read;
          unread = later.unread;
          is_file = later.is_file;
          has_read = later.has_read;
          whole = later.whole;
          reported =
              ap (λ (vs : List Value). vs ++ (follow json_parse decode gs old answer.0).1)
                begun.reported
              ∙ later.reported;
        }

-- A new reader starts on a file, without an error of the stream, from the saved cursor if the file
-- is found and is at least as long as that, and from the beginning otherwise; it then polls the file
-- as this grows, and some of the polls may not find it, not read it or not save the cursor. If the decoder gives the empty text for no bytes,
-- and the bytes behind the cursor and each growth end between two characters, then once a poll reads
-- the file again, the events that the reader has reported are those of the complete lines of the
-- bytes behind that cursor, each once and in order.
pub follow_complete :
    (json_parse : String → Option Value) (decode : Bytes → String) (saved : SavedCursor)
    (found writable : Bool) (old : Bytes) (gs : List Growth) (last_writable : Bool)
    → decode [] ≡ ""
    → IsWhole json_parse decode (drop (first_byte saved found old) old)
    → All (λ g. IsWhole json_parse decode g.added) gs
    → (follow_file json_parse decode saved found writable old gs).1
        ++ (read_new_bytes json_parse decode
            (poll_with true true last_writable (grown gs old))
            (follow_file json_parse decode saved found writable old gs).0).1
      ≡ text_events json_parse decode (decode (drop (first_byte saved found old) (grown gs old)))
follow_complete json_parse decode saved found writable old gs last_writable empty k ks =
    let from = first_byte saved found old in
    let base = take from old in
    let answer = follow_file json_parse decode saved found writable old gs in
    let so_far = followed-HasReported json_parse decode empty saved found writable old gs k ks in
    let read =
      good_poll json_parse decode base (IsWhole-nil json_parse decode empty) so_far.read
        so_far.unread answer.0 so_far.has_read so_far.whole last_writable in
    let events : Bytes → List Value = λ file.
      (read_new_bytes json_parse decode (poll_with true true last_writable file) answer.0).1 in
    let behind : drop from (grown gs old) ≡ so_far.read ++ so_far.unread =
      ap (drop from) so_far.is_file
      ∙ ap (λ n. drop n (base ++ (so_far.read ++ so_far.unread)))
          (sym (length_skipped json_parse decode empty saved found writable old))
      ∙ drop-append base (so_far.read ++ so_far.unread) in
    ap (λ (vs : List Value). vs ++ events (grown gs old)) so_far.reported
    ∙ ap (λ file. text_events json_parse decode (decode so_far.read) ++ events file) so_far.is_file
    ∙ read.1
    ∙ ap (λ bs. text_events json_parse decode (decode bs)) (sym behind)
