-- ===== src/Exporter/Polled.antt =====
-- A reader that polls a growing file: the events it has reported are those of what it has read.
use mathlib.Core.Path.{subst}
use text.Mathlib.TextLemmas.{append_assoc as text_assoc, nil-append}
use loopstorm_guard.Common.{
  ◌+◌, ◌≡◌, refl, sym, ◌∙◌, ap, ◌⊎◌, inl, inr, String, Bool, true, false, Option, List, [], ◌∷◌,
  ◌++◌, append_assoc, append-nil, ltb, leb, arith, Bool-cases, All, length, length-append, drop,
}
use loopstorm_guard.Policies.Content.{Value}
use loopstorm_guard.Exporter.Reader.{
  Bytes, ◌<>◌, Reader, save_cursor, read_chunk, rotated, read_new_bytes,
}
use loopstorm_guard.Exporter.Lines.{
  cut, cut-append, events_of, process_lines-events, events_of-append,
}
use loopstorm_guard.Exporter.Growing.{no_bytes, drop-append, Growth, poll_with, poll_of, grown}

module _ (json_parse : String → Option Value) (decode : Bytes → String) where
  -- The bytes end between two characters: what follows is decoded as by itself.
  abbrev pub IsWhole : Bytes → Type 0
  IsWhole bs = (later : Bytes) → decode (bs ++ later) ≡ decode bs <> decode later

  pub IsWhole-append : (xs ys : Bytes) → IsWhole xs → IsWhole ys → IsWhole (xs ++ ys)
  IsWhole-append xs ys h k later =
      ap decode (append_assoc xs ys later)
      ∙ h (ys ++ later)
      ∙ ap (λ t. decode xs <> t) (k later)
      ∙ sym (text_assoc (decode xs) (decode ys) (decode later))
      ∙ ap (λ t. t <> decode later) (sym (h ys))

  pub IsWhole-nil : decode [] ≡ "" → IsWhole []
  IsWhole-nil h later = sym (ap (λ t. t <> decode later) h ∙ nil-append (decode later))

  -- The reader and its events after a number of polls.
  unfoldable pub follow : List Growth → Bytes → Reader → Reader × List Value
  follow [] file r = (r, [])
  follow (g ∷ gs) file r =
      let answer = read_new_bytes json_parse decode (poll_of g (file ++ g.added)) r in
      let rest = follow gs (file ++ g.added) answer.0 in (rest.0, answer.1 ++ rest.1)

  -- The events of the complete lines of a text, read at once.
  unfoldable pub text_events : String → List Value
  unfolding cut
  text_events s = events_of json_parse (cut s).0

  text_events-append :
      (s t : String)
      → text_events (s <> t) ≡ text_events s ++ events_of json_parse (cut ((cut s).1 <> t)).0
  unfolding text_events
  text_events-append s t =
      ap (λ (p : List String × String). events_of json_parse p.0) (cut-append s t)
      ∙ events_of-append json_parse (cut s).0 _

  module _ (base : Bytes) (none_unread : IsWhole []) where
    -- The reader has consumed some bytes after those in front of it.
    pub record HasRead (s : Bytes) (r : Reader) : Type 0 where
      pub cursor : r.cursor ≡ length (base ++ s)
      pub partial : r.partial ≡ (cut (decode s)).1
      pub whole : IsWhole s

    save_cursor-HasRead :
        (writable : Bool) (s : Bytes) (r : Reader)
        → HasRead s r
        → HasRead s (save_cursor writable r)
    save_cursor-HasRead true s r h = record {
      cursor = h.cursor;
      partial = h.partial;
      whole = h.whole;
    }
    save_cursor-HasRead false s r h = h

    module _ (s t : Bytes) (r : Reader) (h : HasRead s r) (whole_t : IsWhole t)
        (writable : Bool) where
      abbrev file : Bytes
      file = base ++ (s ++ t)

      regroup : (base ++ s) ++ t ≡ file
      regroup = append_assoc base s t

      longer : length file ≡ r.cursor + length t
      longer = ap length (sym regroup) ∙ omega (arith, h.cursor, length-append (base ++ s) t)

      chunk : r.partial <> decode (drop r.cursor file) ≡ (cut (decode s)).1 <> decode t
      chunk =
          let rest : drop r.cursor file ≡ t =
            ap (λ n. drop n file) h.cursor
            ∙ ap (drop (length (base ++ s))) (sym regroup)
            ∙ drop-append (base ++ s) t in
          ap (λ p. p <> decode (drop r.cursor file)) h.partial
          ∙ ap (λ bs. (cut (decode s)).1 <> decode bs) rest

      decoded : decode (s ++ t) ≡ decode s <> decode t
      decoded = h.whole t

      read_chunk-HasRead : HasRead (s ++ t) (read_chunk json_parse decode writable file r).0
      unfolding cut
      read_chunk-HasRead = save_cursor-HasRead writable (s ++ t) _ (record {
        cursor = refl;
        partial =
            ap (λ x. (cut x).1) chunk
            ∙ sym (ap (λ (p : List String × String). p.1) (cut-append (decode s) (decode t)))
            ∙ ap (λ x. (cut x).1) (sym decoded);
        whole = IsWhole-append s t h.whole whole_t;
      })

      read_chunk-events :
          text_events (decode s) ++ (read_chunk json_parse decode writable file r).1
          ≡ text_events (decode (s ++ t))
      unfolding cut
      read_chunk-events =
          ap (λ (vs : List Value). text_events (decode s) ++ vs)
            (process_lines-events json_parse r.line_number _
              ∙ ap (λ x. events_of json_parse (cut x).0) chunk)
          ∙ sym (text_events-append (decode s) (decode t))
          ∙ ap text_events (sym decoded)

      not_rotated : rotated writable file r ≡ r
      not_rotated =
          let late : ltb (length file) r.cursor ≡ false = ground (arith, longer) in rw late refl

      -- A poll that finds and reads the file.
      pub good_poll :
          HasRead
            (s ++ t)
            (read_new_bytes json_parse decode (poll_with true true writable file) r).0
          × (text_events (decode s)
                ++ (read_new_bytes json_parse decode (poll_with true true writable file) r).1
              ≡ text_events (decode (s ++ t)))
      unfolding read_new_bytes
      good_poll = elim (Bool-cases (leb (length file) r.cursor)) [
        | inl e ↦
            let nothing : s ++ t ≡ s =
              ap (λ bs. s ++ bs) (no_bytes t (ground (arith, longer))) ∙ append-nil s in
            rw (read_new_bytes, not_rotated, e)
              (
                subst (λ bs. HasRead bs r) (sym nothing) h,
                append-nil (text_events (decode s))
                    ∙ ap (λ bs. text_events (decode bs)) (sym nothing),
              )
        | inr e ↦ rw (read_new_bytes, not_rotated, e) (read_chunk-HasRead, read_chunk-events)
      ]

      bad_poll : read_new_bytes json_parse decode (poll_with true false writable file) r ≡ (r, [])
      unfolding read_new_bytes
      bad_poll = rw (read_new_bytes, not_rotated) (ground arith)

    poll-outcome :
        (found readable writable : Bool) (s t : Bytes) (r : Reader)
        → HasRead s r
        → IsWhole t
        → (read_new_bytes json_parse decode (poll_with found readable writable (base ++ (s ++ t))) r
            ≡ (r, []))
          ⊎ (HasRead
                (s ++ t)
                (read_new_bytes json_parse decode
                  (poll_with found readable writable (base ++ (s ++ t)))
                  r).0
              × (text_events (decode s)
                    ++ (read_new_bytes json_parse decode
                        (poll_with found readable writable (base ++ (s ++ t)))
                        r).1
                  ≡ text_events (decode (s ++ t))))
    unfolding read_new_bytes
    poll-outcome false b w s t r h k = inl refl
    poll-outcome true false w s t r h k = inl (bad_poll s t r h k w)
    poll-outcome true true w s t r h k = inr (good_poll s t r h k w)

    -- Of the file, the reader has read a beginning behind `base`, and its events are those of it.
    pub record HasReported (file : Bytes) (known : List Value) (answer : Reader × List Value)
        : Type 0 where
      pub read : Bytes
      pub unread : Bytes
      pub is_file : file ≡ base ++ (read ++ unread)
      pub has_read : HasRead read answer.0
      pub whole : IsWhole unread
      pub reported : known ++ answer.1 ≡ text_events (decode read)

    pub poll-HasReported :
        (found readable writable : Bool) (s t : Bytes) (r : Reader)
        → HasRead s r
        → IsWhole t
        → HasReported (base ++ (s ++ t)) (text_events (decode s)) (
            read_new_bytes json_parse decode
              (poll_with found readable writable (base ++ (s ++ t)))
              r)
    poll-HasReported found readable writable s t r h k =
        elim (poll-outcome found readable writable s t r h k) [
          | inl e ↦
              subst (HasReported (base ++ (s ++ t)) (text_events (decode s))) (sym e) (record {
                read = s;
                unread = t;
                is_file = refl;
                has_read = h;
                whole = k;
                reported = append-nil (text_events (decode s));
              })
          | inr (h', e) ↦ record {
            read = s ++ t;
            unread = [];
            is_file = ap (λ bs. base ++ bs) (sym (append-nil (s ++ t)));
            has_read = h';
            whole = none_unread;
            reported = e;
          }
        ]

    pub follow-HasReported :
        (gs : List Growth) (s t : Bytes) (r : Reader)
        → HasRead s r
        → IsWhole t
        → All (λ g. IsWhole g.added) gs
        → HasReported
            (grown gs (base ++ (s ++ t)))
            (text_events (decode s))
            (follow gs (base ++ (s ++ t)) r)
    unfolding follow
    follow-HasReported [] s t r h k ks = record {
      read = s;
      unread = t;
      is_file = refl;
      has_read = h;
      whole = k;
      reported = append-nil (text_events (decode s));
    }
    follow-HasReported (g ∷ gs) s t r h k (k', ks) =
        let file = base ++ (s ++ (t ++ g.added)) in
        let longer : (base ++ (s ++ t)) ++ g.added ≡ file =
          append_assoc base (s ++ t) g.added ∙ ap (λ bs. base ++ bs) (append_assoc s t g.added) in
        let answer = read_new_bytes json_parse decode (poll_of g file) r in
        let polled =
          poll-HasReported g.found g.readable g.writable s (t ++ g.added) r h
            (IsWhole-append t g.added k k') in
        let later =
          follow-HasReported gs polled.read polled.unread answer.0 polled.has_read polled.whole
            ks in
        let same : base ++ (polled.read ++ polled.unread) ≡ file = sym polled.is_file in
        let later' : HasReported (grown gs file) (text_events (decode polled.read))
            (follow gs file answer.0) =
          subst
            (λ f.
              HasReported (grown gs f) (text_events (decode polled.read)) (follow gs f answer.0))
            same later in
        rw (longer) (record {
          read = later'.read;
          unread = later'.unread;
          is_file = later'.is_file;
          has_read = later'.has_read;
          whole = later'.whole;
          reported =
              sym (append_assoc (text_events (decode s)) answer.1 (follow gs file answer.0).1)
              ∙ ap (λ (vs : List Value). vs ++ (follow gs file answer.0).1) polled.reported
              ∙ later'.reported;
        })
