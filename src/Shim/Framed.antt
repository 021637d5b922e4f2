-- ===== src/Shim/Framed.antt =====
-- Lines are read from the socket as they were written, however the bytes are cut into chunks.
use loopstorm_guard.Common.{
  ◌≤◌, ◌≡◌, inl, inr, refl, sym, ap, ◌∙◌, true, false, Option, none, some, List, [], ◌∷◌, ◌++◌,
  arith, Bool-cases, Option-cases, length, length-append, map, ltb, ◌==◌, append_assoc, append-nil,
  All,
}
use mathlib.Core.Option.{some-injective}
use loopstorm_guard.Shim.Guard.{DecisionResponse}
use loopstorm_guard.Shim.Connection.{
  Bytes, max_message_size, chunk, response, split_line, await_line, recv_response, recv_many,
  connect,
}

-- No line feed.
abbrev pub IsLine : Bytes → Type 0
IsLine bs = All (λ b. (b == 0x0a) ≡ false) bs

split_line-line :
    (line rest : Bytes) → IsLine line → split_line (line ++ 0x0a ∷ rest) ≡ some (line, rest)
unfolding split_line
split_line-line [] rest h = refl
split_line-line (b ∷ line) rest (e, h) = rw (split_line, e, split_line-line line rest h) refl

split_line-none : (bs : Bytes) → IsLine bs → split_line bs ≡ none
unfolding split_line
split_line-none [] h = refl
split_line-none (b ∷ bs) (e, h) = rw (split_line, e, split_line-none bs h) refl

none-IsLine : (bs : Bytes) → split_line bs ≡ none → IsLine bs
unfolding split_line
none-IsLine [] h = tt
none-IsLine (b ∷ bs) h = elim (Bool-cases (b == 0x0a)) [
  | inl e ↦ absurd (cc (rw (split_line, e) at h))
  | inr e ↦ elim (Option-cases (split_line bs)) [
    | inl none_yet ↦ (e, none-IsLine bs none_yet)
    | inr (found, is_found) ↦ absurd (cc (rw (split_line, e, is_found) at h))
  ]
]

abbrev pub flat : List Bytes → Bytes
flat [] = []
flat (bs ∷ chunks) = bs ++ flat chunks

-- Every chunk comes while the buffer has no complete line, so that somebody listens to it.
abbrev pub AreHeard : Bytes → List Bytes → Type 0
AreHeard buffer [] = Unit
AreHeard buffer (bs ∷ chunks) = IsLine buffer × AreHeard (buffer ++ bs) chunks

module _ (from_json : Bytes → Option DecisionResponse) where
  module _ (line rest : Bytes) (r : DecisionResponse) (is_line : IsLine line)
      (parsed : from_json line ≡ some r) where
    -- The chunk that completes the line is the last one of the wait.
    last_chunk :
        (chunks : List Bytes) (buffer : Bytes) (found : Bytes × Bytes)
        → AreHeard buffer chunks
        → split_line buffer ≡ some found
        → buffer ++ flat chunks ≡ line ++ 0x0a ∷ rest
        → found ≡ (line, rest)
    last_chunk [] buffer found heard e whole =
        some-injective found (line, rest)
          (sym e
            ∙ ap split_line (sym (append-nil buffer) ∙ whole)
            ∙ split_line-line line rest is_line)
    last_chunk (bs ∷ chunks) buffer found (no_line, heard) e whole =
        absurd (cc (split_line-none buffer no_line, e))

    await_line-framed :
        (chunks : List Bytes) (buffer : Bytes)
        → IsLine buffer
        → AreHeard buffer chunks
        → buffer ++ flat chunks ≡ line ++ 0x0a ∷ rest
        → length (buffer ++ flat chunks) ≤ max_message_size
        → await_line from_json buffer (map chunk chunks) ≡ (rest, response r)
    unfolding await_line
    await_line-framed [] buffer no_line heard whole fits = absurd (
        cc (
          append-nil buffer,
          whole,
          split_line-none buffer no_line,
          split_line-line line rest is_line,
        ))
    await_line-framed (bs ∷ chunks) buffer no_line (_, heard) whole fits =
        let regroup : (buffer ++ bs) ++ flat chunks ≡ buffer ++ flat (bs ∷ chunks) =
          append_assoc buffer bs (flat chunks) in
        let fits' : length ((buffer ++ bs) ++ flat chunks) ≤ max_message_size = rw (regroup) fits in
        let small : ltb max_message_size (length (buffer ++ bs)) ≡ false =
          ground (arith, length-append (buffer ++ bs) (flat chunks)) in
        elim (Option-cases (split_line (buffer ++ bs))) [
          | inl e ↦
              rw (await_line, small, e)
                (await_line-framed chunks (buffer ++ bs) (none-IsLine (buffer ++ bs) e) heard
                  (regroup ∙ whole) fits')
          | inr (found, e) ↦
              let same = last_chunk chunks (buffer ++ bs) found heard e (regroup ∙ whole) in
              let parsed' : from_json found.0 ≡ some r = ap (λ p. from_json p.0) same ∙ parsed in
              rw (await_line, small, e, parsed') (ap (λ p. (p.1, response r)) same)
        ]

    recv_response-framed :
        (chunks : List Bytes) (buffer : Bytes)
        → AreHeard buffer chunks
        → buffer ++ flat chunks ≡ line ++ 0x0a ∷ rest
        → length (buffer ++ flat chunks) ≤ max_message_size
        → recv_response from_json (map chunk chunks) (record { connected = true; buffer = buffer })
          ≡ (record { connected = true; buffer = rest }, response r)
    unfolding recv_response
    recv_response-framed chunks buffer heard whole fits = elim (Option-cases (split_line buffer)) [
      | inl e ↦
          let ended = await_line-framed chunks buffer (none-IsLine buffer e) heard whole fits in
          rw (recv_response, e, ended) refl
      | inr (found, e) ↦
          let same = last_chunk chunks buffer found heard e whole in
          let parsed' : from_json found.0 ≡ some r = ap (λ p. from_json p.0) same ∙ parsed in
          rw (recv_response, e, parsed')
            (ap (λ p. (record { connected = true; buffer = p.1 }, response r)) same)
    ]

  -- In each wait a line of its own is completed: it has no line feed, is the text of its response,
  -- has at most 64 KiB with what follows it, and every chunk of the wait is heard. What follows the
  -- line in the last chunk belongs to the next waits.
  abbrev pub AreAnswers : Bytes → List (Bytes × DecisionResponse) → List (List Bytes) → Type 0
  AreAnswers buffer [] [] = Unit
  AreAnswers buffer [] (chunks ∷ waits) = ⊥
  AreAnswers buffer ((line, r) ∷ lines) [] = ⊥
  AreAnswers buffer ((line, r) ∷ lines) (chunks ∷ waits) =
      IsLine line
      × (from_json line ≡ some r)
      × AreHeard buffer chunks
      × (length (buffer ++ flat chunks) ≤ max_message_size)
      × ((rest : Bytes) × (buffer ++ flat chunks ≡ line ++ 0x0a ∷ rest)
          × AreAnswers rest lines waits)

  recv_many-answers :
      (buffer : Bytes) (lines : List (Bytes × DecisionResponse)) (waits : List (List Bytes))
      → AreAnswers buffer lines waits
      → recv_many from_json (map (map chunk) waits) (record { connected = true; buffer = buffer })
        ≡ map (λ l. response l.1) lines
  unfolding recv_many
  recv_many-answers buffer [] [] h = refl
  recv_many-answers buffer [] (chunks ∷ waits) h = absurd h
  recv_many-answers buffer ((line, r) ∷ lines) [] h = absurd h
  recv_many-answers buffer ((line, r) ∷ lines) (chunks ∷ waits)
        (is_line, parsed, heard, fits, (rest, whole, h)) =
      rw (recv_many, recv_response-framed line rest r is_line parsed chunks buffer heard whole fits)
        (ap (λ rs. response r ∷ rs) (recv_many-answers rest lines waits h))

  -- When in each wait of the client a line of at most 64 KiB is completed, together with what follows
  -- it in its last chunk, and no chunk comes while nobody listens to it, then every wait ends with its
  -- response, in order, however the socket cuts the lines into chunks, also within a chunk of two
  -- lines.
  pub recv_many-framed :
      (lines : List (Bytes × DecisionResponse)) (waits : List (List Bytes))
      → AreAnswers [] lines waits
      → recv_many from_json (map (map chunk) waits) connect ≡ map (λ l. response l.1) lines
  recv_many-framed lines waits h = recv_many-answers [] lines waits h
