-- ===== src/Chat/Reads.antt =====
-- Two ways of cutting the bytes of a connection into reads of whole characters.
use mathlib.Core.List.{append-nil, append_assoc}
use cs.Base.{
  ℕ, zero, suc, ◌<◌, ◌≡◌, ◌≢◌, refl, sym, ap, ◌∙◌, ◌⊎◌, inl, inr, Option, none, some, List, [], ◌∷◌,
  ◌++◌, length, arith, Option-cases, Bool-cases, All, map,
}
use cs.Base.Text.{Text, split_once}
use cs.Base.Splitting.{split_once-append, split_once-shorter}
use cs.Chat.Types.{AppState, StateResult}
use cs.Chat.Commands.{Connection, Reply, SocketOperation, close, send, process_line}
use cs.Chat.Sockets.{
  Answers, Environment, at_turn, Session, reading, ended, panicked, serve_lines, serve_text, Read,
  bytes, Utf8, on_read, on_reads, process_socket,
}

-- What a line does.
abbrev Ends : Option (Connection × SocketOperation) → Type 0
Ends h = (h ≡ none) ⊎ ((k : Connection) × (h ≡ some (k, close)))

abbrev Sends : Option (Connection × SocketOperation) → Type 0
Sends h = (k : Connection) × (answer : StateResult Reply) × (h ≡ some (k, send answer))

line-cases :
    (h : Option (Connection × SocketOperation))
    → (h ≡ none) ⊎ (((k : Connection) × (h ≡ some (k, close))) ⊎ Sends h)
line-cases none = inl refl
line-cases (some (k, close)) = inr (inl (k, refl))
line-cases (some (k, send answer)) = inr (inr (k, answer, refl))

module _ (e : Environment) where
  open e use {can_write}

  -- More rounds than there are characters change nothing.
  serve_lines_enough :
      (f g : ℕ) (k : Connection) (text : Text) (written : Answers)
      → length text < f
      → length text < g
      → serve_lines e f k text written ≡ serve_lines e g k text written
  unfolding serve_lines
  serve_lines_enough zero g k text written hf hg = ground arith
  serve_lines_enough (suc f) zero k text written hf hg = ground arith
  serve_lines_enough (suc f) (suc g) k text written hf hg =
      elim (Option-cases (split_once b'\n' text)) [
        | inl s ↦ rw (s, serve_lines) refl
        | inr ((line, rest), s) ↦ elim (line-cases (process_line (at_turn e k written) line)) [
          | inl p ↦ rw (s, serve_lines) (rw p refl)
          | inr (inl (k', p)) ↦ rw (s, serve_lines) (rw p refl)
          | inr (inr (k', answer, p)) ↦
              let shorter = split_once-shorter b'\n' text line rest s in
              let served =
                serve_lines_enough f g k' rest (answer ∷ written) (omega arith) (omega arith) in
              elim (Bool-cases (can_write (length written))) [
                | inl w ↦ rw (s, serve_lines) (rw (p, w) served)
                | inr w ↦ rw (s, serve_lines) (rw (p, w) refl)
              ]
        ]
      ]

  -- A session that reads some text more.
  unfoldable receive : Session → Text → Session
  receive (reading k cur_line written) text = serve_text e k (cur_line ++ text) written
  receive (ended k written) text = ended k written
  receive (panicked k written) text = panicked k written

  receive-serve_lines :
      (f : ℕ) (k : Connection) (text more : Text) (written : Answers)
      → length text < f
      → receive (serve_lines e f k text written) more ≡ serve_text e k (text ++ more) written
  unfolding serve_lines receive serve_text
  receive-serve_lines zero k text more written h = ground arith
  receive-serve_lines (suc f) k text more written h = elim (Option-cases (split_once b'\n' text)) [
    | inl s ↦ rw (s, serve_lines, receive) refl
    | inr ((line, rest), s) ↦
        let s' = split_once-append b'\n' text more line rest s in
        elim (line-cases (process_line (at_turn e k written) line)) [
          | inl p ↦ rw (s, s', serve_lines) (rw p refl)
          | inr (inl (k', p)) ↦ rw (s, s', serve_lines) (rw p refl)
          | inr (inr (k', answer, p)) ↦
              let shorter = split_once-shorter b'\n' text line rest s in
              let shorter' = split_once-shorter b'\n' (text ++ more) line (rest ++ more) s' in
              let served =
                receive-serve_lines f k' rest more (answer ∷ written) (omega arith)
                ∙ serve_lines_enough (suc (length (rest ++ more))) (length (text ++ more)) k'
                    (rest ++ more) (answer ∷ written) (omega arith) (omega arith) in
              elim (Bool-cases (can_write (length written))) [
                | inl w ↦ rw (s, s', serve_lines) (rw (p, w) served)
                | inr w ↦ rw (s, s', serve_lines) (rw (p, w) refl)
              ]
        ]
  ]

  receive-receive :
      (s : Session) (text more : Text) → receive (receive s text) more ≡ receive s (text ++ more)
  unfolding receive serve_text
  receive-receive (reading k cur_line written) text more =
      receive-serve_lines (suc (length (cur_line ++ text))) k (cur_line ++ text) more written
        (omega arith)
      ∙ ap (λ t. serve_text e k t written) (append_assoc cur_line text more)
  receive-receive (ended k written) text more = refl
  receive-receive (panicked k written) text more = refl

abbrev pub all_bytes : List (List ℕ) → List ℕ
all_bytes [] = []
all_bytes (bs ∷ bss) = bs ++ all_bytes bss

module _ (u : Utf8) where
  open u use {from_utf8}

  -- The bytes of one read: some, and whole characters.
  abbrev pub IsWhole : List ℕ → Type 0
  IsWhole bs = (bs ≢ []) × ((t : Text) × (from_utf8 bs ≡ some t))

module _ (u : Utf8) (e : Environment) where
  open u use {from_utf8, from_utf8-append, from_utf8-empty}

  on_read_lem :
      (s : Session) (bs : List ℕ) (t : Text)
      → bs ≢ []
      → from_utf8 bs ≡ some t
      → on_read u e s (bytes bs) ≡ receive e s t
  unfolding on_read receive
  on_read_lem s [] t some_bytes d = elim (some_bytes refl) [ ]
  on_read_lem (reading k cur_line written) (b ∷ bs) t some_bytes d = rw (d, on_read) refl
  on_read_lem (ended k written) (b ∷ bs) t some_bytes d = refl
  on_read_lem (panicked k written) (b ∷ bs) t some_bytes d = refl

  on_reads_lem :
      (bss : List (List ℕ)) (rest : List Read)
      → All (IsWhole u) bss
      → (t : Text) × (from_utf8 (all_bytes bss) ≡ some t)
        × ((s : Session) (before : Text)
            → on_reads u e (receive e s before) (map bytes bss ++ rest)
              ≡ on_reads u e (receive e s (before ++ t)) rest)
  unfolding on_reads
  on_reads_lem [] rest h = (
    [],
    from_utf8-empty,
    λ s before. ap (λ b. on_reads u e (receive e s b) rest) (sym (append-nil before)),
  )
  on_reads_lem (bs ∷ bss) rest h =
      let (t, d) = h.0.1 in
      let (t', d', follows) = on_reads_lem bss rest h.1 in
      (
        t ++ t',
        from_utf8-append bs (all_bytes bss) t t' d d',
        λ s before.
            ap (λ s'. on_reads u e s' (map bytes bss ++ rest))
              (on_read_lem (receive e s before) bs t h.0.0 d ∙ receive-receive e s before t)
            ∙ follows s (before ++ t)
            ∙ ap (λ b. on_reads u e (receive e s b) rest) (append_assoc before t t'),
      )

  -- Two ways of cutting the same bytes into reads, none of them empty and each of whole
  -- characters, lead to the same answers and the same end, whatever the socket does afterwards,
  -- whichever writes fail, and whatever the other clients do to the shared state in between, where
  -- both depend on the number of answers written so far and not on the reads.
  pub process_socket_same :
      (shared : AppState) (bss css : List (List ℕ)) (rest : List Read)
      → All (IsWhole u) bss
      → All (IsWhole u) css
      → all_bytes bss ≡ all_bytes css
      → process_socket u e shared (map bytes bss ++ rest)
        ≡ process_socket u e shared (map bytes css ++ rest)
  unfolding process_socket receive serve_text serve_lines split_once
  process_socket_same shared bss css rest hb hc same =
      let (t, d, follows) = on_reads_lem bss rest hb in
      let (t', d', follows') = on_reads_lem css rest hc in
      let start : Session = reading (record { shared = shared; user = none }) [] [] in
      let text : t ≡ t' = some_injective (sym d ∙ ap from_utf8 same ∙ d') in
      follows start []
      ∙ ap (λ b. on_reads u e (receive e start b) rest) text
      ∙ sym (follows' start [])
    where
      some_injective : {t t' : Text} → some t ≡ some t' → t ≡ t'
      some_injective h = cc
