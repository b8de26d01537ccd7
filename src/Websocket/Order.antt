-- ===== src/Websocket/Order.antt =====
-- What the browser sees of a log, and in which order.
use chipatelier.Prelude.{
  ℕ, zero, suc, ◌+◌, ◌-◌, ◌≤◌, arith, length-append, ◌≡◌, ◌∙◌, refl, sym, subst, ap, List, [], ◌∷◌,
  ◌++◌, length, drop, map,
}
use chipatelier.Worker.{log_buffer_max}
use chipatelier.Worker.Store.{LogLine, LogStore}
use chipatelier.Websocket.{
  Stream, Phase, accepted, replayed, subscribed, closed, Event, publish, advance, disconnect,
  log_stream, run_stream, deliver, proceed_from,
}

-- The lines of the first list are lines of the second, in its order.
pub data Sublist : List LogLine → List LogLine → Type 0 where
  nil : Sublist [] []
  skip : (l : LogLine) {xs ys : List LogLine} → Sublist xs ys → Sublist xs (l ∷ ys)
  keep : (l : LogLine) {xs ys : List LogLine} → Sublist xs ys → Sublist (l ∷ xs) (l ∷ ys)

Sublist-skip_last : (l : LogLine) {xs ys : List LogLine} → Sublist xs ys → Sublist xs (ys ++ l ∷ [])
Sublist-skip_last l nil = skip l nil
Sublist-skip_last l (skip k s) = skip k (Sublist-skip_last l s)
Sublist-skip_last l (keep k s) = keep k (Sublist-skip_last l s)

Sublist-keep_last :
    (l : LogLine) {xs ys : List LogLine} → Sublist xs ys → Sublist (xs ++ l ∷ []) (ys ++ l ∷ [])
Sublist-keep_last l nil = keep l nil
Sublist-keep_last l (skip k s) = skip k (Sublist-keep_last l s)
Sublist-keep_last l (keep k s) = keep k (Sublist-keep_last l s)

Sublist-drop : (n : ℕ) {xs ys : List LogLine} → Sublist xs ys → Sublist (drop n xs) ys
Sublist-drop zero s = s
Sublist-drop (suc n) nil = nil
Sublist-drop (suc n) (skip k s) = skip k (Sublist-drop (suc n) s)
Sublist-drop (suc n) (keep k s) = skip k (Sublist-drop n s)

none_of : (ys : List LogLine) → Sublist [] ys
none_of [] = nil
none_of (y ∷ ys) = skip y (none_of ys)

append_nil : (xs : List LogLine) → xs ++ [] ≡ xs
append_nil [] = refl
append_nil (x ∷ xs) = ap (λ ys. x ∷ ys) (append_nil xs)

append_one :
    (xs : List LogLine) (l : LogLine) (ys : List LogLine) → (xs ++ l ∷ []) ++ ys ≡ xs ++ l ∷ ys
append_one [] l ys = refl
append_one (x ∷ xs) l ys = ap (λ zs. x ∷ zs) (append_one xs l ys)

module _ (L : LogStore) where
  abbrev Shown : Stream L → Type 0
  Shown s = Sublist s.outbox s.published × Sublist (L.items s.logbuf) s.published

  -- Before the replay nothing has been sent.
  abbrev pub Blank : Phase → List LogLine → Type 0
  Blank accepted outbox = outbox ≡ []
  Blank _ outbox = Unit {0}

  items-publish :
      (l : LogLine) (b : L.Store)
      → L.items (L.expire (L.ltrim (log_buffer_max L) (L.rpush l b)))
        ≡ drop (length (L.items b ++ l ∷ []) - log_buffer_max L) (L.items b ++ l ∷ [])
  items-publish l b =
      L.items-expire _
      ∙ (L.items-ltrim (log_buffer_max L) (L.rpush l b)
          ∙ ap (λ xs. drop (length xs - log_buffer_max L) xs) (L.items-rpush l b))

  deliver-Sublist :
      (p : Phase) (l : LogLine) {xs ys : List LogLine}
      → Sublist xs ys
      → Sublist (deliver L p l xs) (ys ++ l ∷ [])
  deliver-Sublist accepted l s = Sublist-skip_last l s
  deliver-Sublist replayed l s = Sublist-skip_last l s
  deliver-Sublist subscribed l s = Sublist-keep_last l s
  deliver-Sublist closed l s = Sublist-skip_last l s

  deliver-Blank :
      (p : Phase) (l : LogLine) (xs : List LogLine) → Blank p xs → Blank p (deliver L p l xs)
  deliver-Blank accepted l xs h = h
  deliver-Blank replayed l xs h = tt
  deliver-Blank subscribed l xs h = tt
  deliver-Blank closed l xs h = tt

  proceed-Shown :
      (p : Phase) (s : Stream L)
      → p ≡ s.phase
      → Shown s
      → Blank p s.outbox
      → Shown (proceed_from L p s) × Blank (proceed_from L p s).phase (proceed_from L p s).outbox
  proceed-Shown accepted s e (sent, kept) blank = ((rw blank kept, kept), tt)
  proceed-Shown replayed s e h blank = (h, tt)
  proceed-Shown subscribed s e h blank = (h, subst (λ q. Blank q s.outbox) e blank)
  proceed-Shown closed s e h blank = (h, subst (λ q. Blank q s.outbox) e blank)

  step-Shown :
      (e : Event) (s : Stream L)
      → Shown s
      → Blank s.phase s.outbox
      → Shown (log_stream L e s) × Blank (log_stream L e s).phase (log_stream L e s).outbox
  unfolding log_stream
  step-Shown (publish l) s (sent, kept) blank = (
    (
      deliver-Sublist s.phase l sent,
      subst (λ xs. Sublist xs (s.published ++ l ∷ [])) (sym (items-publish l s.logbuf))
          (Sublist-drop _ (Sublist-keep_last l kept)),
    ),
    deliver-Blank s.phase l s.outbox blank,
  )
  step-Shown advance s h blank = proceed-Shown s.phase s refl h blank
  step-Shown disconnect s h blank = (h, tt)

  run-Shown :
      (es : List Event) (s : Stream L)
      → Shown s
      → Blank s.phase s.outbox
      → Shown (run_stream L es s)
  unfolding run_stream
  run-Shown [] s h blank = h
  run-Shown (e ∷ es) s h blank =
      let (shown, next) = step-Shown e s h blank in run-Shown es (log_stream L e s) shown next

  -- If the buffer holds published lines in their order and nothing has been sent, then whatever the
  -- worker publishes between the steps of the handler, the browser is sent published lines only,
  -- each at most once for each time that it was published, and in their order.
  pub stream_order :
      (es : List Event) (s : Stream L)
      → s.phase ≡ accepted
      → s.outbox ≡ []
      → Sublist (L.items s.logbuf) s.published
      → Sublist (run_stream L es s).outbox (run_stream L es s).published
  stream_order es s start empty kept =
      (run-Shown es s (rw empty (none_of s.published), kept)
        (subst (λ p. Blank p s.outbox) (sym start) empty)).0

  gap_state :
      (gap : List LogLine) (es : List Event) (s : Stream L)
      → s.phase ≡ replayed
      → (t : Stream L) × (run_stream L (map publish gap ++ es) s ≡ run_stream L es t)
        × (t.phase ≡ replayed)
        × (t.outbox ≡ s.outbox)
  unfolding run_stream log_stream
  gap_state [] es s e = (s, refl, e, refl)
  gap_state (l ∷ gap) es s e =
      let (t, same, phase, outbox) = gap_state gap es (log_stream L (publish l) s) e in
      (t, same, phase, outbox ∙ ap (λ p. deliver L p l s.outbox) e)

  later_outbox :
      (later : List LogLine) (s : Stream L)
      → s.phase ≡ subscribed
      → (run_stream L (map publish later) s).outbox ≡ s.outbox ++ later
  unfolding run_stream log_stream
  later_outbox [] s e = sym (append_nil s.outbox)
  later_outbox (l ∷ later) s e =
      later_outbox later (log_stream L (publish l) s) e
      ∙ (ap (λ p. deliver L p l s.outbox ++ later) e ∙ append_one s.outbox l later)

  run_stream-append :
      (es more : List Event) (s : Stream L)
      → run_stream L (es ++ more) s ≡ run_stream L more (run_stream L es s)
  unfolding run_stream
  run_stream-append [] more s = refl
  run_stream-append (e ∷ es) more s = run_stream-append es more (log_stream L e s)

  -- A buffer with room for the lines holds them all.
  publish-buffer :
      (ls : List LogLine) (s : Stream L)
      → length (L.items s.logbuf) + length ls ≤ 5000
      → L.items (run_stream L (map publish ls) s).logbuf ≡ L.items s.logbuf ++ ls
  unfolding run_stream log_stream
  publish-buffer [] s room = sym (append_nil (L.items s.logbuf))
  publish-buffer (l ∷ ls) s room =
      let longer : length (L.items s.logbuf ++ l ∷ []) ≡ length (L.items s.logbuf) + 1 =
        length-append (L.items s.logbuf) (l ∷ []) in
      let none_dropped : length (L.items s.logbuf ++ l ∷ []) - 5000 ≡ 0 = omega (arith, longer) in
      let held : L.items (log_stream L (publish l) s).logbuf ≡ L.items s.logbuf ++ l ∷ [] =
        items-publish l s.logbuf ∙ ap (λ n. drop n (L.items s.logbuf ++ l ∷ [])) none_dropped in
      publish-buffer ls (log_stream L (publish l) s) (omega (arith, longer, ap length held))
      ∙ (ap (λ xs. xs ++ ls) held ∙ append_one (L.items s.logbuf) l ls)

  gap_outbox :
      (b : L.Store) (published gap later : List LogLine)
      → (run_stream L
          (advance ∷ map publish gap ++ advance ∷ map publish later)
          (record { logbuf = b; published = published; phase = accepted; outbox = [] })).outbox
        ≡ L.items b ++ later
  unfolding run_stream log_stream
  gap_outbox b published gap later =
      let s : Stream L = record {
        logbuf = b;
        published = published;
        phase = replayed;
        outbox = L.items b;
      } in
      let (t, same, phase, outbox) = gap_state gap (advance ∷ map publish later) s refl in
      let next : proceed_from L t.phase t ≡ record t { phase = subscribed } =
        ap (λ p. proceed_from L p t) phase in
      ap (λ x. x.outbox) same
      ∙ (ap (λ x. (run_stream L (map publish later) x).outbox) next
          ∙ (later_outbox later (record t { phase = subscribed }) refl
              ∙ ap (λ xs. xs ++ later) outbox))

  advance-buffer : (p : Phase) (s : Stream L) → (proceed_from L p s).logbuf ≡ s.logbuf
  advance-buffer accepted s = refl
  advance-buffer replayed s = refl
  advance-buffer subscribed s = refl
  advance-buffer closed s = refl

  gap_buffer :
      (b : L.Store) (published gap : List LogLine)
      → length (L.items b) + length gap ≤ 5000
      → L.items
          (run_stream L
            (advance ∷ map publish gap ++ advance ∷ [])
            (record { logbuf = b; published = published; phase = accepted; outbox = [] })).logbuf
        ≡ L.items b ++ gap
  unfolding run_stream log_stream
  gap_buffer b published gap room =
      let s : Stream L = record {
        logbuf = b;
        published = published;
        phase = replayed;
        outbox = L.items b;
      } in
      let t : Stream L = run_stream L (map publish gap) s in
      ap (λ x. L.items x.logbuf) (run_stream-append (map publish gap) (advance ∷ []) s)
      ∙ (ap L.items (advance-buffer t.phase t) ∙ publish-buffer gap s room)

  -- If the buffer has room for the lines, then of the lines that are published between the replay and
  -- the subscription none is sent to the browser, which gets the buffer as it was at the replay and
  -- the later lines, while the buffer gets all of them.
  pub gap_lost :
      (b : L.Store) (published gap later : List LogLine)
      → length (L.items b) + length gap ≤ 5000
      → ((run_stream L
            (advance ∷ map publish gap ++ advance ∷ map publish later)
            (record { logbuf = b; published = published; phase = accepted; outbox = [] })).outbox
          ≡ L.items b ++ later)
        × (L.items
              (run_stream L (advance ∷ map publish gap ++ advance ∷ []) (record {
                logbuf = b;
                published = published;
                phase = accepted;
                outbox = [];
              })).logbuf
            ≡ L.items b ++ gap)
  gap_lost b published gap later room =
      (gap_outbox b published gap later, gap_buffer b published gap room)
