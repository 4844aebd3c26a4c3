-- ===== src/Transport/Files/Copy.antt =====
-- What the copy of a file writes and captures.
use test.Common.{
  ℕ, zero, suc, ◌-◌, ◌≤◌, ◌<◌, ◌≡◌, refl, sym, ap, ◌∙◌, Bool, true, false, not, Option, none, some,
  List, [], ◌∷◌, ◌++◌, arith, ltb, if◌then◌else◌, length, length-append, take, take_all, is_some,
  ◌&&◌, if_cases, lt→ltb,
}
use test.Blob.{Reader}
use test.Errors.{Error}
use test.Transport.Files.{
  BoundedCapture, capture_write, new_capture, drop, copy_loop, copy_buffer, file_copy_buffer_bytes,
}
use test.Transport.Response
use test.Transport.Response.{Wire, ObservedResponse, DstCall, streaming}
use test.Transport.Writer.{ResponseWriter, observed_writer}

-- The capture of a stream of which `bytes` was written so far, within `size` bytes.
abbrev pub captured : ℕ → List ℕ → BoundedCapture
captured size bytes = record {
  buffer = take size bytes;
  remaining = size - length bytes;
  overflow = ltb size (length bytes);
}

take-append :
    (n m : ℕ) (xs ys : List ℕ) → m ≡ n - length xs → take n (xs ++ ys) ≡ take n xs ++ take m ys
unfolding take
take-append zero m xs ys h = rw (m_zero) refl
  where
    m_zero : m ≡ 0
    m_zero = omega arith
take-append (suc n) m [] ys h = ap (λ k. take k ys) same
  where
    same : suc n ≡ m
    same = omega arith
take-append (suc n) m (x ∷ xs) ys h = ap (◌∷◌ x) (take-append n m xs ys (omega arith))

append-nil : (xs : List ℕ) → xs ++ [] ≡ xs
append-nil [] = refl
append-nil (x ∷ xs) = ap (◌∷◌ x) (append-nil xs)

take-drop : (n : ℕ) (l : List ℕ) → take n l ++ drop n l ≡ l
unfolding take drop
take-drop zero l = refl
take-drop (suc n) [] = refl
take-drop (suc n) (b ∷ l) = ap (◌∷◌ b) (take-drop n l)

append_assoc : (xs ys zs : List ℕ) → (xs ++ ys) ++ zs ≡ xs ++ (ys ++ zs)
append_assoc [] ys zs = refl
append_assoc (x ∷ xs) ys zs = ap (◌∷◌ x) (append_assoc xs ys zs)

length-drop-le : (n : ℕ) (l : List ℕ) → length (drop n l) ≤ length l
unfolding drop
length-drop-le zero l = omega arith
length-drop-le (suc n) [] = omega arith
length-drop-le (suc n) (b ∷ l) = omega (arith, length-drop-le n l)

length-drop-lt : (n b : ℕ) (l : List ℕ) → 0 < n → length (drop n (b ∷ l)) ≤ length l
unfolding drop
length-drop-lt zero b l h = absurd (omega arith)
length-drop-lt (suc n) b l h = length-drop-le n l

capture_eq :
    (buffer buffer' : List ℕ) (remaining remaining' : ℕ) (overflow overflow' : Bool)
    → buffer ≡ buffer'
    → remaining ≡ remaining'
    → overflow ≡ overflow'
    → ◌≡◌ {A = BoundedCapture}
        (record { buffer = buffer; remaining = remaining; overflow = overflow })
        (record { buffer = buffer'; remaining = remaining'; overflow = overflow' })
capture_eq buffer buffer' remaining remaining' overflow overflow' p q r = cc

-- A whole piece that fits, and one of which only the first bytes do.
capture_fits :
    (size : ℕ) (before bytes : List ℕ)
    → length bytes ≤ size - length before
    → take size before ++ bytes ≡ take size (before ++ bytes)
capture_fits size before bytes h = sym (
    take-append size (size - length before) before bytes refl
    ∙ ap (◌++◌ (take size before)) (take_all (size - length before) bytes h))

capture_over :
    (size room : ℕ) (before bytes : List ℕ)
    → room ≡ size - length before
    → (if ltb 0 room then take size before ++ take room bytes else take size before)
      ≡ take size (before ++ bytes)
unfolding take
capture_over size zero before bytes h =
    sym (append-nil (take size before)) ∙ sym (take-append size zero before bytes h)
capture_over size (suc room) before bytes h =
    rw (lt→ltb 0 (suc room) (omega arith)) (sym (take-append size (suc room) before bytes h))

capture_write-captured :
    (size : ℕ) (before bytes : List ℕ)
    → capture_write bytes (captured size before) ≡ captured size (before ++ bytes)
unfolding capture_write
capture_write-captured size before bytes =
    let whole = length-append before bytes in
    if_cases (λ c. c ≡ captured size (before ++ bytes)) (ltb (size - length before) (length bytes))
      _ _
      (λ over.
        capture_eq _ _ _ _ _ _ (capture_over size (size - length before) before bytes refl)
          (ground (arith, whole, over)) (ground (arith, whole, over)))
      (λ fits.
        capture_eq _ _ _ _ _ _ (capture_fits size before bytes (ground (arith, fits)))
          (ground (arith, whole, fits)) (ground (arith, whole, fits)))

ended :
    {b : Bool} (failure : Option Error)
    → b ≡ true
    → (b && (elim failure [ none ↦ true | some _ ↦ false ])) ≡ not (is_some failure)
ended none p = rw p refl
ended (some e) p = rw p refl

start_captured : (size : ℕ) → new_capture size ≡ captured size []
unfolding take
start_captured zero = ground arith
start_captured (suc size) = ground arith

module _ {R : Type 0} (out : ResponseWriter R) (seen : R → List ℕ) (IsOpen : R → Type 0) where
  -- A writer that takes every byte while it is open, and is open again after that; `seen` is what
  -- was written to it.
  pub record IsHealthy : Type 0 where
    pub takes : (bytes : List ℕ) (w : R) → IsOpen w → (out.write bytes w).0 ≡ true
    pub appends : (bytes : List ℕ) (w : R) → IsOpen w → seen (out.write bytes w).1 ≡ seen w ++ bytes
    pub stays : (bytes : List ℕ) (w : R) → IsOpen w → IsOpen (out.write bytes w).1

  -- What the copy leaves of a stream of which `before` was captured: all the rest is written, and
  -- captured within the size.
  pub record IsCopied (size : ℕ) (before rest : List ℕ) (w : R)
      (copied : Bool × (R × BoundedCapture)) : Type 0 where
    pub complete : copied.0 ≡ true
    pub written : seen copied.1.0 ≡ seen w ++ rest
    pub kept : copied.1.1 ≡ captured size (before ++ rest)

  split_again :
      (chunk : ℕ) (before rest : List ℕ)
      → (before ++ take chunk rest) ++ drop chunk rest ≡ before ++ rest
  split_again chunk before rest =
      append_assoc before (take chunk rest) (drop chunk rest)
      ∙ ap (λ l. before ++ l) (take-drop chunk rest)

  copy_round :
      (fuel chunk b : ℕ) (rest : List ℕ) (w : R) (capture : BoundedCapture)
      → (out.write (take chunk (b ∷ rest)) w).0 ≡ true
      → copy_loop out (suc fuel) chunk (b ∷ rest) (w, capture)
        ≡ copy_loop out fuel chunk
            (drop chunk (b ∷ rest))
            ((out.write (take chunk (b ∷ rest)) w).1, capture_write (take chunk (b ∷ rest)) capture)
  unfolding copy_loop
  copy_round fuel chunk b rest w capture p = rw (p, copy_loop)

  copy_loop-IsCopied :
      (fuel chunk size : ℕ) (before rest : List ℕ) (w : R)
      → IsHealthy
      → IsOpen w
      → 0 < chunk
      → length rest ≤ fuel
      → IsCopied size before rest w (copy_loop out fuel chunk rest (w, captured size before))
  unfolding copy_loop
  copy_loop-IsCopied fuel chunk size before [] w health opened positive enough = record {
    complete = refl;
    written = sym (append-nil (seen w));
    kept = ap (captured size) (sym (append-nil before));
  }
  copy_loop-IsCopied zero chunk size before (b ∷ rest) w health opened positive enough =
      absurd (omega arith)
  copy_loop-IsCopied (suc fuel) chunk size before (b ∷ rest) w health opened positive enough =
      let piece = take chunk (b ∷ rest) in
      let after =
        copy_loop-IsCopied fuel chunk size (before ++ piece) (drop chunk (b ∷ rest))
          (out.write piece w).1 health (health.stays piece w opened) positive
          (omega (arith, length-drop-lt chunk b rest positive)) in
      rw
        (
          copy_round fuel chunk b rest w (captured size before) (health.takes piece w opened),
          capture_write-captured size before piece,
        )
        (record {
          complete = after.complete;
          written =
              after.written
              ∙ ap (λ l. l ++ drop chunk (b ∷ rest)) (health.appends piece w opened)
              ∙ split_again chunk (seen w) (b ∷ rest);
          kept = after.kept ∙ ap (captured size) (split_again chunk before (b ∷ rest));
        })

  -- A file that is copied into a writer which is open, and takes every byte while it is, is written
  -- as a whole, whatever its length, before an error of its reader counts; and the capture has its
  -- first bytes up to the declared size and knows whether there were more.
  pub copy_buffer_lem :
      (source : Reader) (size : ℕ) (w : R)
      → IsHealthy
      → IsOpen w
      → ((copy_buffer out source (w, new_capture size)).0 ≡ not (is_some source.failure))
        × (seen (copy_buffer out source (w, new_capture size)).1.0 ≡ seen w ++ source.content)
        × ((copy_buffer out source (w, new_capture size)).1.1 ≡ captured size source.content)
  unfolding copy_buffer
  copy_buffer_lem source size w health opened =
      let start : new_capture size ≡ captured size [] = start_captured size in
      let copied =
        copy_loop-IsCopied (length source.content) file_copy_buffer_bytes size [] source.content w
          health opened (omega arith) (omega arith) in
      rw (start) (ended source.failure copied.complete, copied.written, copied.kept)

-- The bytes of the calls of the server's writer, in their order.
unfoldable pub sent_body : List DstCall → List ℕ
sent_body [] = []
sent_body (DstCall.sent_header status ∷ calls) = sent_body calls
sent_body (DstCall.sent_bytes bytes ∷ calls) = sent_body calls ++ bytes
sent_body (DstCall.flushed ∷ calls) = sent_body calls

-- A response of a request with a body that is streamed, before the deadline.
pub record IsStreamed (w : ObservedResponse) : Type 0 where
  pub state : w.state ≡ streaming
  pub full : w.head ≡ false
  pub early : w.deadline_exceeded ≡ false

-- The observed response is such a writer while it is streamed, if the server's writer takes every
-- byte.
pub observed-IsHealthy :
    (wire : Wire)
    → ((calls : List DstCall) (bytes : List ℕ) → wire.accepted calls bytes ≡ length bytes)
    → IsHealthy (observed_writer wire) (λ w. sent_body w.destination) IsStreamed
unfolding sent_body Response.takes Response.write Response.write_body Response.write_header
    Response.dst_write
observed-IsHealthy wire accepts = record {
  takes = λ bytes w h. ground (
    arith,
    h.state,
    h.full,
    h.early,
    accepts (if w.wrote_header then w else Response.write_header 200 w).destination bytes,
  );
  appends = λ bytes w h. ground (arith, h.state, h.full, h.early);
  stays = λ bytes w h. record {
    state = ground (arith, h.state, h.full, h.early);
    full = ground (arith, h.state, h.full, h.early);
    early = ground (arith, h.state, h.full, h.early);
  };
}
