-- ===== src/Shell/Output.antt =====
-- What a reader of a stream gets of all that the process wrote.
use openagent_host_tools.Base.{
  ℕ, zero, suc, ◌+◌, ◌-◌, ◌≤◌, ◌<◌, subst, max, ◌≡◌, refl, sym, ◌∙◌, ap, Bool, true, false, List,
  [], ◌∷◌, ◌++◌, length, drop, leb, ltb, arith, if-cases, length-append, length-drop, leb→le,
}
use openagent_host_tools.Shell.{
  Stream, Streams, init, empty_stream, max_stream_bytes, extend, append, slice, read,
}

-- The chunks that a process writes, each to stderr or stdout.
unfoldable pub append_all : List (List ℕ × Bool) → Streams → Streams
append_all [] s = s
append_all ((chunk, is_stderr) ∷ chunks) s = append_all chunks (append chunk is_stderr s)

-- All that it wrote to one of them.
abbrev pub written : Bool → List (List ℕ × Bool) → List ℕ
written stderr [] = []
written true ((chunk, true) ∷ chunks) = chunk ++ written true chunks
written true ((chunk, false) ∷ chunks) = written true chunks
written false ((chunk, true) ∷ chunks) = written false chunks
written false ((chunk, false) ∷ chunks) = chunk ++ written false chunks

module _ {ℓ} {A : Type ℓ} where
  drop-append : (n : ℕ) (xs ys : List A) → n ≤ length xs → drop n (xs ++ ys) ≡ drop n xs ++ ys
  drop-append zero xs ys h = refl
  drop-append (suc n) [] ys h = ground arith
  drop-append (suc n) (x ∷ xs) ys h = drop-append n xs ys (omega (arith, h))

  drop_all : (n : ℕ) (xs : List A) → length xs ≤ n → drop n xs ≡ []
  drop_all zero [] h = refl
  drop_all zero (x ∷ xs) h = ground arith
  drop_all (suc n) [] h = refl
  drop_all (suc n) (x ∷ xs) h = drop_all n xs (omega (arith, h))

  drop-drop : (m n : ℕ) (xs : List A) → drop m (drop n xs) ≡ drop (n + m) xs
  drop-drop m zero xs = ap (λ k. drop k xs) (omega arith)
  drop-drop m (suc n) [] = drop_all m [] (omega arith) ∙ sym (drop_all (suc n + m) [] (omega arith))
  drop-drop m (suc n) (x ∷ xs) =
      drop-drop m n xs ∙ ap (λ k. drop k (x ∷ xs)) {x = suc (n + m)} {y = suc n + m} (omega arith)

  append_assoc : (xs ys zs : List A) → xs ++ ys ++ zs ≡ xs ++ (ys ++ zs)
  append_assoc [] ys zs = refl
  append_assoc (x ∷ xs) ys zs = ap (λ l. x ∷ l) (append_assoc xs ys zs)

append_empty : (xs : List ℕ) → xs ++ [] ≡ xs
append_empty [] = refl
append_empty (x ∷ xs) = ap (λ l. x ∷ l) (append_empty xs)

ltb→lt : (a b : ℕ) → ltb a b ≡ true → a < b
ltb→lt a b h = ground arith

ltb→le : (a b : ℕ) → ltb a b ≡ false → b ≤ a
ltb→le a b h = ground arith

-- The stream keeps the end of `all`, as much as its bound allows.
pub record Keeps (all : List ℕ) (s : Stream) : Type 0 where
  pub buffer : s.buffer ≡ drop s.dropped all
  pub total : s.total ≡ length all
  pub dropped : s.dropped ≡ length all - max_stream_bytes

extend-Keeps :
    (chunk all : List ℕ) (s : Stream) → Keeps all s → Keeps (all ++ chunk) (extend chunk s)
unfolding extend
extend-Keeps chunk all s k =
    let in_all : s.dropped ≤ length all = omega (arith, k.dropped) in
    let kept : s.buffer ++ chunk ≡ drop s.dropped (all ++ chunk) =
      rw k.buffer (sym (drop-append s.dropped all chunk in_all)) in
    let size : length (s.buffer ++ chunk) ≡ length (all ++ chunk) - s.dropped =
      ap length kept ∙ length-drop s.dropped (all ++ chunk) in
    let total : s.total + length chunk ≡ length (all ++ chunk) =
      omega (arith, k.total, length-append all chunk) in
    if-cases (Keeps (all ++ chunk)) (ltb max_stream_bytes (length (s.buffer ++ chunk))) _ _
      (λ big. record {
        buffer =
            ap (drop (length (s.buffer ++ chunk) - max_stream_bytes)) kept
            ∙ drop-drop _ s.dropped (all ++ chunk);
        total = total;
        dropped = omega (
          arith,
          size,
          k.dropped,
          in_all,
          length-append all chunk,
          ltb→lt max_stream_bytes (length (s.buffer ++ chunk)) big,
        );
      })
      (λ small. record {
        buffer = kept;
        total = total;
        dropped = omega (
          arith,
          size,
          k.dropped,
          in_all,
          length-append all chunk,
          ltb→le max_stream_bytes (length (s.buffer ++ chunk)) small,
        );
      })

-- Both streams keep the end of what was written before and after.
pub append_all-Keeps :
    (chunks : List (List ℕ × Bool)) (out err : List ℕ) (s : Streams)
    → Keeps out s.stdout
    → Keeps err s.stderr
    → Keeps (out ++ written false chunks) (append_all chunks s).stdout
      × Keeps (err ++ written true chunks) (append_all chunks s).stderr
unfolding append_all append
append_all-Keeps [] out err s ko ke = (
  subst (λ l. Keeps l s.stdout) (sym (append_empty out)) ko,
  subst (λ l. Keeps l s.stderr) (sym (append_empty err)) ke,
)
append_all-Keeps ((chunk, true) ∷ chunks) out err s ko ke =
    let (o, e) =
      append_all-Keeps chunks out (err ++ chunk) (append chunk true s) ko
        (extend-Keeps chunk err s.stderr ke) in
    (
      o,
      subst (λ l. Keeps l (append_all chunks (append chunk true s)).stderr)
          (append_assoc err chunk (written true chunks)) e,
    )
append_all-Keeps ((chunk, false) ∷ chunks) out err s ko ke =
    let (o, e) =
      append_all-Keeps chunks (out ++ chunk) err (append chunk false s)
        (extend-Keeps chunk out s.stdout ko) ke in
    (
      subst (λ l. Keeps l (append_all chunks (append chunk false s)).stdout)
          (append_assoc out chunk (written false chunks)) o,
      e,
    )

pub slice-Keeps :
    (since : ℕ) (all : List ℕ) (s : Stream)
    → Keeps all s
    → slice since s ≡ drop (max since (length all - max_stream_bytes)) all
unfolding slice
slice-Keeps since all s k =
    if-cases (λ l. l ≡ drop (max since (length all - max_stream_bytes)) all) (leb s.total since) _ _
      (λ over. sym (drop_all _ all (omega (arith, k.total, leb→le s.total since over))))
      (λ under.
        ap (drop (since - s.dropped)) k.buffer
        ∙ drop-drop _ s.dropped all
        ∙ ap (λ n. drop n all) (omega (arith, k.dropped)))

-- After any output in any chunks, a reader of each stream gets what was written to it from its
-- offset on, or from the last million bytes on if the offset lies further back.
pub read-written :
    (chunks : List (List ℕ × Bool)) (since_stdout since_stderr : ℕ)
    → let out = written false chunks in
      let err = written true chunks in
      read since_stdout since_stderr (append_all chunks init) ≡ (
        drop (max since_stdout (length out - max_stream_bytes)) out,
        drop (max since_stderr (length err - max_stream_bytes)) err,
      )
unfolding read
read-written chunks since_stdout since_stderr =
    let new : Keeps [] empty_stream = record { buffer = refl; total = refl; dropped = refl } in
    let (out, err) = append_all-Keeps chunks [] [] init new new in
    λ i. (slice-Keeps since_stdout _ _ out i, slice-Keeps since_stderr _ _ err i)

-- After any output in any chunks, each buffer holds at most a million bytes, and with the bytes
-- that were dropped it makes up what was written.
pub buffers-bounded :
    (chunks : List (List ℕ × Bool))
    → let s = append_all chunks init in
      (length s.stdout.buffer ≤ max_stream_bytes)
      × (length s.stderr.buffer ≤ max_stream_bytes)
      × (s.stdout.dropped + length s.stdout.buffer ≡ length (written false chunks))
      × (s.stderr.dropped + length s.stderr.buffer ≡ length (written true chunks))
buffers-bounded chunks =
    let new : Keeps [] empty_stream = record { buffer = refl; total = refl; dropped = refl } in
    let (out, err) = append_all-Keeps chunks [] [] init new new in
    let (o, o') = bounded _ _ out in let (e, e') = bounded _ _ err in (o, e, o', e')
  where
    bounded :
        (all : List ℕ) (s : Stream)
        → Keeps all s
        → (length s.buffer ≤ max_stream_bytes) × (s.dropped + length s.buffer ≡ length all)
    bounded all s k =
        let size : length s.buffer ≡ length all - s.dropped =
          ap length k.buffer ∙ length-drop s.dropped all in
        (omega (arith, size, k.dropped), omega (arith, size, k.dropped))
