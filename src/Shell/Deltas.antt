-- ===== src/Shell/Deltas.antt =====
-- What the successive reads of a background job give: `shell_output` with `since_last`.
use openagent_host_tools.Base.{
  ℕ, ◌≤◌, ◌≡◌, refl, ◌∙◌, ap, Bool, true, false, List, [], ◌∷◌, ◌++◌, length, drop, arith,
  length-append, sym, String, ◌<◌, All,
}
use Prim.Native.String.{◌++◌ as text_append}
use openagent_host_tools.Shell.{Stream, read, slice, max_stream_bytes}
use openagent_host_tools.Shell.Output.{append_all, written, Keeps, append_all-Keeps, slice-Keeps}
use openagent_host_tools.Shell.Jobs.{Job, read_job}

-- The reads of a job that writes some chunks before each: all that they give of its two streams.
unfoldable pub reads : List (List (List ℕ × Bool)) → Job → List ℕ × List ℕ
unfolding read_job
reads [] job = ([], [])
reads (chunks ∷ rounds) job =
    let got = read_job true (record job { streams = append_all chunks job.streams }) in
    let rest = reads rounds got.0 in (got.1.0 ++ rest.0, got.1.1 ++ rest.1)

-- What is written to one stream before all the reads.
abbrev pub written_all : Bool → List (List (List ℕ × Bool)) → List ℕ
written_all stderr [] = []
written_all stderr (chunks ∷ rounds) = written stderr chunks ++ written_all stderr rounds

-- No more is written before a read than a buffer holds.
abbrev pub Fits : List (List (List ℕ × Bool)) → Type 0
Fits [] = Unit {0}
Fits (chunks ∷ rounds) =
    (length (written false chunks) ≤ max_stream_bytes)
    × (length (written true chunks) ≤ max_stream_bytes)
    × Fits rounds

drop-length : (xs ys : List ℕ) → drop (length xs) (xs ++ ys) ≡ ys
drop-length [] ys = refl
drop-length (x ∷ xs) ys = drop-length xs ys

-- A reader who has read all before gets all that is new.
slice-new :
    (before new : List ℕ) (s : Stream)
    → Keeps (before ++ new) s
    → length new ≤ max_stream_bytes
    → slice (length before) s ≡ new
slice-new before new s k fits =
    slice-Keeps (length before) (before ++ new) s k
    ∙ ap (λ n. drop n (before ++ new)) (omega (arith, fits, length-append before new))
    ∙ drop-length before new

-- A job whose streams keep what was written, all of which has been read.
pub record IsRead (out err : List ℕ) (job : Job) : Type 0 where
  pub out_kept : Keeps out job.streams.stdout
  pub err_kept : Keeps err job.streams.stderr
  pub out_read : job.stdout_cursor ≡ length out
  pub err_read : job.stderr_cursor ≡ length err

-- One round: what its chunks write is read, and the job is read to its end again.
IsRead-round :
    (chunks : List (List ℕ × Bool)) (out err : List ℕ) (job : Job)
    → IsRead out err job
    → length (written false chunks) ≤ max_stream_bytes
    → length (written true chunks) ≤ max_stream_bytes
    → let got = read_job true (record job { streams = append_all chunks job.streams }) in
      (got.1.0 ≡ written false chunks)
      × (got.1.1 ≡ written true chunks)
      × IsRead (out ++ written false chunks) (err ++ written true chunks) got.0
unfolding read_job read
IsRead-round chunks out err job k fits_out fits_err =
    let kept = append_all-Keeps chunks out err job.streams k.out_kept k.err_kept in
    (
      rw k.out_read (slice-new out (written false chunks) _ kept.0 fits_out),
      rw k.err_read (slice-new err (written true chunks) _ kept.1 fits_err),
      record {
        out_kept = kept.0;
        err_kept = kept.1;
        out_read = kept.0.total;
        err_read = kept.1.total;
      },
    )

-- From a job that has been read to its end, the reads with since_last give together just the bytes
-- that are written to each stream, in order and once, if at most a million bytes are written to a
-- stream before each read.
pub reads-written :
    (rounds : List (List (List ℕ × Bool))) (out err : List ℕ) (job : Job)
    → IsRead out err job
    → Fits rounds
    → reads rounds job ≡ (written_all false rounds, written_all true rounds)
unfolding reads
reads-written [] out err job k f = refl
reads-written (chunks ∷ rounds) out err job k f =
    let (o, e, read_to_end) = IsRead-round chunks out err job k f.0 f.1 in
    let rest = reads-written rounds _ _ _ read_to_end f.2 in
    λ i. (o i ++ (rest i).0, e i ++ (rest i).1)

module _ (decode : List ℕ → String) where
  -- The texts of these reads, each of which is decoded by itself.
  unfoldable pub read_texts : List (List (List ℕ × Bool)) → Job → String × String
  unfolding read_job
  read_texts [] job = ("", "")
  read_texts (chunks ∷ rounds) job =
      let got = read_job true (record job { streams = append_all chunks job.streams }) in
      let rest = read_texts rounds got.0 in
      (text_append (decode got.1.0) rest.0, text_append (decode got.1.1) rest.1)

  -- Only ASCII characters are written.
  abbrev pub ArePlain : List (List (List ℕ × Bool)) → Type 0
  ArePlain [] = Unit {0}
  ArePlain (chunks ∷ rounds) =
      All (λ b. b < 128) (written false chunks)
      × All (λ b. b < 128) (written true chunks)
      × ArePlain rounds

  -- From a job that has been read to its end, the texts that the reads with since_last give make up
  -- the text of all that is written to each stream, in order and once, if at most a million bytes
  -- are written to a stream before each read, and only ASCII characters (each of which decodes by
  -- itself, whatever follows).
  pub read_texts-written :
      decode [] ≡ ""
      → ((xs ys : List ℕ)
          → All (λ b. b < 128) xs
          → decode (xs ++ ys) ≡ text_append (decode xs) (decode ys))
      → (rounds : List (List (List ℕ × Bool))) (out err : List ℕ) (job : Job) → IsRead out err job
      → Fits rounds
      → ArePlain rounds
      → read_texts rounds job
        ≡ (decode (written_all false rounds), decode (written_all true rounds))
  unfolding read_texts
  read_texts-written none_empty plain_apart [] out err job k f p =
      let e = sym none_empty in λ i. (e i, e i)
  read_texts-written none_empty plain_apart (chunks ∷ rounds) out err job k f p =
      let (o, e, read_to_end) = IsRead-round chunks out err job k f.0 f.1 in
      let out_apart = sym (plain_apart (written false chunks) (written_all false rounds) p.0) in
      let err_apart = sym (plain_apart (written true chunks) (written_all true rounds) p.1) in
      let rest = read_texts-written none_empty plain_apart rounds _ _ _ read_to_end f.2 p.2 in
      (λ i. (text_append (decode (o i)) (rest i).0, text_append (decode (e i)) (rest i).1))
      ∙ (λ i. (out_apart i, err_apart i))
