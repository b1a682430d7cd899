-- ===== src/Preview/Screens.antt =====
-- The previews of web/src/preview/PreviewContent.tsx that use object URLs keep at most one, and show what was loaded
-- for their URL.
use mathlib.Core.Path.{subst}
use omni_store.Common.{
  ℕ, zero, suc, true, false, not, ◌||◌, Option, none, some, List, [], ◌∷◌, get_elem?, modify_at,
  if_ind, if_split, All, ◌≡◌, refl, sym, ap, ◌∙◌, arith,
}
use omni_store.Texts.{Text, text_eq}
use omni_store.Preview.Content.{Response}
use omni_store.Preview.Blobs.{
  Blob, LoadFailure, BlobResult, loaded, failed, fetch_blob, BlobView, typed, cap_of, Run,
  BlobPreview, revoke, cleanup, run_effect, outcome, settle_run, hold, show_outcome, settle_effect,
  PreviewEvent, show, retry, close, settles, with_url, preview_step, blank_preview, mount_preview,
  preview_steps,
}

abbrev pub Aborted : Run → Type 0
Aborted run = run.aborted ≡ true

-- What is to come of a run that is not aborted.
abbrev pub result_of : BlobView → Run → BlobResult
result_of v run = typed v (fetch_blob (cap_of v) run.response)

-- What the newest run and the component show, and the object URLs that are left: while the run goes on none, and
-- nothing on the screen; then the one of the blob that was loaded, which is on the screen; or the failure.
pub data Shown (v : BlobView) (run : Run) (s : BlobPreview) : Type 0 where
  loading :
      run.settled ≡ false
      → run.revoked ≡ none
      → s.object_urls ≡ []
      → s.blob_url ≡ none
      → s.error ≡ none
      → Shown v run s
  holding :
      (k : ℕ) (b : Blob)
      → result_of v run ≡ loaded b
      → run.settled ≡ true
      → run.revoked ≡ some k
      → s.object_urls ≡ (k, b) ∷ []
      → s.blob_url ≡ some k
      → s.error ≡ none
      → Shown v run s
  refused :
      (f : LoadFailure)
      → result_of v run ≡ failed f
      → run.settled ≡ true
      → run.revoked ≡ none
      → s.object_urls ≡ []
      → s.blob_url ≡ none
      → s.error ≡ some f
      → Shown v run s

-- On the page, the newest run is for the URL of the component and the others are aborted; off the page, all are,
-- and no object URL is left.
pub data PreviewOk (v : BlobView) (s : BlobPreview) : Type 0 where
  on_page :
      (run : Run) (rest : List Run)
      → s.mounted ≡ true
      → s.runs ≡ run ∷ rest
      → All Aborted rest
      → run.aborted ≡ false
      → run.url ≡ s.url
      → Shown v run s
      → PreviewOk v s
  off_page : s.mounted ≡ false → All Aborted s.runs → s.object_urls ≡ [] → PreviewOk v s

-- The state between a cleanup and what follows it.
pub record Cleaned (s : BlobPreview) : Type 0 where
  pub aborted : All Aborted s.runs
  pub object_urls : s.object_urls ≡ []

revoke-own : (k : ℕ) (b : Blob) → revoke (some k) ((k, b) ∷ []) ≡ []
revoke-own k b = ground arith

revoke-Shown :
    (v : BlobView) (run : Run) (s : BlobPreview)
    → Shown v run s
    → revoke run.revoked s.object_urls ≡ []
revoke-Shown v run s (loading d r u b e) = rw (r, u) refl
revoke-Shown v run s (holding k b q d r u w e) = rw (r, u) (revoke-own k b)
revoke-Shown v run s (refused f q d r u b e) = rw (r, u) refl

cleanup-Cleaned :
    (v : BlobView) (s : BlobPreview) → s.mounted ≡ true → PreviewOk v s → Cleaned (cleanup s.runs s)
unfolding cleanup
cleanup-Cleaned v s m (on_page run rest n rs a l u sh) =
    rw rs (record { aborted = (refl, a); object_urls = revoke-Shown v run s sh })
cleanup-Cleaned v s m (off_page n a u) = ground (arith, m, n)

run_effect-PreviewOk :
    (v : BlobView) (r : Option Response) (s : BlobPreview)
    → s.mounted ≡ true
    → Cleaned s
    → PreviewOk v (run_effect r s)
unfolding run_effect
run_effect-PreviewOk v r s m c =
    on_page (record { url = s.url; response = r; revoked = none; aborted = false; settled = false })
      s.runs m refl c.aborted refl refl (loading refl refl c.object_urls refl refl)

-- The runs of a cleaned up component do not change what it shows.
modify_at-Aborted :
    (f : Run → Run) (k : ℕ) (runs : List Run)
    → ((run : Run) → Aborted run → Aborted (f run))
    → All Aborted runs
    → All Aborted (modify_at f k runs)
modify_at-Aborted f k [] h a = tt
modify_at-Aborted f zero (run ∷ runs) h a = (h run a.0, a.1)
modify_at-Aborted f (suc k) (run ∷ runs) h a = (a.0, modify_at-Aborted f k runs h a.1)

get_elem-Aborted :
    (k : ℕ) (runs : List Run) (run : Run)
    → All Aborted runs
    → get_elem? runs k ≡ some run
    → Aborted run
get_elem-Aborted k [] run a g = cc
get_elem-Aborted zero (r ∷ runs) run a g = ground (arith, a.0, g)
get_elem-Aborted (suc k) (r ∷ runs) run a g = get_elem-Aborted k runs run a.1 g

-- The promise of the newest run, which is not aborted, gives its result.
show_outcome-first :
    (v : BlobView) (s : BlobPreview) (run : Run) (rest : List Run) (res : BlobResult)
    → result_of v run ≡ res
    → s.mounted ≡ true
    → s.runs ≡ run ∷ rest
    → All Aborted rest
    → run.aborted ≡ false
    → run.url ≡ s.url
    → run.revoked ≡ none
    → s.object_urls ≡ []
    → s.blob_url ≡ none
    → s.error ≡ none
    → PreviewOk v (show_outcome 0 run res s)
unfolding show_outcome
show_outcome-first v s run rest (loaded b) q m rs a l u r o w e =
    on_page (hold s.next_url run) rest m (ap (λ x. modify_at (hold s.next_url) 0 x) rs) a l u
      (holding s.next_url b q refl refl (ap (λ x. (s.next_url, b) ∷ x) o) refl e)
show_outcome-first v s run rest (failed f) q m rs a l u r o w e =
    if_split (λ (t : BlobPreview). PreviewOk v t) run.aborted (λ y. ground (arith, l, y))
      (λ y.
        on_page (settle_run run) rest m (ap (λ x. modify_at settle_run 0 x) rs) a l u
          (refused f q refl r o w refl))

settle-first :
    (v : BlobView) (s : BlobPreview) (run : Run) (rest : List Run)
    → s.mounted ≡ true
    → s.runs ≡ run ∷ rest
    → All Aborted rest
    → run.aborted ≡ false
    → run.url ≡ s.url
    → Shown v run s
    → PreviewOk v (settle_effect v 0 (some run) s)
unfolding settle_effect outcome
settle-first v s run rest m rs a l u (loading d r o w e) =
    if_split (λ (t : BlobPreview). PreviewOk v t) run.settled (λ y. ground (arith, d, y))
      (λ y.
        if_split (λ (x : BlobResult). PreviewOk v (show_outcome 0 run x s)) run.aborted
          (λ z. ground (arith, l, z))
          (λ z. show_outcome-first v s run rest (result_of v run) refl m rs a l u r o w e))
settle-first v s run rest m rs a l u (holding k b q d r o w e) =
    if_split (λ (t : BlobPreview). PreviewOk v t) run.settled
      (λ y. on_page run rest m rs a l u (holding k b q d r o w e)) (λ y. ground (arith, d, y))
settle-first v s run rest m rs a l u (refused f q d r o w e) =
    if_split (λ (t : BlobPreview). PreviewOk v t) run.settled
      (λ y. on_page run rest m rs a l u (refused f q d r o w e)) (λ y. ground (arith, d, y))

-- An aborted run changes nothing but itself.
settle-old_run :
    (v : BlobView) (k : ℕ) (run : Run) (s : BlobPreview)
    → Aborted run
    → PreviewOk v s
    → PreviewOk v (record s { runs = modify_at settle_run k s.runs })
    → PreviewOk v (settle_effect v k (some run) s)
unfolding settle_effect outcome show_outcome
settle-old_run v k run s a h after = if_ind (PreviewOk v) run.settled h (
    if_split (λ (x : BlobResult). PreviewOk v (show_outcome k run x s)) run.aborted
      (λ z.
        if_split (λ (t : BlobPreview). PreviewOk v t) run.aborted (λ y. after)
          (λ y. ground (arith, a, y)))
      (λ z. ground (arith, a, z)))

-- The same component with other old runs.
other_runs-Shown :
    (v : BlobView) (run : Run) (s : BlobPreview) (runs : List Run)
    → Shown v run s
    → Shown v run (record s { runs = runs })
other_runs-Shown v run s runs (loading d r o w e) = loading d r o w e
other_runs-Shown v run s runs (holding k b q d r o w e) = holding k b q d r o w e
other_runs-Shown v run s runs (refused f q d r o w e) = refused f q d r o w e

settle-later :
    (v : BlobView) (s : BlobPreview) (k : ℕ) (old : Option Run) (run : Run) (rest : List Run)
    → s.mounted ≡ true
    → s.runs ≡ run ∷ rest
    → All Aborted rest
    → run.aborted ≡ false
    → run.url ≡ s.url
    → Shown v run s
    → get_elem? rest k ≡ old
    → PreviewOk v (settle_effect v (suc k) old s)
unfolding settle_effect
settle-later v s k none run rest m rs a l u sh g = on_page run rest m rs a l u sh
settle-later v s k (some old) run rest m rs a l u sh g =
    settle-old_run v (suc k) old s (get_elem-Aborted k rest old a g)
      (on_page run rest m rs a l u sh)
      (on_page run (modify_at settle_run k rest) m (ap (λ x. modify_at settle_run (suc k) x) rs)
        (modify_at-Aborted settle_run k rest (λ w e. e) a) l u
        (other_runs-Shown v run s (modify_at settle_run (suc k) s.runs) sh))

settle-off_page :
    (v : BlobView) (s : BlobPreview) (k : ℕ) (old : Option Run)
    → s.mounted ≡ false
    → All Aborted s.runs
    → s.object_urls ≡ []
    → get_elem? s.runs k ≡ old
    → PreviewOk v (settle_effect v k old s)
unfolding settle_effect
settle-off_page v s k none m a o g = off_page m a o
settle-off_page v s k (some old) m a o g =
    settle-old_run v k old s (get_elem-Aborted k s.runs old a g) (off_page m a o)
      (off_page m (modify_at-Aborted settle_run k s.runs (λ w e. e) a) o)

settle-PreviewOk :
    (v : BlobView) (s : BlobPreview) (k : ℕ)
    → PreviewOk v s
    → PreviewOk v (settle_effect v k (get_elem? s.runs k) s)
settle-PreviewOk v s zero (on_page run rest m rs a l u sh) =
    subst (λ o. PreviewOk v (settle_effect v 0 o s)) (ap (λ x. get_elem? x 0) (sym rs))
      (settle-first v s run rest m rs a l u sh)
settle-PreviewOk v s (suc k) (on_page run rest m rs a l u sh) =
    settle-later v s k (get_elem? s.runs (suc k)) run rest m rs a l u sh
      (ap (λ x. get_elem? x (suc k)) (sym rs))
settle-PreviewOk v s k (off_page m a o) = settle-off_page v s k (get_elem? s.runs k) m a o refl

cleanup-mounted : (runs : List Run) (s : BlobPreview) → (cleanup runs s).mounted ≡ s.mounted
unfolding cleanup
cleanup-mounted [] s = refl
cleanup-mounted (run ∷ rest) s = refl

again-PreviewOk :
    (v : BlobView) (url : Text) (r : Option Response) (s : BlobPreview)
    → s.mounted ≡ true
    → PreviewOk v s
    → PreviewOk v (run_effect r (with_url url (cleanup s.runs s)))
again-PreviewOk v url r s m h =
    let c = cleanup-Cleaned v s m h in
    run_effect-PreviewOk v r (with_url url (cleanup s.runs s)) (cleanup-mounted s.runs s ∙ m)
      (record { aborted = c.aborted; object_urls = c.object_urls })

preview_step-PreviewOk :
    (v : BlobView) (e : PreviewEvent) (s : BlobPreview)
    → PreviewOk v s
    → PreviewOk v (preview_step v e s)
unfolding preview_step
preview_step-PreviewOk v (show url r) s h =
    if_split (λ (t : BlobPreview). PreviewOk v t) (text_eq url s.url || not s.mounted) (λ y. h)
      (λ n. again-PreviewOk v url r s (ground (arith, n)) h)
preview_step-PreviewOk v (retry r) s h =
    if_split (λ (t : BlobPreview). PreviewOk v t) s.mounted
      (λ m.
        elim s.error
          as (λ x. PreviewOk v (elim x [ none ↦ s | some f ↦ run_effect r (cleanup s.runs s) ])) [
            | none ↦ h
            | some f ↦
                run_effect-PreviewOk v r (cleanup s.runs s) (cleanup-mounted s.runs s ∙ m)
                  (cleanup-Cleaned v s m h)
          ])
      (λ n. h)
preview_step-PreviewOk v close s h =
    if_split (λ (t : BlobPreview). PreviewOk v t) s.mounted
      (λ m. let c = cleanup-Cleaned v s m h in off_page refl c.aborted c.object_urls) (λ n. h)
preview_step-PreviewOk v (settles k) s h = settle-PreviewOk v s k h

preview_steps-PreviewOk :
    (v : BlobView) (es : List PreviewEvent) (s : BlobPreview)
    → PreviewOk v s
    → PreviewOk v (preview_steps v es s)
preview_steps-PreviewOk v [] s h = h
preview_steps-PreviewOk v (e ∷ es) s h =
    preview_steps-PreviewOk v es (preview_step v e s) (preview_step-PreviewOk v e s h)

-- After any events a preview of an SVG image or of a PDF that is still on the page has made one request for the
-- URL that it is for now, and has aborted all the others; while it waits for that, it holds no object URL and
-- shows neither one nor an error; when that is answered, it holds one object URL, which it shows, of the blob that
-- was loaded, or it holds none and shows the failure. After it has left the page no object URL is left
-- and every request is aborted.
pub mounted-PreviewOk :
    (v : BlobView) (url : Text) (r : Option Response) (es : List PreviewEvent)
    → PreviewOk v (preview_steps v es (mount_preview url r))
unfolding mount_preview
mounted-PreviewOk v url r es = preview_steps-PreviewOk v es (mount_preview url r) (
    run_effect-PreviewOk v r (blank_preview url) refl (record { aborted = tt; object_urls = refl }))
