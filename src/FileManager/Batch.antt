-- ===== src/FileManager/Batch.antt =====
-- The loop of web/src/pages/FileManager.tsx over a batch of items, one request after the other. The
-- loops of pasteClipboard, dropEntriesOnDirectory and deleteSelectedEntries differ in the request that
-- they make, in the message that stands in for an unknown error, and in the task that they show.
use Prim.Native.String.{String}
use omni_store.Common.{
  ℕ, suc, ◌+◌, Bool, true, false, List, [], ◌∷◌, ◌++◌, map, length, tally, keep, ◌≡◌, refl, sym, ap,
  ◌∙◌, arith, append-nil, append_assoc, reverse, reverse-cons, length-append,
}
use omni_store.Texts.{Text}
use omni_store.FileManager.Defs.{Request, Reply, done, api_error, other_error}

-- The variables of the loop; the failed items and the errors stand in the order of the loop.
pub record Progress (A : Type 0) : Type 0 where
  pub completed : ℕ
  pub failed : ℕ
  pub failed_items : List A
  pub errors : List (Text × String)

module _ {A W : Type 0} (server : Request → W → W × Reply) (request : A → Request) (name : A → Text)
    (fallback : String) where
  abbrev pub count_reply : A → Reply → Progress A → Progress A
  count_reply x done p = record p { completed = p.completed + 1 }
  count_reply x (api_error message) p = record p {
    failed = p.failed + 1;
    failed_items = p.failed_items ++ x ∷ [];
    errors = p.errors ++ (name x, message) ∷ [];
  }
  count_reply x other_error p = record p {
    failed = p.failed + 1;
    failed_items = p.failed_items ++ x ∷ [];
    errors = p.errors ++ (name x, fallback) ∷ [];
  }

  -- The loop: what it counts, and the world and the requests (the latest first) behind it.
  unfoldable pub run_batch : List A → Progress A → W → List Request → Progress A × W × List Request
  run_batch [] p w sent = (p, w, sent)
  run_batch (x ∷ xs) p w sent =
      let (w', reply) = server (request x) w in
      run_batch xs (count_reply x reply p) w' (request x ∷ sent)

module _ {A W : Type 0} (server : Request → W → W × Reply) (request : A → Request) where
  -- The answers that the server gives to the requests in turn, with the items they are about.
  unfoldable pub answers : List A → W → List (A × Reply)
  answers [] w = []
  answers (x ∷ xs) w = let (w', reply) = server (request x) w in (x, reply) ∷ answers xs w'

abbrev pub no_progress : {A : Type 0} → Progress A
no_progress = record { completed = 0; failed = 0; failed_items = []; errors = [] }

earlier :
    (rs : List Request) (r : Request) (old : List Request)
    → reverse rs ++ r ∷ old ≡ reverse (r ∷ rs) ++ old
earlier rs r old =
    sym (ap (λ l. l ++ old) (reverse-cons r rs) ∙ append_assoc (reverse rs) (r ∷ []) old)

abbrev pub is_failure : Reply → Bool
is_failure done = false
is_failure _ = true

abbrev pub answer_fails : {A : Type 0} → A × Reply → Bool
answer_fails (x, r) = is_failure r

abbrev pub first : {A B : Type 0} → A × B → A
first (a, b) = a

-- What a batch comes to, in terms of the answers of the server: every item counts as completed or as
-- failed, the failed items are those whose request failed, in their order, each with one error; and
-- one request was made for each item, in order.
pub record BatchDone (A W : Type 0) (server : Request → W → W × Reply) (request : A → Request)
    (xs : List A) (w : W) (old : List Request) (p : Progress A) (sent : List Request) : Type 0 where
  pub counted : p.completed + p.failed ≡ length xs
  pub failures : p.failed ≡ tally answer_fails (answers server request xs w)
  pub failed_items : p.failed_items ≡ map first (keep answer_fails (answers server request xs w))
  pub errors : length p.errors ≡ p.failed
  pub requested : sent ≡ reverse (map request xs) ++ old

-- What the answers `as` to the requests `rs` add to the progress `p`.
record Adds {A : Type 0} (answered : List (A × Reply)) (rs : List Request) (p q : Progress A)
    (old sent : List Request) : Type 0 where
  counted : q.completed + q.failed ≡ p.completed + p.failed + length answered
  failures : q.failed ≡ p.failed + tally answer_fails answered
  failed_items : q.failed_items ≡ p.failed_items ++ map first (keep answer_fails answered)
  errors : length q.errors + p.failed ≡ q.failed + length p.errors
  requested : sent ≡ reverse rs ++ old

module _ {A W : Type 0} (server : Request → W → W × Reply) (request : A → Request) (name : A → Text)
    (fallback : String) where
  one_more :
      (x : A) (r : Reply) {a : List (A × Reply)} {rs : List Request} {p q : Progress A}
      {old sent : List Request}
      → Adds a rs (count_reply server request name fallback x r p) q (request x ∷ old) sent
      → Adds ((x, r) ∷ a) (request x ∷ rs) p q old sent
  one_more x done {rs} {p} {old} h = record {
    counted = omega (arith, h.counted);
    failures = omega (arith, h.failures);
    failed_items = h.failed_items;
    errors = omega (arith, h.errors);
    requested = h.requested ∙ earlier rs (request x) old;
  }
  one_more x (api_error e) {rs} {p} {old} h = record {
    counted = omega (arith, h.counted);
    failures = omega (arith, h.failures);
    failed_items = h.failed_items ∙ append_assoc p.failed_items (x ∷ []) _;
    errors = omega (arith, h.errors, length-append p.errors ((name x, e) ∷ []));
    requested = h.requested ∙ earlier rs (request x) old;
  }
  one_more x other_error {rs} {p} {old} h = record {
    counted = omega (arith, h.counted);
    failures = omega (arith, h.failures);
    failed_items = h.failed_items ∙ append_assoc p.failed_items (x ∷ []) _;
    errors = omega (arith, h.errors, length-append p.errors ((name x, fallback) ∷ []));
    requested = h.requested ∙ earlier rs (request x) old;
  }

  run_batch-Adds :
      (xs : List A) (p : Progress A) (w : W) (old : List Request)
      → Adds
          (answers server request xs w)
          (map request xs)
          p
          (run_batch server request name fallback xs p w old).0
          old
          (run_batch server request name fallback xs p w old).2
  unfolding run_batch answers
  run_batch-Adds [] p w old = record {
    counted = omega arith;
    failures = omega arith;
    failed_items = sym (append-nil _);
    errors = omega arith;
    requested = refl;
  }
  run_batch-Adds (x ∷ xs) p w old = one_more x (server (request x) w).1 (
      run_batch-Adds xs (count_reply server request name fallback x (server (request x) w).1 p)
        (server (request x) w).0 (request x ∷ old))

  length-answers : (xs : List A) (w : W) → length (answers server request xs w) ≡ length xs
  unfolding answers
  length-answers [] w = refl
  length-answers (x ∷ xs) w = ap suc (length-answers xs (server (request x) w).0)

  -- A batch that starts from nothing.
  pub run_batch-BatchDone :
      (xs : List A) (w : W) (old : List Request)
      → BatchDone A W server request xs w old
          (run_batch server request name fallback xs no_progress w old).0
          (run_batch server request name fallback xs no_progress w old).2
  run_batch-BatchDone xs w old =
      let h = run_batch-Adds xs no_progress w old in
      record {
        counted = omega (arith, h.counted, length-answers xs w);
        failures = omega (arith, h.failures);
        failed_items = h.failed_items;
        errors = omega (arith, h.errors);
        requested = h.requested;
      }
