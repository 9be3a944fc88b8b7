-- ===== src/Executor/Poll/Chunks.antt =====
-- internal/executor/async_runs.go, `pollAsyncRun`: the offsets of a run that is polled.
use mathlib.Core.List.{append-nil, append_assoc, map-append}
use mathlib.Core.Bool.{false≢true}
use croncontrol.Prelude.{
  not, ◌||◌, eqb_ℤ, length-append, sym, ap, ◌∙◌, any, same, List, ◌++◌, map, length, ◌<◌, ◌≤◌,
  unless_lem, ◌≡◌, refl, ◌⊎◌, inl, inr, ℤ, Bool, true, false, some, [], ◌∷◌, String, if◌then◌else◌,
  ◌&&◌, Bool-cases, arith, subst,
}
use croncontrol.Store.{
  RunOutput, Store, Bytes, Stream, Run, append_run_output, update_run_offsets, find_run, update_run,
}
use croncontrol.Store.Laws.{Row, find_run-update_run}
use croncontrol.World.{World, Env, ◌>>◌, done, send, exec, fresh, tick}
use croncontrol.World.Hoare.{Keeps, IsReliable, exec-cases, exec_reliable}
use croncontrol.Executor.Method.{PollResult}
use croncontrol.Executor.Terminal.{attempt_exec}
use croncontrol.Executor.Finalize.Frame.{other_table-Keeps}
use croncontrol.Executor.Poll.{AsyncRunPollRow, next_offset, append_chunk, store_chunks}

-- The row with both offsets moved.
abbrev pub moved : ℤ → ℤ → Run → Run
moved stdout_offset stderr_offset r = record r {
  stdout_offset = stdout_offset;
  stderr_offset = stderr_offset;
}

module _ (env : Env) (id : String) (r : Run) where
  append_chunk-Keeps :
      (stream : Stream) (text : Bytes) → Keeps (Row id r) (append_chunk env id stream text)
  unfolding append_chunk fresh send append_run_output find_run
  append_chunk-Keeps stream [] w p = p
  append_chunk-Keeps stream (c ∷ cs) w p =
      let f = append_run_output (env.new_id w.step "out_") id stream (c ∷ cs) in
      let kept = other_table-Keeps env id r f (λ s s' e. ground arith) (tick w) p in
      elim (Bool-cases ((exec env f (tick w)).0 && env.has_log_backend)) [
        | inl e ↦ rw (e, append_chunk) kept
        | inr e ↦ rw (e, append_chunk) kept
      ]

-- A piece of output: whose, of which stream, and the text.
abbrev pub Piece : Type 0
Piece = String × Stream × Bytes

abbrev pub piece : RunOutput → Piece
piece o = (o.run_id, o.stream, o.content)

abbrev pub pieces_of : String → Stream → Bytes → List Piece
pieces_of id stream [] = []
pieces_of id stream (c ∷ cs) = (id, stream, c ∷ cs) ∷ []

-- The pieces of a poll.
abbrev pub pieces : String → PollResult → List Piece
pieces id p =
    pieces_of id Stream.stdout p.stdout_chunk
    ++ pieces_of id Stream.stderr p.stderr_chunk
    ++ pieces_of id Stream.stdout p.response_body_chunk

-- What a chunk adds to the output: all of it, or, with the answer that it failed, less.
abbrev Adds : List Piece → Store → Bool × World → Type 0
Adds expected s (ok, w) =
    (new : List RunOutput) × (w.store.run_output ≡ s.run_output ++ new)
    × (ok ≡ true → map piece new ≡ expected)
    × (ok ≡ false → length new < length expected)
    × (length new ≤ length expected)

module _ (env : Env) (id : String) where
  append_chunk-Adds :
      (stream : Stream) (text : Bytes) (w : World)
      → Adds (pieces_of id stream text) w.store (append_chunk env id stream text w)
  unfolding append_chunk fresh send append_run_output
  append_chunk-Adds stream [] w =
      ([], sym (append-nil w.store.run_output), λ e. refl, λ e. cc, omega arith)
  append_chunk-Adds stream (c ∷ cs) w =
      let new_id = env.new_id w.step "out_" in
      elim (exec-cases env (append_run_output new_id id stream (c ∷ cs)) (tick w)) [
        | inl e ↦
            rw (e, append_chunk)
              ([], sym (append-nil w.store.run_output), λ x. cc, λ x. omega arith, omega arith)
        | inr (s, q, e) ↦
            let row : RunOutput = record {
              id = new_id;
              run_id = id;
              stream = stream;
              content = c ∷ cs;
            } in
            let stored : s.run_output ≡ w.store.run_output ++ row ∷ [] =
              ap (λ x. x.run_output)
                (sym (unless_lem (any (λ o. same o.id new_id) w.store.run_output) _ _ q).1) in
            rw (e, append_chunk)
              (elim (Bool-cases env.has_log_backend) [
                | inl l ↦ rw l (row ∷ [], stored, λ x. refl, λ x. cc, omega arith)
                | inr l ↦ rw l (row ∷ [], stored, λ x. refl, λ x. cc, omega arith)
              ])
      ]

both_true : (a b : Bool) → a && b ≡ true → (a ≡ true) × (b ≡ true)
both_true a b e = (ground (arith, e), ground (arith, e))

one_false : (a b : Bool) → a && b ≡ false → (a ≡ false) ⊎ (b ≡ false)
one_false true b e = inr e
one_false false b e = inl refl

-- One chunk after another.
Adds-then :
    (e1 e2 : List Piece) (s : Store) (a b : Bool) (w1 w2 : World)
    → Adds e1 s (a, w1)
    → Adds e2 w1.store (b, w2)
    → Adds (e1 ++ e2) s (a && b, w2)
Adds-then e1 e2 s a b w1 w2 (n1, q1, t1, f1, l1) (n2, q2, t2, f2, l2) = (
  n1 ++ n2,
  q2 ∙ ap (λ x. x ++ n2) q1 ∙ append_assoc s.run_output n1 n2,
  λ e.
      let (ea, eb) = both_true a b e in
      map-append piece n1 n2 ∙ ap (λ x. x ++ map piece n2) (t1 ea) ∙ ap (λ x. e1 ++ x) (t2 eb),
  λ e. elim (one_false a b e) [
    | inl ea ↦ omega (arith, f1 ea, l2, length-append n1 n2, length-append e1 e2)
    | inr eb ↦ omega (arith, f2 eb, l1, length-append n1 n2, length-append e1 e2)
  ],
  omega (arith, l1, l2, length-append n1 n2, length-append e1 e2),
)

-- Both offsets of the run after the chunks.
abbrev pub next_offsets : AsyncRunPollRow → PollResult → ℤ × ℤ
next_offsets row p = (
  next_offset p.cursor.stdout_offset row.stdout_offset p.stdout_chunk,
  next_offset p.cursor.stderr_offset row.stderr_offset p.stderr_chunk,
)

-- What storing the chunks does, from the chunks on.
abbrev Stores : Env → String → Run → List Piece → Store → ℤ → ℤ → Bool → World → Type 0
Stores env id r expected before a b differ w =
    let after = find_run id w.store in
    (new : List RunOutput) × (w.store.run_output ≡ before.run_output ++ new)
    × ((after ≡ some r) ⊎ ((after ≡ some (moved a b r)) × (map piece new ≡ expected)))
    × (IsReliable env → differ ≡ true → length new ≡ length expected → after ≡ some (moved a b r))

finish :
    (env : Env) (id : String) (r : Run) (expected : List Piece) (before : Store) (a b : ℤ)
    (ok differ : Bool) (w : World)
    → find_run id w.store ≡ some r
    → Adds expected before (ok, w)
    → Stores env id r expected before a b differ
        ((if ok && differ then attempt_exec env (update_run_offsets id a b) else done) w).1
unfolding update_run_offsets
finish env id r expected before a b false differ w p (new, q, all, less, le) =
    (new, q, inl p, λ reliable d full. absurd (omega (arith, less refl, full)))
finish env id r expected before a b true false w p (new, q, all, less, le) =
    (new, q, inl p, λ reliable d full. absurd cc)
finish env id r expected before a b true true w p (new, q, all, less, le) =
    let there = find_run-update_run id (moved a b) w.store r (λ x. refl) p in
    elim (exec-cases env (update_run_offsets id a b) w) [
      | inl e ↦
          rw (e, ◌>>◌)
            (
              new,
              q,
              inl p,
              λ reliable d full. absurd (
                  false≢true (
                    ap (λ x. x.0)
                      (sym e
                        ∙ exec_reliable env (update_run_offsets id a b) w
                            (update_run id (moved a b) w.store) reliable refl))),
            )
      | inr (s, i, e) ↦
          let same_store : update_run id (moved a b) w.store ≡ s = some_inj i in
          rw (e, ◌>>◌)
            (
              new,
              ap (λ x. x.run_output) (sym same_store) ∙ q,
              inr (subst (λ x. find_run id x ≡ some (moved a b r)) same_store there, all refl),
              λ reliable d full. subst (λ x. find_run id x ≡ some (moved a b r)) same_store there,
            )
    ]
  where
    some_inj : {s t : Store} → some s ≡ some t → s ≡ t
    some_inj e = cc

-- What storing the chunks of a poll leaves, whatever fails: the output of the run grows by new rows
-- alone; the row of the run is as it was, or both of its offsets have moved, each to `next_offset`,
-- and then the new rows are all the chunks of the poll, in order, so that no chunk is lost behind
-- the offsets. If the database does not fail, one of the offsets is to change, and there is a new
-- row for each chunk, then they have moved.
pub store_chunks_lem :
    (env : Env) (row : AsyncRunPollRow) (p : PollResult) (r : Run) (w : World)
    → find_run row.id w.store ≡ some r
    → let s = (store_chunks env row p w).1.store in
      let (a, b) = next_offsets row p in
      (new : List RunOutput) × (s.run_output ≡ w.store.run_output ++ new)
      × ((find_run row.id s ≡ some r)
          ⊎ ((find_run row.id s ≡ some (moved a b r)) × (map piece new ≡ pieces row.id p)))
      × (IsReliable env
          → not (eqb_ℤ a row.stdout_offset) || not (eqb_ℤ b row.stderr_offset) ≡ true
          → length new ≡ length (pieces row.id p)
          → find_run row.id s ≡ some (moved a b r))
unfolding store_chunks
store_chunks_lem env row p r w found =
    let (a, b) = next_offsets row p in
    let r1 = append_chunk env row.id Stream.stdout p.stdout_chunk w in
    let r2 = append_chunk env row.id Stream.stderr p.stderr_chunk r1.1 in
    let r3 = append_chunk env row.id Stream.stdout p.response_body_chunk r2.1 in
    let e1 = pieces_of row.id Stream.stdout p.stdout_chunk in
    let e2 = pieces_of row.id Stream.stderr p.stderr_chunk in
    let e3 = pieces_of row.id Stream.stdout p.response_body_chunk in
    finish env row.id r (pieces row.id p) w.store a b (r1.0 && r2.0 && r3.0)
      (not (eqb_ℤ a row.stdout_offset) || not (eqb_ℤ b row.stderr_offset)) r3.1
      (append_chunk-Keeps env row.id r Stream.stdout p.response_body_chunk r2.1 (
        append_chunk-Keeps env row.id r Stream.stderr p.stderr_chunk r1.1
          (append_chunk-Keeps env row.id r Stream.stdout p.stdout_chunk w found)))
      (Adds-then (e1 ++ e2) e3 w.store (r1.0 && r2.0) r3.0 r2.1 r3.1
        (Adds-then e1 e2 w.store r1.0 r2.0 r1.1 r2.1
          (append_chunk-Adds env row.id Stream.stdout p.stdout_chunk w)
          (append_chunk-Adds env row.id Stream.stderr p.stderr_chunk r1.1))
        (append_chunk-Adds env row.id Stream.stdout p.response_body_chunk r2.1))
