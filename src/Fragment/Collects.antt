-- ===== src/Fragment/Collects.antt =====
-- `Split` with a callback that never fails, such as the one of `kvctl put`, which collects chunks.
use mathlib.Core.List.{flatten}
use frag_kv.Base.{
  Str, ℕ, suc, ◌+◌, ◌≤◌, ◌<◌, ◌≡◌, refl, ap, ◌∙◌, List, [], ◌∷◌, ◌++◌, Option, none, some, arith,
  length, length-append, append_assoc, append-nil, sym,
}
use frag_kv.Base.Int.{ℤ, pos, ◌+ℤ◌, +ℤ-pos, max_int64}
use frag_kv.Fragment.{
  Fault, Info, Plan, Reader, Outcome, add_info, new_info, split, effective_size, bytes_of,
}
use frag_kv.Fragment.Chunks.{flatten-chunks, length-chunks, ceil_div}
use frag_kv.Fragment.Splits.{feed, extend, empty_plan, input_chunks, split-feed, effective_size_pos}

-- func(_ int, data []byte) error { chunks = append(chunks, data); return nil }
unfoldable pub collect : {E : Type 0} → ℕ → Str → List Str → List Str × Option E
collect index chunk acc = (acc ++ chunk ∷ [], none)

feed-collect :
    {E : Type 0} (i : ℕ) (cs acc : List Str)
    → feed (collect {E = E}) i cs acc ≡ record { handed = cs; error = none; state = acc ++ cs }
unfolding feed collect
feed-collect i [] acc = rw append-nil
feed-collect {E} i (c ∷ cs) acc =
    rw (feed-collect {E = E} (i + 1) cs (acc ++ c ∷ []), append_assoc acc (c ∷ []) cs)

-- The records of chunks from index `i` on.
unfoldable pub infos : Str → ℕ → List Str → List Info
infos key i [] = []
infos key i (c ∷ cs) = new_info key i c ∷ infos key (i + 1) cs

length-infos : (key : Str) (i : ℕ) (cs : List Str) → length (infos key i cs) ≡ length cs
unfolding infos
length-infos key i [] = refl
length-infos key i (c ∷ cs) = ap suc (length-infos key (i + 1) cs)

pub fragments-extend :
    (key : Str) (plan : Plan) (i : ℕ) (cs : List Str)
    → (extend key plan i cs).fragments ≡ plan.fragments ++ infos key i cs
unfolding extend infos add_info
fragments-extend key plan i [] = sym (append-nil plan.fragments)
fragments-extend key plan i (c ∷ cs) =
    fragments-extend key (add_info key plan i c) (i + 1) cs
    ∙ append_assoc plan.fragments (new_info key i c ∷ []) (infos key (i + 1) cs)

-- The total of a plan is the number of bytes handed over, as long as an int64 holds it.
pub total_size-extend :
    (key : Str) (plan : Plan) (t i : ℕ) (cs : List Str)
    → plan.total_size ≡ pos t
    → t + length (flatten cs) ≤ max_int64
    → (extend key plan i cs).total_size ≡ pos (t + length (flatten cs))
unfolding extend flatten add_info
total_size-extend key plan t i [] e h = e ∙ ap pos (omega arith)
total_size-extend key plan t i (c ∷ cs) e h =
    let split_length = length-append c (flatten cs) in
    total_size-extend key (add_info key plan i c) (t + length c) (i + 1) cs
      (ap (λ (z : ℤ). z +ℤ pos (length c)) e ∙ +ℤ-pos t (length c) (omega arith)) (omega (arith))
    ∙ ap pos (omega (arith))

-- What `kvctl put` relies on: the collected chunks are the file, in order, and the plan counts them.
pub record Collected (key : Str) (r : Reader) (size : ℕ) (o : Outcome (List Str) Fault)
    : Type 0 where
  pub no_error : o.error ≡ none
  pub whole : flatten o.state ≡ r.unread
  pub recorded : o.plan.fragments ≡ infos key 0 o.state
  pub counted : length o.plan.fragments ≡ ceil_div (length r.unread) size
  pub total : o.plan.total_size ≡ pos (length r.unread)

abbrev pub collected : Str → Reader → ℤ → Outcome (List Str) Fault
collected key r chunk_size = record {
  plan = extend key (empty_plan key chunk_size) 0 (input_chunks r chunk_size);
  error = none;
  state = input_chunks r chunk_size;
}

pub split-collected :
    (key : Str) (r : Reader) (chunk_size : ℤ)
    → r.fault ≡ none
    → split key r chunk_size collect [] ≡ some (collected key r chunk_size)
split-collected key r chunk_size sound =
    split-feed key r chunk_size collect []
    ∙ rw (feed-collect {E = Fault} 0 (input_chunks r chunk_size) [], sound)

pub flatten-input_chunks :
    (r : Reader) (chunk_size : ℤ) → flatten (input_chunks r chunk_size) ≡ r.unread
flatten-input_chunks r chunk_size =
    let (n, positive) = effective_size_pos chunk_size in
    flatten-chunks (length r.unread + 1) (bytes_of (effective_size chunk_size)) r.unread
      (rw positive (omega arith)) (omega arith)

-- Splitting an input that ends without an error, and whose length an int64 holds, collects its bytes
-- in order, records one fragment for each chunk, as many as the size divides the length rounded up,
-- and totals the length.
pub split-collect :
    (key : Str) (r : Reader) (chunk_size : ℤ)
    → r.fault ≡ none
    → length r.unread ≤ max_int64
    → (o : Outcome (List Str) Fault) × (split key r chunk_size collect [] ≡ some o)
      × Collected key r (bytes_of (effective_size chunk_size)) o
split-collect key r chunk_size sound fits =
    let (n, positive) = effective_size_pos chunk_size in
    let cs = input_chunks r chunk_size in
    let nonzero : 0 < bytes_of (effective_size chunk_size) = rw positive (omega arith) in
    let fuel : ℕ = length r.unread + 1 in
    let size : ℕ = bytes_of (effective_size chunk_size) in
    let whole = flatten-input_chunks r chunk_size in
    let counted = length-chunks fuel size r.unread nonzero (omega arith) in
    let recorded = fragments-extend key (empty_plan key chunk_size) 0 cs in
    (
      collected key r chunk_size,
      split-collected key r chunk_size sound,
      record {
        no_error = refl;
        whole = whole;
        recorded = recorded;
        counted = ap length recorded ∙ length-infos key 0 cs ∙ counted;
        total =
            total_size-extend key (empty_plan key chunk_size) 0 0 cs refl
              (omega (arith, ap length whole))
            ∙ ap pos (omega (arith, ap length whole));
      },
    )
