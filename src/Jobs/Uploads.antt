-- ===== src/Jobs/Uploads.antt =====
-- The size limit of an upload.
use mathlib.Core.List.{append-nil, append_assoc}
use agentic_soc_triage_assis.Prelude.{
  List, [], none, some, refl, ◌≡◌, ◌∷◌, ◌++◌, ◌≤◌, ◌+◌, if◌then◌else◌, ◌≢◌, ℕ, length, All, ltb,
  arith, inl, inr, ◌==◌, Bool-cases, String, filter, not, leb, text_equality,
}
use agentic_soc_triage_assis.Jobs.Staging.{
  read_chunks, stage_file, store_content, staged_file, input_too_large,
}
use agentic_soc_triage_assis.Jobs.Model.{Store}

abbrev pub total : List (List ℕ) → ℕ
total [] = 0
total (c ∷ cs) = length c + total cs

abbrev pub joined : List (List ℕ) → List ℕ
joined [] = []
joined (c ∷ cs) = c ++ joined cs

-- What `read(8192)` returns before the end of the stream.
abbrev pub IsChunk : List ℕ → Type 0
IsChunk c = c ≢ []

read_chunks_lem :
    (max_size n : ℕ) (content : List ℕ) (stream : List (List ℕ))
    → n ≤ max_size
    → All IsChunk stream
    → read_chunks max_size n content stream
      ≡ (if ltb max_size (n + total stream) then none else some (content ++ joined stream))
unfolding read_chunks
read_chunks_lem m n content [] h full = ground (arith, append-nil content)
read_chunks_lem m n content ([] ∷ stream) h full = absurd (full.0 refl)
read_chunks_lem m n content ((b ∷ bs) ∷ stream) h full =
    elim (Bool-cases (ltb m (n + length (b ∷ bs)))) [
      | inl over ↦ rw over (ground arith)
      | inr fits ↦
          rw
            (
              fits,
              read_chunks_lem m (n + length (b ∷ bs)) (content ++ (b ∷ bs)) stream (ground arith)
                  full.1,
            )
            (rw (append_assoc content (b ∷ bs) (joined stream)) (ground arith))
    ]

-- Where no chunk of the stream is empty: an upload is accepted exactly when all of its bytes fit.
-- Then the digest is that of the whole content and the file is staged under the id of its job;
-- otherwise no file of that name is left.
pub stage_file-eq :
    (max_size : ℕ) (sha256 : List ℕ → String) (stream : List (List ℕ)) (job_id : String) (s : Store)
    → All IsChunk stream
    → let others = filter (λ name. not (name == job_id)) s.staged in
      stage_file max_size sha256 stream job_id s ≡ (
        if leb (total stream) max_size
        then staged_file (sha256 (joined stream)) (record s { staged = job_id ∷ others })
        else input_too_large (record s { staged = others }))
unfolding stage_file store_content
stage_file-eq max_size sha256 stream job_id s full =
    rw (read_chunks_lem max_size 0 [] stream (omega arith) full) (ground arith)
