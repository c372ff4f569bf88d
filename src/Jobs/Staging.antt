-- ===== src/Jobs/Staging.antt =====
-- `stage_file` of agent/application/staging.py: the upload is read in chunks and refused once it is
-- too large. SHA-256 is a parameter. An error of the file system (StagingError) is not modelled.
use agentic_soc_triage_assis.Prelude.{
  none, Option, text_equality, filter, List, if◌then◌else◌, ℕ, length, ◌+◌, some, ◌∷◌, ◌==◌, String,
  not, ltb, [], ◌++◌,
}
use agentic_soc_triage_assis.Jobs.Model.{Store}

pub data StageResult : Type 0 where
  staged_file : (file_sha256 : String) → Store → StageResult
  input_too_large : Store → StageResult

module _ (max_size_bytes : ℕ) where
  -- `while chunk := stream.read(8192)`: an empty chunk ends the loop. `none` is InputTooLargeError,
  -- otherwise the bytes that were written and hashed.
  unfoldable pub read_chunks : ℕ → List ℕ → List (List ℕ) → Option (List ℕ)
  read_chunks bytes_written content [] = some content
  read_chunks bytes_written content ([] ∷ chunks) = some content
  read_chunks bytes_written content ((b ∷ bs) ∷ chunks) =
      let bytes_written' = bytes_written + length (b ∷ bs) in
      let rest = read_chunks bytes_written' (content ++ (b ∷ bs)) chunks in
      if ltb max_size_bytes bytes_written' then none else rest

  -- On an error the partly written file is unlinked.
  unfoldable pub store_content : (List ℕ → String) → Option (List ℕ) → String → Store → StageResult
  store_content sha256 none job_id s =
      input_too_large (record s { staged = filter (λ name. not (name == job_id)) s.staged })
  store_content sha256 (some content) job_id s =
      staged_file (sha256 content)
        (record s { staged = job_id ∷ filter (λ name. not (name == job_id)) s.staged })

  unfoldable pub stage_file : (List ℕ → String) → List (List ℕ) → String → Store → StageResult
  stage_file sha256 stream job_id s = store_content sha256 (read_chunks 0 [] stream) job_id s
