-- ===== src/Pipeline/Chain.antt =====
-- `Chain` of internal/pipeline/pipeline.go.
use logateway.Prelude.{◌≡◌, refl, List, [], ◌∷◌, ◌++◌}
use logateway.Message.{Message}
use logateway.Pipeline.Processors.{Json, Processor, Result, done, failed, panicked, process}

module _ (json : Json) where
  -- go on with the rest of a chain
  unfoldable pub and_then : Result → (Message → Result) → Result
  and_then (done msg) next = next msg
  and_then failed next = failed
  and_then panicked next = panicked

  -- Chain.Process
  unfoldable pub process_chain : List Processor → Message → Result
  unfolding and_then
  process_chain [] msg = done msg
  process_chain (p ∷ ps) msg = and_then (process json p msg) (process_chain ps)

  and_then_assoc :
      (before after both : Message → Result) (r : Result)
      → ((m : Message) → both m ≡ and_then (before m) after)
      → and_then r both ≡ and_then (and_then r before) after
  unfolding and_then
  and_then_assoc before after both (done m) same = same m
  and_then_assoc before after both failed same = refl
  and_then_assoc before after both panicked same = refl

  -- A chain run after another is the chain of both; what fails in the first never reaches the
  -- second.
  process_chain-append :
      (ps qs : List Processor) (msg : Message)
      → process_chain (ps ++ qs) msg ≡ and_then (process_chain ps msg) (process_chain qs)
  unfolding process_chain
  process_chain-append [] qs msg = refl
  process_chain-append (p ∷ ps) qs msg =
      and_then_assoc (process_chain ps) (process_chain qs) (process_chain (ps ++ qs))
        (process json p msg) (λ m. process_chain-append ps qs m)
