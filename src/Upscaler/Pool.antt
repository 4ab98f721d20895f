-- ===== src/Upscaler/Pool.antt =====
-- services/camera-web-restream-upscaler-api/internal/pipeline/pool.go: the queue of the worker pool
-- and one worker. A job is a frame with the camera that its push function serves; decoding, the
-- image filters and encoding are parameters.
use instachron.Base.{Option-cases, inl, inr}
use instachron.Base.{
  ℕ, ◌+◌, ◌-◌, ◌<◌, ◌≡◌, refl, ◌∙◌, arith, Option, none, some, List, [], ◌∷◌, ◌++◌, length,
  if◌then◌else◌,
}
use mathlib.Core.List.{append_assoc, append-nil}
use instachron.DropChan.{lost, send}
use instachron.DropChan.Window.{window, send_all, send_all-window}

abbrev pub Job : Type 0
Job = ℕ × List ℕ

-- The queue, the two counters of metrics.Pipeline, and what the push functions were given.
pub record Pool : Type 0 where
  pub queue : List Job
  pub frames : ℕ
  pub dropped : ℕ
  pub pushed : List Job

unfoldable pub new_pool : Pool
new_pool = record { queue = []; frames = 0; dropped = 0; pushed = [] }

-- Process
unfoldable pub process : ℕ → Job → Pool → Pool
unfolding lost
process queue_size job p =
    let (outcome, queue') = send queue_size job p.queue in
    record p { queue = queue'; dropped = if lost outcome then p.dropped + 1 else p.dropped }

-- Process for each of some jobs.
unfoldable pub process_all : ℕ → List Job → Pool → Pool
process_all queue_size [] p = p
process_all queue_size (job ∷ jobs) p = process_all queue_size jobs (process queue_size job p)

process_all-send_all :
    (queue_size : ℕ) (jobs : List Job) (p : Pool)
    → let (dropped, queue) = send_all queue_size jobs (p.dropped, p.queue) in
      process_all queue_size jobs p ≡ record p { dropped = dropped; queue = queue }
unfolding process_all process send_all
process_all-send_all queue_size [] p = refl
process_all-send_all queue_size (job ∷ jobs) p =
    process_all-send_all queue_size jobs (process queue_size job p)

module _ {I : Type 0} (decode : List ℕ → Option I) (upscale : I → I)
    (encode : I → Option (List ℕ)) where
  -- process, the worker's part: none says that the frame is given up.
  unfoldable pub process_jpeg : List ℕ → Option (List ℕ)
  process_jpeg jpeg = elim (decode jpeg) [ none ↦ none | some img ↦ encode (upscale img) ]

  -- One round of workerLoop on a job.
  unfoldable pub work : Job → Pool → Pool
  unfolding process_jpeg
  work (camera, jpeg) p = elim (process_jpeg jpeg) [
    | none ↦ p
    | some out ↦ record p { frames = p.frames + 1; pushed = p.pushed ++ ((camera, out) ∷ []) }
  ]

  -- workerLoop from Close on: one worker takes what is left in the queue.
  unfoldable pub drain : List Job → Pool → Pool
  drain [] p = record p { queue = [] }
  drain (job ∷ jobs) p = drain jobs (work job p)

  unfoldable pub close : Pool → Pool
  unfolding drain
  close p = drain p.queue p

  -- The outputs of the jobs that do not fail.
  unfoldable pub outputs : List Job → List Job
  outputs [] = []
  outputs ((camera, jpeg) ∷ jobs) = elim (process_jpeg jpeg) [
    | none ↦ outputs jobs
    | some out ↦ (camera, out) ∷ outputs jobs
  ]

  work_done :
      (camera : ℕ) (jpeg out : List ℕ) (p : Pool)
      → process_jpeg jpeg ≡ some out
      → work (camera, jpeg) p
        ≡ record p { frames = p.frames + 1; pushed = p.pushed ++ ((camera, out) ∷ []) }
  unfolding work
  work_done camera jpeg out p e = rw (e, work) refl

  work_failed :
      (camera : ℕ) (jpeg : List ℕ) (p : Pool) → process_jpeg jpeg ≡ none → work (camera, jpeg) p ≡ p
  unfolding work
  work_failed camera jpeg p e = rw (e, work) refl

  outputs_done :
      (camera : ℕ) (jpeg out : List ℕ) (jobs : List Job)
      → process_jpeg jpeg ≡ some out
      → outputs ((camera, jpeg) ∷ jobs) ≡ (camera, out) ∷ outputs jobs
  unfolding outputs
  outputs_done camera jpeg out jobs e = rw (e, outputs) refl

  outputs_failed :
      (camera : ℕ) (jpeg : List ℕ) (jobs : List Job)
      → process_jpeg jpeg ≡ none
      → outputs ((camera, jpeg) ∷ jobs) ≡ outputs jobs
  unfolding outputs
  outputs_failed camera jpeg jobs e = rw (e, outputs) refl

  drain-outputs :
      (jobs : List Job) (p : Pool)
      → drain jobs p ≡ record p {
        queue = [];
        frames = p.frames + length (outputs jobs);
        pushed = p.pushed ++ outputs jobs;
      }
  unfolding drain outputs
  drain-outputs [] p =
      let z : p.frames + 0 ≡ p.frames = omega arith in rw (append-nil p.pushed, z) refl
  drain-outputs ((camera, jpeg) ∷ jobs) p = elim (Option-cases (process_jpeg jpeg)) [
    | inl failed ↦
        rw (work_failed camera jpeg p failed, outputs_failed camera jpeg jobs failed)
          (drain-outputs jobs p)
    | inr (out, done) ↦
        let next = record p { frames = p.frames + 1; pushed = p.pushed ++ ((camera, out) ∷ []) } in
        rw (work_done camera jpeg out p done, outputs_done camera jpeg out jobs done)
          (drain-outputs jobs next
            ∙ ground (arith, append_assoc p.pushed ((camera, out) ∷ []) (outputs jobs)))
  ]

  -- Jobs that are given to a new pool of positive queue size while its worker is busy, and then a
  -- Close: the worker pushes the results of the last jobs that fit, in order, without those whose
  -- frame does not decode or encode; it counts each result; every other job was counted as
  -- dropped; and the queue is empty.
  pub close-process_all :
      (queue_size : ℕ) (jobs : List Job)
      → 0 < queue_size
      → let p = close (process_all queue_size jobs new_pool) in
        (p.pushed ≡ outputs (window queue_size jobs))
        × (p.frames ≡ length p.pushed)
        × (p.dropped ≡ length jobs - queue_size)
        × (p.queue ≡ [])
  unfolding close new_pool
  close-process_all queue_size jobs positive =
      let sent = process_all-send_all queue_size jobs new_pool in
      let kept = send_all-window queue_size jobs positive in
      let left = window queue_size jobs in
      let final : close (process_all queue_size jobs new_pool) ≡ record {
        queue = [];
        frames = 0 + length (outputs left);
        dropped = length jobs - queue_size;
        pushed = outputs left;
      } =
        rw (sent, kept)
          (drain-outputs left (record {
            queue = left;
            frames = 0;
            dropped = length jobs - queue_size;
            pushed = [];
          })) in
      rw final (refl, omega arith, refl, refl)
