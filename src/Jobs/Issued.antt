-- ===== src/Jobs/Issued.antt =====
-- Jobs under their numbers in src/services/stratum-v1-jobs.service.ts: what is stored, found and
-- dropped over the life of the pipeline.
use lido.Base.{
  ℕ, ◌+◌, ◌<◌, ◌≡◌, ◌≢◌, refl, sym, ap, ◌∙◌, subst, Bool, true, false, Bool-cases, inl, inr, Option,
  none, some, List, All, All-map, arith,
}
use lido.Outcome.{Result, ok, err}
use lido.Client.{Units, same_key}
use lido.Numbers.{Numbers}
use lido.Mining.{MiningJob}
use lido.Jobs.{
  Table, JobsService, BlockTemplate, Emitted, unchanged, failed, emitted, Assembly, find, hex_text,
  add_job, get_next_id, get_next_template_id, get_job_by_id, get_job_template_by_id, is_new_block,
  note_height, sweep, store_template, prune_stale_jobs, work_signature,
}
use lido.Jobs.Pipeline.{new_template, unless_same_work, finish_template, build_template}
use lido.Jobs.Table.{
  IsUnique, IsUnique-put, IsUnique-keep_fresh, All-keep_fresh, All-put, find-none, find-put,
  find-put_other, find-keep_fresh, hex_text-injective, same_key→≡, still_fresh,
}

-- A job stands under its own id, the text of a number below the next.
abbrev IsIssued : ℕ → Table MiningJob → Type 0
IsIssued n = All (λ x. (x.1.job_id ≡ x.0) × ((i : ℕ) × (i < n) × (x.0 ≡ hex_text i)))

module _ {N T : Type 0} where
  abbrev pub IsTable : JobsService N T → Type 0
  IsTable s = IsUnique s.jobs × IsIssued s.latest_job_id s.jobs

unused :
    (n : ℕ) (m : Table MiningJob) → IsIssued n m → All (λ x. same_key x.0 (hex_text n) ≡ false) m
unused n = All-map (λ x issued.
    let (own, (i, below, at)) = issued in
    elim (Bool-cases (same_key x.0 (hex_text n))) [
      | inl e ↦
          let same : i ≡ n = hex_text-injective i n (sym at ∙ same_key→≡ x.0 (hex_text n) e) in
          absurd (omega arith)
      | inr e ↦ e
    ])

-- What is left of a job behind an emitted template.
abbrev pub jobs_after : Bool → ℕ → Option MiningJob → Option MiningJob
jobs_after true now found = none
jobs_after false now found = still_fresh (λ j. j.creation) now found

module _ {N T : Type 0} where
  -- A job under the next number is found by its id, which no job had before, and every other id finds
  -- what it found; the table stays well formed.
  pub add_job_lem :
      (job : MiningJob) (s : JobsService N T)
      → IsTable s
      → job.job_id ≡ get_next_id s
      → IsTable (add_job job s)
        × (get_job_by_id s job.job_id ≡ none)
        × (get_job_by_id (add_job job s) job.job_id ≡ some job)
        × ((k : Units)
            → same_key job.job_id k ≡ false
            → get_job_by_id (add_job job s) k ≡ get_job_by_id s k)
  unfolding add_job get_job_by_id get_next_id
  add_job_lem job s (unique, issued) next = (
    (
      IsUnique-put s.jobs job.job_id job unique,
      All-put _ s.jobs job.job_id job
          (All-map (λ x h. let (own, (i, below, at)) = h in (own, (i, omega arith, at))) s.jobs
            issued)
          (refl, (s.latest_job_id, omega arith, next)),
    ),
    find-none s.jobs job.job_id (
        subst (λ k. All (λ x. same_key x.0 k ≡ false) s.jobs) (sym next)
          (unused s.latest_job_id s.jobs issued)),
    find-put s.jobs job.job_id job,
    λ k other. find-put_other s.jobs job.job_id k job other,
  )

  sweep-IsTable :
      (now : ℕ) (clear : Bool) (s : JobsService N T) → IsTable s → IsTable (sweep now clear s)
  unfolding sweep prune_stale_jobs
  sweep-IsTable now true s h = (tt, tt)
  sweep-IsTable now false s (unique, issued) = (
    IsUnique-keep_fresh (λ j. j.creation) now s.jobs unique,
    All-keep_fresh _ (λ j. j.creation) now s.jobs issued,
  )

  sweep_jobs :
      (now : ℕ) (clear : Bool) (s : JobsService N T) (k : Units)
      → IsUnique s.jobs
      → find (sweep now clear s).jobs k ≡ jobs_after clear now (find s.jobs k)
  unfolding sweep prune_stale_jobs find
  sweep_jobs now true s k h = refl
  sweep_jobs now false s k h = find-keep_fresh (λ j. j.creation) now s.jobs k h

  note_height_jobs :
      (b : Bool) (height : ℕ) (s : JobsService N T)
      → ((note_height b height s).jobs ≡ s.jobs)
        × ((note_height b height s).latest_job_id ≡ s.latest_job_id)
  unfolding note_height
  note_height_jobs true height s = (refl, refl)
  note_height_jobs false height s = (refl, refl)

  note_height-IsTable :
      (b : Bool) (height : ℕ) (s : JobsService N T) → IsTable s → IsTable (note_height b height s)
  unfolding note_height
  note_height-IsTable true height s h = h
  note_height-IsTable false height s h = h

module _ {T : Type 0} (assembly : Assembly T) ⦃numbers : Numbers⦄ where
  abbrev N : Type 0
  N = numbers.Number

  finish-IsTable :
      (now : ℕ) (clear : Bool) (t : BlockTemplate) (r : Result (List T)) (s : JobsService N T)
      → IsTable s
      → IsTable (finish_template assembly now clear t r s).1
  unfolding finish_template store_template build_template
  finish-IsTable now clear t (err e) s h = h
  finish-IsTable now clear t (ok ts) s h =
      sweep-IsTable now clear (record s { latest_job_template_id = s.latest_job_template_id + 1 }) h

  unless-IsTable :
      (now : ℕ) (clear : Bool) (t : BlockTemplate) (same : Bool) (s : JobsService N T)
      → IsTable s
      → IsTable (unless_same_work assembly now clear t same s).1
  unfolding unless_same_work
  unless-IsTable now clear t true s h = h
  unless-IsTable now clear t false s h =
      finish-IsTable now clear t _ (record s { last_work_signature = some (work_signature t now) })
        h

  -- Whatever template the node sends, the table of jobs stays well formed.
  pub new_template-IsTable :
      (now blocks : ℕ) (t : BlockTemplate) (s : JobsService N T)
      → IsTable s
      → IsTable (new_template assembly now blocks t s).1
  unfolding new_template
  new_template-IsTable now blocks t s h =
      unless-IsTable now (is_new_block blocks s) t _ _
        (note_height-IsTable (is_new_block blocks s) blocks s h)

  -- What the tables hold behind a step of the pipeline, where `clear` is whether jobs are cleared.
  abbrev pub Emission : Table MiningJob → Bool → ℕ → Emitted N T × JobsService N T → Type 0
  Emission jobs clear now (unchanged, s') = s'.jobs ≡ jobs
  Emission jobs clear now (failed, s') = s'.jobs ≡ jobs
  Emission jobs clear now (emitted template, s') =
      (template.clear_jobs ≡ clear)
      × ((k : Units) → get_job_by_id s' k ≡ jobs_after clear now (find jobs k))
      × (get_job_template_by_id s' template.id ≡ some template)

  finish_jobs :
      (now : ℕ) (clear : Bool) (t : BlockTemplate) (r : Result (List T)) (s : JobsService N T)
      → IsUnique s.jobs
      → Emission s.jobs clear now (finish_template assembly now clear t r s)
  unfolding finish_template store_template build_template get_job_by_id get_job_template_by_id
  finish_jobs now clear t (err e) s unique = refl
  finish_jobs now clear t (ok ts) s unique =
      let s1 = record s { latest_job_template_id = s.latest_job_template_id + 1 } in
      (
        refl,
        λ k. sweep_jobs now clear s1 k unique,
        find-put (sweep now clear s1).blocks (get_next_template_id s)
            (build_template assembly now clear t ts s),
      )

  unless_jobs :
      (now : ℕ) (clear : Bool) (t : BlockTemplate) (same : Bool) (s : JobsService N T)
      → IsUnique s.jobs
      → Emission s.jobs clear now (unless_same_work assembly now clear t same s)
  unfolding unless_same_work
  unless_jobs now clear t true s h = refl
  unless_jobs now clear t false s h = finish_jobs now clear t _ _ h

  -- The step at a height that is noted first.
  noted_jobs :
      (now : ℕ) (clear noted : Bool) (blocks : ℕ) (t : BlockTemplate) (same : Bool)
      (s : JobsService N T)
      → IsUnique s.jobs
      → Emission s.jobs clear now
          (unless_same_work assembly now clear t same (note_height noted blocks s))
  unfolding note_height
  noted_jobs now clear true blocks t same s h =
      unless_jobs now clear t same (record s { last_block_height = blocks }) h
  noted_jobs now clear false blocks t same s h = unless_jobs now clear t same s h

  -- A template is emitted with the jobs cleared exactly at a new height. It is found by its id then;
  -- behind it no job is found at a new height, and else those that are not older than five minutes.
  -- Where none is emitted, the jobs stay.
  pub new_template_jobs :
      (now blocks : ℕ) (t : BlockTemplate) (s : JobsService N T)
      → IsTable s
      → Emission s.jobs (is_new_block blocks s) now (new_template assembly now blocks t s)
  unfolding new_template
  new_template_jobs now blocks t s (unique, issued) =
      noted_jobs now (is_new_block blocks s) (is_new_block blocks s) blocks t _ s unique

  finish_height :
      (now : ℕ) (clear : Bool) (t : BlockTemplate) (r : Result (List T)) (s : JobsService N T)
      → (finish_template assembly now clear t r s).1.last_block_height ≡ s.last_block_height
  unfolding finish_template store_template sweep prune_stale_jobs build_template
  finish_height now clear t (err e) s = refl
  finish_height now true t (ok ts) s = refl
  finish_height now false t (ok ts) s = refl

  unless_height :
      (now : ℕ) (clear : Bool) (t : BlockTemplate) (same : Bool) (s : JobsService N T)
      → (unless_same_work assembly now clear t same s).1.last_block_height ≡ s.last_block_height
  unfolding unless_same_work
  unless_height now clear t true s = refl
  unless_height now clear t false s = finish_height now clear t _ _

  noted_at :
      (b : Bool) (blocks : ℕ) (s : JobsService N T)
      → is_new_block blocks s ≡ b
      → (note_height b blocks s).last_block_height ≡ blocks
  unfolding note_height is_new_block
  noted_at true blocks s e = refl
  noted_at false blocks s e = ground arith

  -- Behind a step of the pipeline at a height other than 0, whatever came of it, this height is no new
  -- one.
  height_known :
      (now blocks : ℕ) (t : BlockTemplate) (s : JobsService N T)
      → blocks ≢ 0
      → is_new_block blocks (new_template assembly now blocks t s).1 ≡ false
  unfolding new_template
  height_known now blocks t s h =
      let at : (new_template assembly now blocks t s).1.last_block_height ≡ blocks =
        unfold new_template in
        unless_height now (is_new_block blocks s) t _ (note_height (is_new_block blocks s) blocks s)
        ∙ noted_at (is_new_block blocks s) blocks s refl in
      known _ at
    where
      known :
          (s' : JobsService N T) → s'.last_block_height ≡ blocks → is_new_block blocks s' ≡ false
      known s' e = unfold is_new_block in ground arith

  -- A step that fails at a new height leaves the jobs of the old height in place, and no later step at
  -- this height clears them: what it emits, it emits without the mark to clear.
  pub failure_loses_clear :
      (now now' blocks : ℕ) (t t' : BlockTemplate) (s s' : JobsService N T)
      → IsTable s
      → blocks ≢ 0
      → is_new_block blocks s ≡ true
      → new_template assembly now blocks t s ≡ (failed, s')
      → (s'.jobs ≡ s.jobs) × Emission s'.jobs false now' (new_template assembly now' blocks t' s')
  failure_loses_clear now now' blocks t t' s s' table h new e =
      let stays : s'.jobs ≡ s.jobs =
        subst (Emission s.jobs (is_new_block blocks s) now) e
          (new_template_jobs now blocks t s table) in
      let known : is_new_block blocks s' ≡ false =
        ap (λ x. is_new_block blocks x.1) (sym e) ∙ height_known now blocks t s h in
      let table' : IsTable s' =
        subst (λ x. IsTable x.1) e (new_template-IsTable now blocks t s table) in
      (
        stays,
        subst (λ b. Emission s'.jobs b now' (new_template assembly now' blocks t' s')) known
            (new_template_jobs now' blocks t' s' table'),
      )
