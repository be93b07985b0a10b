-- ===== src/Client/Jobs.antt =====
-- Job numbers and the job window of src/models/StratumV2Client.ts.
use lido.Base.{
  suc, ◌-◌, ◌≤◌, ◌≡◌, ◌≢◌, refl, inl, inr, Bool-cases, List, [], ◌∷◌, ltb, ltb→lt, arith, length,
  drop,
}
use lido.Client.{Client, allocate_job_id, trim_jobs, max_channel_jobs}

module _ {T D : Type 0} where
  -- While the next number is in 1 to 2^32 - 1, so is the number that is given out, and the next number
  -- afterwards is in this range too and another one.
  pub allocate_job_id_lem :
      (c : Client T D)
      → 1 ≤ c.next_job_id
      → c.next_job_id ≤ 0xffffffff
      → let (job_id, c') = allocate_job_id c in
        (1 ≤ job_id)
        × (job_id ≤ 0xffffffff)
        × (1 ≤ c'.next_job_id)
        × (c'.next_job_id ≤ 0xffffffff)
        × (c'.next_job_id ≢ job_id)
  unfolding allocate_job_id
  allocate_job_id_lem c lo hi = ground arith

-- trimChannelJobs keeps the newest jobs, as many as fit the window of 32, in their order.
pub trim_jobs_lem {ℓ} :
    {A : Type ℓ} (jobs : List A) → trim_jobs jobs ≡ drop (length jobs - max_channel_jobs) jobs
unfolding trim_jobs
trim_jobs_lem [] = refl
trim_jobs_lem (job ∷ jobs) = elim (Bool-cases (ltb 32 (suc (length jobs)))) [
  | inl many ↦
      let n : suc (length jobs) - 32 ≡ suc (length jobs - 32) =
        omega (arith, ltb→lt 32 (suc (length jobs)) many) in
      rw (many, n) (trim_jobs_lem jobs)
  | inr few ↦ let n : suc (length jobs) - 32 ≡ 0 = ground arith in rw (few, n)
]
