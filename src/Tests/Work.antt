-- ===== src/Tests/Work.antt =====
-- src/services/stratum-v1-jobs.service.ts at concrete inputs.
use lido.Base.{ℕ, ◌≡◌, refl, sym, true, false, none, some, [], ◌∷◌, replicate, arith}
use lido.Outcome.{ok, err, bad_argument}
use lido.Client.{Units, same_key}
use lido.Mining.{MiningJob}
use lido.Mining.Hex.{digit}
use lido.Jobs.{
  JobsService, BlockTemplate, Assembly, failed, add_job, get_next_id, get_job_by_id, is_new_block,
  hex_text_on, same_signature, note_height, work_signature,
}
use lido.Jobs.Pipeline.{new_template, unless_same_work, finish_template}
use lido.Jobs.Issued.{IsTable, Emission, add_job_lem, new_template_jobs, failure_loses_clear}
use lido.Tests.Mining.{whole_numbers, template, job}

abbrev pub service : JobsService ℕ ℕ
service = record {
  latest_job_id = 2;
  latest_job_template_id = 2;
  jobs = (49 ∷ [], job) ∷ [];
  blocks = (49 ∷ [], template) ∷ [];
  last_block_height = 799999;
  last_work_signature = none;
}

abbrev next_job : MiningJob
next_job = record job { job_id = 50 ∷ [] }

one : get_next_id service ≡ 50 ∷ []
unfolding get_next_id hex_text_on digit
one = refl

service-IsTable : IsTable service
unfolding hex_text_on digit
service-IsTable = ((tt, tt), ((refl, (1, omega arith, refl)), tt))

add_job_lem_example :
    IsTable (add_job next_job service)
    × (get_job_by_id service (50 ∷ []) ≡ none)
    × (get_job_by_id (add_job next_job service) (50 ∷ []) ≡ some next_job)
    × ((k : Units)
        → same_key (50 ∷ []) k ≡ false
        → get_job_by_id (add_job next_job service) k ≡ get_job_by_id service k)
add_job_lem_example = add_job_lem next_job service service-IsTable (sym one)

-- Transactions are as many, or cannot be parsed.
abbrev assembly : Assembly ℕ
assembly = record {
  parse_transactions = λ ts. ok (0 ∷ []);
  merkle_root = λ ts. replicate 32 0;
  merkle_branch = λ ts. [];
  witness_root = λ ts. replicate 32 0;
}

abbrev broken : Assembly ℕ
broken = record assembly { parse_transactions = λ ts. err bad_argument }

abbrev block_template : BlockTemplate
block_template = record {
  previousblockhash = replicate 64 49;
  version = 0x20000000;
  bits = replicate 8 49;
  mintime = 1700000000;
  height = 800001;
  coinbasevalue = 5000;
  transactions = [];
}

new_template_jobs_example :
    Emission assembly ⦃numbers = whole_numbers⦄ service.jobs
      (is_new_block 800000 service)
      1700000000000
      (new_template assembly ⦃numbers = whole_numbers⦄ 1700000000000 800000 block_template service)
new_template_jobs_example =
    new_template_jobs assembly ⦃numbers = whole_numbers⦄ 1700000000000 800000 block_template service
      service-IsTable

abbrev after_failure : JobsService ℕ ℕ
after_failure = record service {
  last_block_height = 800000;
  last_work_signature = some (work_signature block_template 1700000000000);
}

fails :
    new_template broken ⦃numbers = whole_numbers⦄ 1700000000000 800000 block_template service
    ≡ (failed, after_failure)
unfolding new_template unless_same_work finish_template is_new_block note_height same_signature
fails = refl

new_height : is_new_block 800000 service ≡ true
unfolding is_new_block
new_height = refl

failure_loses_clear_example :
    (after_failure.jobs ≡ service.jobs)
    × Emission broken ⦃numbers = whole_numbers⦄ after_failure.jobs false 1700000060000 (
        new_template broken ⦃numbers = whole_numbers⦄ 1700000060000 800000 block_template
          after_failure)
failure_loses_clear_example =
    failure_loses_clear broken ⦃numbers = whole_numbers⦄ 1700000000000 1700000060000 800000
      block_template block_template service after_failure service-IsTable (omega arith) new_height
      fails
