-- ===== src/Extranonce/Lanes.antt =====
-- resolveSv2ProcessNamespace of src/models/sv2/sv2-extranonce-manager.ts keeps processes apart.
use lido.Base.{ℕ, ◌+◌, ◌*◌, ◌%◌, ◌≤◌, ◌≡◌, ◌≢◌, ◌⊎◌, inl, inr, sym, ◌∙◌, Option, some, arith}
use lido.Outcome.{ok}
use lido.Extranonce.Namespace.{
  Environment, parse_namespace_integer, or_else, or_zero, fitting, ◌then_parsed◌, resolve_lane,
  resolve_sv2_process_namespace,
}

-- What the variables of a process say: the base, its worker index and its restart generation.
pub record HasLane (env : Environment) (cluster : Option ℕ) (base worker generation : ℕ)
    : Type 0 where
  pub base_read : Option ℕ
  pub instance_read : Option ℕ
  pub pm_read : Option ℕ
  pub restart_read : Option ℕ
  pub parse_base : parse_namespace_integer env.sv2_extranonce_namespace_base ≡ ok base_read
  pub parse_instance : parse_namespace_integer env.node_app_instance ≡ ok instance_read
  pub parse_pm : parse_namespace_integer env.pm_id ≡ ok pm_read
  pub parse_restart : parse_namespace_integer env.restart_time ≡ ok restart_read
  pub base_is : or_zero base_read ≡ base
  pub worker_is : or_else instance_read (or_else pm_read cluster) ≡ some worker
  pub generation_is : or_zero restart_read ≡ generation

fitting-ok : (n k : ℕ) → fitting n ≡ ok k → (k ≡ n) × (k ≤ 255)
unfolding fitting
fitting-ok n k e = ground arith

resolve-lane :
    (env : Environment) (cluster : Option ℕ) (base worker generation : ℕ)
    → HasLane env cluster base worker generation
    → resolve_sv2_process_namespace env cluster ≡ fitting (base + worker * 2 + generation % 2)
unfolding resolve_sv2_process_namespace ◌then_parsed◌ resolve_lane
resolve-lane env cluster base worker generation l = rw (
  l.parse_base, l.parse_instance, l.parse_pm, l.worker_is, l.parse_restart, l.base_is,
  l.generation_is,
)

-- Processes with the same base get different namespaces when their worker indices differ or when
-- their restart generations differ in parity, and each namespace is a byte.
pub lanes_apart :
    (env env' : Environment) (cluster cluster' : Option ℕ)
    (base worker worker' generation generation' n n' : ℕ)
    → HasLane env cluster base worker generation
    → HasLane env' cluster' base worker' generation'
    → (worker ≢ worker') ⊎ (generation % 2 ≢ generation' % 2)
    → resolve_sv2_process_namespace env cluster ≡ ok n
    → resolve_sv2_process_namespace env' cluster' ≡ ok n'
    → (n ≢ n') × (n ≤ 255) × (n' ≤ 255)
lanes_apart env env' cluster cluster' base w w' g g' n n' l l' apart e e' =
    let (a, fits) =
      fitting-ok (base + w * 2 + g % 2) n (sym (resolve-lane env cluster base w g l) ∙ e) in
    let (a', fits') =
      fitting-ok (base + w' * 2 + g' % 2) n'
        (sym (resolve-lane env' cluster' base w' g' l') ∙ e') in
    (elim apart [ inl h ↦ λ same. h (omega arith) | inr h ↦ λ same. h (omega arith) ], fits, fits')
