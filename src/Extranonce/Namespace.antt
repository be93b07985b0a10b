-- ===== src/Extranonce/Namespace.antt =====
-- The byte that namespaces the prefixes of a process: resolveSv2ProcessNamespace of
-- src/models/sv2/sv2-extranonce-manager.ts. A variable of the environment is its code units.
use lido.Base.{
  ℕ, ◌+◌, ◌-◌, ◌*◌, ◌%◌, ◌^◌, Bool, true, false, ◌&&◌, ◌||◌, Option, none, some, List, [], ◌∷◌, ltb,
  leb, ◌==◌, if◌then◌else◌,
}
use lido.Outcome.{Result, ok, err, bad_argument}

abbrev pub Chars : Type 0
Chars = List ℕ

-- The variables that are read; `none` is undefined.
pub record Environment : Type 0 where
  pub sv2_extranonce_namespace_base : Option Chars
  pub node_app_instance : Option Chars
  pub pm_id : Option Chars
  pub restart_time : Option Chars
  pub pm2_enabled : Option Chars

abbrev pub sv2_max_process_namespace : ℕ
sv2_max_process_namespace = 0xff

-- What String.prototype.trim removes.
unfoldable pub is_space : ℕ → Bool
is_space c =
    leb 9 c && leb c 13
    || c == 32
    || c == 0xa0
    || c == 0x1680
    || leb 0x2000 c && leb c 0x200a
    || c == 0x2028
    || c == 0x2029
    || c == 0x202f
    || c == 0x205f
    || c == 0x3000
    || c == 0xfeff

unfoldable pub trim_start : Chars → Chars
trim_start [] = []
trim_start (c ∷ cs) = if is_space c then trim_start cs else c ∷ cs

unfoldable pub trim_end : Chars → Chars
trim_end [] = []
trim_end (c ∷ cs) = elim (trim_end cs) [
  | [] ↦ if is_space c then [] else c ∷ []
  | d ∷ ds ↦ c ∷ d ∷ ds
]

unfoldable pub trim : Chars → Chars
trim cs = trim_end (trim_start cs)

-- /^\d+$/ on a text that is not empty.
unfoldable pub all_digits : Chars → Bool
all_digits [] = true
all_digits (c ∷ cs) = leb 48 c && leb c 57 && all_digits cs

-- Number of a text of digits; the integers above 2^53 - 1 that it rounds are not safe before nor after.
unfoldable pub decimal : ℕ → Chars → ℕ
decimal acc [] = acc
decimal acc (c ∷ cs) = decimal (acc * 10 + (c - 48)) cs

unfoldable pub parse_trimmed : Chars → Result (Option ℕ)
parse_trimmed [] = ok none
parse_trimmed (c ∷ cs) =
    if all_digits (c ∷ cs)
    then (if ltb (2 ^ 53 - 1) (decimal 0 (c ∷ cs))
        then err bad_argument
        else ok (some (decimal 0 (c ∷ cs))))
    else err bad_argument

-- Every caller passes `optional` as true.
unfoldable pub parse_namespace_integer : Option Chars → Result (Option ℕ)
parse_namespace_integer none = ok none
parse_namespace_integer (some value) = parse_trimmed (trim value)

-- value?.toLowerCase() === 'true': no code unit beside T, R, U and E has these as its lower case.
unfoldable pub lower : ℕ → ℕ
lower c = if leb 65 c && leb c 90 then c + 32 else c

unfoldable pub is_true : Option Chars → Bool
is_true (some (t ∷ r ∷ u ∷ e ∷ [])) =
    lower t == 116 && lower r == 114 && lower u == 117 && lower e == 101
is_true _ = false

-- value ?? fallback
unfoldable pub or_else : Option ℕ → Option ℕ → Option ℕ
or_else none o = o
or_else (some n) o = some n

unfoldable pub or_zero : Option ℕ → ℕ
or_zero none = 0
or_zero (some n) = n

-- assertNamespaceFits, and the return behind it.
unfoldable pub fitting : ℕ → Result ℕ
fitting namespace =
    if ltb sv2_max_process_namespace namespace then err bad_argument else ok namespace

infixl 5 ◌then_parsed◌
unfoldable pub ◌then_parsed◌ : Result (Option ℕ) → (Option ℕ → Result ℕ) → Result ℕ
r then_parsed f = elim r [ ok n ↦ f n | err e ↦ err e ]

-- The part behind `workerIndex`.
unfoldable pub resolve_lane : Environment → ℕ → Option ℕ → Result ℕ
resolve_lane env base none = if is_true env.pm2_enabled then err bad_argument else fitting base
resolve_lane env base (some worker_index) =
    parse_namespace_integer env.restart_time then_parsed λ restart_time.
    fitting (base + worker_index * 2 + or_zero restart_time % 2)

-- The index that the cluster gives is a natural number.
unfoldable pub resolve_sv2_process_namespace : Environment → Option ℕ → Result ℕ
resolve_sv2_process_namespace env cluster_worker_index =
    parse_namespace_integer env.sv2_extranonce_namespace_base then_parsed λ base.
    parse_namespace_integer env.node_app_instance then_parsed λ node_app_instance.
    parse_namespace_integer env.pm_id then_parsed λ pm_id.
    resolve_lane env (or_zero base) (or_else node_app_instance (or_else pm_id cluster_worker_index))
