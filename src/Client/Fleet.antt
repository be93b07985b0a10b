-- ===== src/Client/Fleet.antt =====
-- All sessions of src/models/StratumV2Client.ts on one src/services/stratum-v2.service.ts: the steps
-- that they take in any order, and the extranonce prefixes of their channels.
pub mod Moves
pub mod Handlers
pub mod Paces
pub mod Reach
use lido.Base.{
  ℕ, ◌+◌, ◌<◌, ◌≤◌, ◌≡◌, ◌≢◌, refl, sym, ap, ◌∙◌, subst, Bool, true, false, not, Option, none, some,
  List, [], ◌∷◌, ◌==◌, ==_iff, ltb, if◌then◌else◌, Bytes, arith, inl, inr, Option-cases, Bool-cases,
  ◌⊎◌, length,
}
use lido.Outcome.{Result, Result-cases, ok, err}
use lido.Node.{Node}
use lido.Extranonce.{Manager, allocate, get_prefix, release}
use lido.Extranonce.Allocation.{IsManager, release-IsManager}
use lido.Extranonce.Guarantees.{allocate-IsManager, allocate_result}
use lido.Extranonce.Release.{release_result}
use lido.Extranonce.Prefixes.{get_prefix_unique}
use lido.Client.{Client, Channel, lookup, allocate_job_id, trim_channel_jobs}
use lido.Client.Closing.{
  Service, get_next_channel_id, release_extranonce_prefix, handle_close_channel, close_found,
  delete_key,
}
use lido.Client.Orders.{
  JobTemplate, Mining, set_key, lookup-set_key, lookup-set_key_other, send_jobs_for_channel,
  send_if_any, send_if_ready, send_jobs, enqueue_canonical_job, with_job, channel_job,
}
use lido.Client.Opening.{Rules, Handled, destroy, release_all, with_manager}

module _ {T D : Type 0} where
  abbrev pub prefix_in : Option (Channel T D) → Option Bytes
  prefix_in none = none
  prefix_in (some channel) = some channel.extranonce_prefix

  -- The extranonce prefix of a channel of the client.
  abbrev pub prefix_of : Client T D → ℕ → Option Bytes
  prefix_of c channel_id = prefix_in (lookup c.channels channel_id)

  -- A channel that is written back with its prefix changes no prefix.
  pub set_key-prefix :
      (channels : List (ℕ × Channel T D)) (k l : ℕ) (channel : Channel T D)
      → prefix_in (lookup channels k) ≡ some channel.extranonce_prefix
      → prefix_in (lookup (set_key channels k channel) l) ≡ prefix_in (lookup channels l)
  set_key-prefix channels k l channel h = elim (Bool-cases (l == k)) [
    | inl same ↦
        let e : l ≡ k = (==_iff l k).0 same in
        subst
          (λ x. prefix_in (lookup (set_key channels k channel) x) ≡ prefix_in (lookup channels x))
          (sym e) (ap prefix_in (lookup-set_key channels k channel) ∙ sym h)
    | inr other ↦ ap prefix_in (lookup-set_key_other channels k l channel (ground arith))
  ]

  module _ {R : Type 0} (mining : Mining R T D) where
    -- Sending a job to a channel of the client changes no prefix.
    pub send_jobs_for_channel-prefix :
        (k l : ℕ) (channel : Channel T D) (t : JobTemplate R) (c : Client T D)
        → prefix_of c k ≡ some channel.extranonce_prefix
        → prefix_of (send_jobs_for_channel mining k channel t c).1 l ≡ prefix_of c l
    unfolding send_jobs_for_channel allocate_job_id with_job trim_channel_jobs
    send_jobs_for_channel-prefix k l channel t c h = set_key-prefix c.channels k l _ h

    pub send_if_any-prefix :
        (latest : Option (JobTemplate R)) (k l : ℕ) (channel : Channel T D) (c : Client T D)
        → prefix_of c k ≡ some channel.extranonce_prefix
        → prefix_of (send_if_any mining latest k channel c).1 l ≡ prefix_of c l
    unfolding send_if_any
    send_if_any-prefix none k l channel c h = refl
    send_if_any-prefix (some t) k l channel c h = send_jobs_for_channel-prefix k l channel t c h

    pub send_jobs-prefix :
        (channels : List (ℕ × Channel T D)) (t : JobTemplate R) (c : Client T D) (l : ℕ)
        → prefix_of (send_jobs mining channels t c).1 l ≡ prefix_of c l
    unfolding send_jobs send_if_ready
    send_jobs-prefix [] t c l = refl
    send_jobs-prefix ((k, _) ∷ channels) t c l =
        send_jobs-prefix channels t _ l ∙ one (lookup c.channels k) refl
      where
        one :
            (found : Option (Channel T D))
            → lookup c.channels k ≡ found
            → prefix_of (send_if_ready mining k t c found).1 l ≡ prefix_of c l
        one none e = unfold send_if_ready in refl
        one (some channel) e = unfold send_if_ready in go channel.ready_for_jobs
          where
            go :
                (b : Bool)
                → prefix_of (if b then send_jobs_for_channel mining k channel t c else ([], c)).1 l
                  ≡ prefix_of c l
            go true = send_jobs_for_channel-prefix k l channel t c (ap prefix_in e)
            go false = refl

  -- The channels of a client have the prefixes that the manager recorded for them, and numbers that
  -- were given out.
  pub record Sound (c : Client T D) (service : Service) : Type 0 where
    pub owned :
        (l : ℕ) (p : Bytes)
        → prefix_of c l ≡ some p
        → get_prefix l service.extranonce_manager ≡ some p
    pub below : (l : ℕ) (p : Bytes) → prefix_of c l ≡ some p → l < service.channel_id_counter

  -- What a handler of one client may do: its own channels stay sound, a channel that it gains has a
  -- new number, and the prefixes of other clients' channels stay.
  pub record Fair (c : Client T D) (service : Service) (c' : Client T D) (service' : Service)
      : Type 0 where
    pub manager : IsManager service'.extranonce_manager
    pub sound : Sound c' service'
    pub grows : service.channel_id_counter ≤ service'.channel_id_counter
    pub others :
        (l : ℕ)
        → prefix_of c l ≡ none
        → l < service.channel_id_counter
        → get_prefix l service'.extranonce_manager ≡ get_prefix l service.extranonce_manager
    pub gained :
        (l : ℕ) (p : Bytes)
        → prefix_of c' l ≡ some p
        → (prefix_of c l ≡ some p) ⊎ (service.channel_id_counter ≤ l)

  pub Fair-kept :
      (c c' : Client T D) (service : Service)
      → IsManager service.extranonce_manager
      → Sound c service
      → ((l : ℕ) → prefix_of c' l ≡ prefix_of c l)
      → Fair c service c' service
  Fair-kept c c' service v y same = record {
    manager = v;
    sound = record {
      owned = λ l p e. y.owned l p (sym (same l) ∙ e);
      below = λ l p e. y.below l p (sym (same l) ∙ e);
    };
    grows = omega arith;
    others = λ l e h. refl;
    gained = λ l p e. inl (sym (same l) ∙ e);
  }

  pub Fair-trans :
      (a b c : Client T D) (s t u : Service) → Fair a s b t → Fair b t c u → Fair a s c u
  Fair-trans a b c s t u f g = record {
    manager = g.manager;
    sound = g.sound;
    grows = omega (arith, f.grows, g.grows);
    others = λ l e h. g.others l (still_none l e h) (omega (arith, f.grows)) ∙ f.others l e h;
    gained = λ l p e. elim (g.gained l p e) [
      | inl old ↦ f.gained l p old
      | inr new ↦ inr (omega (arith, f.grows))
    ];
  }
    where
      still_none : (l : ℕ) → prefix_of a l ≡ none → l < s.channel_id_counter → prefix_of b l ≡ none
      still_none l e h = elim (Option-cases (prefix_of b l)) [
        | inl gone ↦ gone
        | inr (p, there) ↦ elim (f.gained l p there) [
          | inl old ↦ absurd (cc (sym e ∙ old))
          | inr new ↦ absurd (omega (arith, h, new))
        ]
      ]

  pub Fair-released :
      (c c' : Client T D) (service : Service) (k : ℕ)
      → IsManager service.extranonce_manager
      → Sound c service
      → prefix_of c' k ≡ none
      → ((l : ℕ) → l ≢ k → prefix_of c' l ≡ prefix_of c l)
      → (b : Bytes) × (prefix_of c k ≡ some b)
      → Fair c service c' (release_extranonce_prefix k service)
  unfolding release_extranonce_prefix
  Fair-released c c' service k v y gone same (b, there) = record {
    manager = release-IsManager k service.extranonce_manager v;
    sound = record {
      owned = λ l p e. kept l (other l p e) ∙ y.owned l p (sym (same l (other l p e)) ∙ e);
      below = λ l p e. y.below l p (sym (same l (other l p e)) ∙ e);
    };
    grows = omega arith;
    others = λ l e h. kept l (λ q. absurd (cc (sym e ∙ ap (prefix_of c) q ∙ there)));
    gained = λ l p e. inl (sym (same l (other l p e)) ∙ e);
  }
    where
      kept :
          (l : ℕ)
          → l ≢ k
          → get_prefix l (release k service.extranonce_manager)
            ≡ get_prefix l service.extranonce_manager
      kept l h = (release_result k l service.extranonce_manager v h).1

      other : (l : ℕ) (p : Bytes) → prefix_of c' l ≡ some p → l ≢ k
      other l p e q = absurd (cc (sym gone ∙ ap (prefix_of c') (sym q) ∙ e))
