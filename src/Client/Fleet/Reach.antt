-- ===== src/Client/Fleet/Reach.antt =====
-- The sessions of src/models/StratumV2Client.ts on one service, as a transition system.
use lido.Base.{
  ℕ, ◌≡◌, ◌≢◌, sym, ap, ◌∙◌, subst, false, Option, none, some, [], ◌==◌, ==_iff, if◌then◌else◌,
  Bytes, arith, inl, inr, Option-cases, Bool-cases, ◌⊎◌,
}
use lido.Outcome.{ok}
use lido.Node.{Node}
use lido.Messages.Channel.{OpenStandardMiningChannel, UpdateChannel}
use lido.Messages.Extended.{OpenExtendedMiningChannel, SubmitSharesExtended}
use lido.Messages.Work.{SubmitSharesStandard}
use lido.Extranonce.Allocation.{IsManager}
use lido.Extranonce.Prefixes.{get_prefix_unique}
use lido.Client.{Client, Hashing, Answer, lookup, submit_shares_standard, submit_shares_extended}
use lido.Client.Closing.{Service, handle_close_channel}
use lido.Client.Shares.{standard_share_channels}
use lido.Client.ExtendedShares.{extended_share_channels}
use lido.Client.Orders.{JobTemplate, Mining, enqueue_canonical_job}
use lido.Client.Opening.{
  Rules, Handled, destroy, handle_open_standard_mining_channel, handle_open_extended_mining_channel,
}
use lido.Client.Updating.{handle_update_channel}
use lido.Client.Fleet.{prefix_in, prefix_of, Sound, Fair, Fair-kept}
use lido.Client.Pacing.{Pacing, check_difficulty}
use lido.Client.Fleet.Paces.{check_difficulty-Fair}
use lido.Client.Fleet.Moves.{destroy-Fair, close_channel-Fair}
use lido.Client.Fleet.Handlers.{
  open_standard-Fair, open_extended-Fair, update_channel-Fair, enqueue_canonical_job-Fair,
}

-- A session that is not open yet, or closed, is a client without channels.
pub record Fleet (T D : Type 0) : Type 0 where
  pub clients : ℕ → Client T D
  pub service : Service

abbrev pub put : {T D : Type 0} → Fleet T D → ℕ → Client T D → Service → Fleet T D
put f i c service = record { clients = λ j. if j == i then c else f.clients j; service = service }

abbrev pub put_handled : {T D : Type 0} → Fleet T D → ℕ → Handled T D → Fleet T D
put_handled f i h = put f i h.client h.service

module _ ⦃node : Node⦄ {R T D : Type 0} (rules : Rules node D) (mining : Mining R T D)
    (hashing : Hashing T D) where
  -- One handler of one session, with any message and any latest job, or a job sent to the session, or
  -- its end.
  pub data Step : Fleet T D → Fleet T D → Type 0 where
    opens_standard :
        (f : Fleet T D) (i : ℕ) (msg : OpenStandardMiningChannel) (latest : Option (JobTemplate R))
        → Step f (
            put_handled f i
              (handle_open_standard_mining_channel rules mining msg latest (f.clients i) f.service))
    opens_extended :
        (f : Fleet T D) (i : ℕ) (msg : OpenExtendedMiningChannel) (latest : Option (JobTemplate R))
        → Step f (
            put_handled f i
              (handle_open_extended_mining_channel rules mining msg latest (f.clients i) f.service))
    updates :
        (f : Fleet T D) (i : ℕ) (msg : UpdateChannel)
        → Step f (put f i (handle_update_channel rules mining msg (f.clients i)).1 f.service)
    closes :
        (f : Fleet T D) (i k : ℕ)
        → Step f (
            put f i
              (handle_close_channel k (f.clients i) f.service).0
              (handle_close_channel k (f.clients i) f.service).1)
    gets_job :
        (f : Fleet T D) (i : ℕ) (t : JobTemplate R)
        → Step f (put f i (enqueue_canonical_job mining t (f.clients i)).1 f.service)
    submits_standard :
        (f : Fleet T D) (i : ℕ) (s : SubmitSharesStandard) (a : Answer) (c : Client T D)
        → submit_shares_standard hashing s (f.clients i) ≡ ok (a, c)
        → Step f (put f i c f.service)
    submits_extended :
        (f : Fleet T D) (i : ℕ) (s : SubmitSharesExtended) (a : Answer) (c : Client T D)
        → submit_shares_extended hashing s (f.clients i) ≡ ok (a, c)
        → Step f (put f i c f.service)
    paces :
        (f : Fleet T D) (i : ℕ) (pacing : Pacing D) (latest : Option (JobTemplate R))
        → Step f (put_handled f i (check_difficulty pacing mining latest (f.clients i) f.service))
    ends :
        (f : Fleet T D) (i : ℕ)
        → Step f (put f i (destroy (f.clients i) f.service).0 (destroy (f.clients i) f.service).1)

  -- From sessions without channels and a new manager, by steps in any order.
  pub data Reachable : Fleet T D → Type 0 where
    starts :
        (f : Fleet T D)
        → ((i : ℕ) → (f.clients i).channels ≡ [])
        → IsManager f.service.extranonce_manager
        → Reachable f
    goes_on : {f g : Fleet T D} → Reachable f → Step f g → Reachable g

  -- What holds of all sessions together: a channel number belongs to one session.
  pub record IsFleet (f : Fleet T D) : Type 0 where
    pub manager : IsManager f.service.extranonce_manager
    pub sound : (i : ℕ) → Sound (f.clients i) f.service
    pub apart :
        (i j l : ℕ) (p q : Bytes)
        → prefix_of (f.clients i) l ≡ some p
        → prefix_of (f.clients j) l ≡ some q
        → i ≡ j

  put_here :
      (f : Fleet T D) (i j : ℕ) (c : Client T D) (s : Service) → j ≡ i → (put f i c s).clients j ≡ c
  put_here f i j c s e = ap (λ b. if b then c else f.clients j) ((==_iff j i).1 e)

  put_there :
      (f : Fleet T D) (i j : ℕ) (c : Client T D) (s : Service)
      → j ≢ i
      → (put f i c s).clients j ≡ f.clients j
  put_there f i j c s h =
      let off : (j == i) ≡ false = ground arith in ap (λ b. if b then c else f.clients j) off

  Fair-IsFleet :
      (f : Fleet T D) (i : ℕ) (c : Client T D) (s : Service)
      → IsFleet f
      → Fair (f.clients i) f.service c s
      → IsFleet (put f i c s)
  Fair-IsFleet f i c s y g = record {
    manager = g.manager;
    sound = λ j. elim (Bool-cases (j == i)) [
      | inl at ↦ subst (λ x. Sound x s) (sym (put_here f i j c s ((==_iff j i).0 at))) g.sound
      | inr off ↦
          let off' : j ≢ i = ground arith in
          subst (λ x. Sound x s) (sym (put_there f i j c s off'))
            (record {
              owned = λ l p e.
                  g.others l (not_mine j l p off' e) ((y.sound j).below l p e)
                  ∙ (y.sound j).owned l p e;
              below = λ l p e. let h = (y.sound j).below l p e in omega (arith, h, g.grows);
            })
    ];
    apart = apart;
  }
    where
      not_mine :
          (j l : ℕ) (p : Bytes)
          → j ≢ i
          → prefix_of (f.clients j) l ≡ some p
          → prefix_of (f.clients i) l ≡ none
      not_mine j l p off e = elim (Option-cases (prefix_of (f.clients i) l)) [
        | inl gone ↦ gone
        | inr (q, there) ↦ absurd (off (y.apart j i l p q e there))
      ]

      clash :
          (j l : ℕ) (p q : Bytes)
          → j ≢ i
          → prefix_of c l ≡ some p
          → prefix_of (f.clients j) l ≡ some q
          → i ≡ j
      clash j l p q off e e' = elim (g.gained l p e) [
        | inl old ↦ y.apart i j l p q old e'
        | inr new ↦ let h = (y.sound j).below l q e' in absurd (omega (arith, h, new))
      ]

      at_i :
          (j l : ℕ) (p : Bytes)
          → j ≡ i
          → prefix_of ((put f i c s).clients j) l ≡ some p
          → prefix_of c l ≡ some p
      at_i j l p at e = ap (λ x. prefix_of x l) (sym (put_here f i j c s at)) ∙ e

      off_i :
          (j l : ℕ) (p : Bytes)
          → j ≢ i
          → prefix_of ((put f i c s).clients j) l ≡ some p
          → prefix_of (f.clients j) l ≡ some p
      off_i j l p off e = ap (λ x. prefix_of x l) (sym (put_there f i j c s off)) ∙ e

      same_or : (j : ℕ) → (j ≡ i) ⊎ (j ≢ i)
      same_or j = elim (Bool-cases (j == i)) [
        | inl at ↦ inl ((==_iff j i).0 at)
        | inr off ↦ inr (ground arith)
      ]

      apart :
          (j k l : ℕ) (p q : Bytes)
          → prefix_of ((put f i c s).clients j) l ≡ some p
          → prefix_of ((put f i c s).clients k) l ≡ some q
          → j ≡ k
      apart j k l p q e e' = elim (same_or j) [
        | inl jat ↦ elim (same_or k) [
          | inl kat ↦ jat ∙ sym kat
          | inr koff ↦ jat ∙ clash k l p q koff (at_i j l p jat e) (off_i k l q koff e')
        ]
        | inr joff ↦ elim (same_or k) [
          | inl kat ↦ sym (clash j l q p joff (at_i k l q kat e') (off_i j l p joff e)) ∙ sym kat
          | inr koff ↦ y.apart j k l p q (off_i j l p joff e) (off_i k l q koff e')
        ]
      ]

  Step-IsFleet : {f g : Fleet T D} → Step f g → IsFleet f → IsFleet g
  Step-IsFleet (opens_standard f i msg latest) y =
      Fair-IsFleet f i _ _ y
        (open_standard-Fair rules mining msg latest (f.clients i) f.service y.manager (y.sound i))
  Step-IsFleet (opens_extended f i msg latest) y =
      Fair-IsFleet f i _ _ y
        (open_extended-Fair rules mining msg latest (f.clients i) f.service y.manager (y.sound i))
  Step-IsFleet (updates f i msg) y =
      Fair-IsFleet f i _ _ y
        (update_channel-Fair rules mining msg (f.clients i) f.service y.manager (y.sound i))
  Step-IsFleet (closes f i k) y =
      Fair-IsFleet f i _ _ y (close_channel-Fair k (f.clients i) f.service y.manager (y.sound i))
  Step-IsFleet (gets_job f i t) y =
      Fair-IsFleet f i _ _ y
        (enqueue_canonical_job-Fair rules mining t (f.clients i) f.service y.manager (y.sound i))
  Step-IsFleet (submits_standard f i s a c h) y = Fair-IsFleet f i _ _ y (
      Fair-kept (f.clients i) c f.service y.manager (y.sound i) (λ l.
        ap (λ x. prefix_in (lookup x l)) (standard_share_channels hashing s (f.clients i) c a h)))
  Step-IsFleet (submits_extended f i s a c h) y = Fair-IsFleet f i _ _ y (
      Fair-kept (f.clients i) c f.service y.manager (y.sound i) (λ l.
        ap (λ x. prefix_in (lookup x l)) (extended_share_channels hashing s (f.clients i) c a h)))
  Step-IsFleet (paces f i pacing latest) y =
      Fair-IsFleet f i _ _ y
        (check_difficulty-Fair pacing mining latest (f.clients i) f.service y.manager (y.sound i))
  Step-IsFleet (ends f i) y =
      Fair-IsFleet f i _ _ y (destroy-Fair (f.clients i) f.service y.manager)

  -- In every fleet that steps in any order can reach, the manager is well formed, every channel has the
  -- prefix that the manager recorded for it and a number below the counter, and no number is in two
  -- sessions.
  pub Reachable-IsFleet : (f : Fleet T D) → Reachable f → IsFleet f
  Reachable-IsFleet f r = go r
    where
      empty : (c : Client T D) (l : ℕ) (p : Bytes) → c.channels ≡ [] → prefix_of c l ≢ some p
      empty c l p none_yet e =
          unfold lookup in cc (sym (ap (λ x. prefix_in (lookup x l)) none_yet) ∙ e)

      go : {g : Fleet T D} → Reachable g → IsFleet g
      go (starts g no_channels v) = record {
        manager = v;
        sound = λ i. record {
          owned = λ l p e. absurd (empty (g.clients i) l p (no_channels i) e);
          below = λ l p e. absurd (empty (g.clients i) l p (no_channels i) e);
        };
        apart = λ i j l p q e e'. absurd (empty (g.clients i) l p (no_channels i) e);
      }
      go (goes_on r step) = Step-IsFleet step (go r)

  -- In every fleet that steps in any order can reach, two channels of whatever sessions that have the
  -- same extranonce prefix are one channel of one session.
  pub prefixes_apart :
      (f : Fleet T D) (i j k l : ℕ) (p : Bytes)
      → Reachable f
      → prefix_of (f.clients i) k ≡ some p
      → prefix_of (f.clients j) l ≡ some p
      → (i ≡ j) × (k ≡ l)
  prefixes_apart f i j k l p r e e' =
      let y = Reachable-IsFleet f r in
      let same : k ≡ l =
        get_prefix_unique f.service.extranonce_manager k l p y.manager ((y.sound i).owned k p e)
          ((y.sound j).owned l p e') in
      (y.apart i j l p p (ap (prefix_of (f.clients i)) (sym same) ∙ e) e', same)
