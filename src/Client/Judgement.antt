-- ===== src/Client/Judgement.antt =====
-- The judgement that both handlers of submitted shares share in src/models/StratumV2Client.ts.
use lido.Base.{
  ℕ, ◌≤◌, ◌≡◌, refl, sym, ap, ◌∙◌, ◌⊎◌, inl, inr, Bool, true, false, Bool-cases, [], ◌∷◌, arith,
  length, Bytes, leb, le_value,
}
use lido.Outcome.{Result, ok, err, ok-injective}
use lido.Difficulty.{meets_target}
use lido.Difficulty.Targets.{meets_target_iff}
use lido.Client.{
  Client, Channel, ChannelJob, Key, Answer, rejected, accepted, duplicate_share, invalid_version,
  Hashing, Is32Bytes, same_key, has_key, remember_submission, max_submission_hashes, judge, weigh,
  verdict, changes_consensus_bits,
}

pub same_key_refl : (k : Key) → same_key k k ≡ true
unfolding same_key
same_key_refl [] = refl
same_key_refl (x ∷ xs) = ground (arith, same_key_refl xs)

module _ {T D : Type 0} where
  pub has_key-remember :
      (k : Key) (c : Client T D) → has_key (remember_submission k c).submission_hashes k ≡ true
  unfolding has_key remember_submission
  has_key-remember k c =
      elim (Bool-cases (leb max_submission_hashes (length c.submission_hashes))) [
        | inl full ↦ rw (full, same_key_refl k)
        | inr room ↦ rw (room, same_key_refl k)
      ]

  pub length-remember :
      (k : Key) (c : Client T D)
      → length (remember_submission k c).submission_hashes ≤ max_submission_hashes
  unfolding remember_submission
  length-remember k c = ground arith

  pub channels-remember :
      (k : Key) (c : Client T D) → (remember_submission k c).channels ≡ c.channels
  unfolding remember_submission
  channels-remember k c = refl

module _ {T D : Type 0} (hashing : Hashing T D) where
  verdict_keeps :
      (c : Client T D) (n : Bool) (m k : Result Bool) (a : Answer) (c' : Client T D)
      → verdict hashing c n m k ≡ ok (a, c')
      → c' ≡ c
  unfolding verdict
  verdict_keeps c n (err e) k a c' h = cc
  verdict_keeps c n (ok m) (err e) a c' h = cc
  verdict_keeps c n (ok m) (ok k) a c' h = sym (ap (λ x. x.1) (ok-injective h))

  pub judge_again :
      (key : Key) (v : ℕ) (channel : Channel T D) (job : ChannelJob T) (hash : Bytes)
      (c : Client T D)
      → has_key c.submission_hashes key ≡ true
      → judge hashing key v channel job hash c ≡ ok (rejected duplicate_share, c)
  unfolding judge
  judge_again key v channel job hash c h = rw h

  -- A judgement other than that of a duplicate leaves the key behind.
  pub judge_ends :
      (key : Key) (v : ℕ) (channel : Channel T D) (job : ChannelJob T) (hash : Bytes)
      (c : Client T D) (a : Answer) (c' : Client T D)
      → judge hashing key v channel job hash c ≡ ok (a, c')
      → ((a ≡ rejected duplicate_share) × (c' ≡ c)) ⊎ (c' ≡ remember_submission key c)
  judge_ends key v channel job hash c a c' h = elim (Bool-cases (has_key c.submission_hashes key)) [
    | inl old ↦
        let e = ok-injective (sym h ∙ judge_again key v channel job hash c old) in
        inl (ap (λ x. x.0) e, ap (λ x. x.1) e)
    | inr new ↦ elim (Bool-cases (changes_consensus_bits v job.version)) [
      | inl changed ↦
          let e : judge hashing key v channel job hash c
              ≡ ok (rejected invalid_version, remember_submission key c) =
            unfold judge in rw (new, changed) in
          inr (ap (λ x. x.1) (ok-injective (sym h ∙ e)))
      | inr kept ↦
          let e : judge hashing key v channel job hash c
              ≡ weigh hashing channel job hash (remember_submission key c) =
            unfold judge in rw (new, kept) in
          inr (unfold weigh in verdict_keeps _ _ _ _ a c' (sym e ∙ h))
    ]
  ]

  verdict_meets :
      (c : Client T D) (n : Bool) (m k : Result Bool) (c' : Client T D)
      → verdict hashing c n m k ≡ ok (accepted false, c')
      → m ≡ ok true
  unfolding verdict
  verdict_meets c n (err e) k c' h = cc
  verdict_meets c n (ok m) (err e) c' h = cc
  verdict_meets c n (ok true) (ok k) c' h = refl
  verdict_meets c true (ok false) (ok true) c' h = cc
  verdict_meets c false (ok false) (ok true) c' h = cc
  verdict_meets c true (ok false) (ok false) c' h = cc
  verdict_meets c false (ok false) (ok false) c' h = cc

  judge_weighed :
      (key : Key) (v : ℕ) (channel : Channel T D) (job : ChannelJob T) (hash : Bytes)
      (c : Client T D) (b : Bool) (c' : Client T D)
      → judge hashing key v channel job hash c ≡ ok (accepted b, c')
      → weigh hashing channel job hash (remember_submission key c) ≡ ok (accepted b, c')
  unfolding judge
  judge_weighed key v channel job hash c b c' h =
      elim (Bool-cases (has_key c.submission_hashes key)) [
        | inl old ↦ ground arith
        | inr new ↦ elim (Bool-cases (changes_consensus_bits v job.version)) [
          | inl changed ↦ ground arith
          | inr kept ↦ ground arith
        ]
      ]

  -- A share that is accepted without being a block has met the channel's target.
  pub judge_meets :
      (key : Key) (v : ℕ) (channel : Channel T D) (job : ChannelJob T) (hash : Bytes)
      (c c' : Client T D)
      → Is32Bytes hash
      → judge hashing key v channel job hash c ≡ ok (accepted false, c')
      → le_value hash ≤ le_value (hashing.difficulty_to_target channel.session_difficulty)
  unfolding weigh
  judge_meets key v channel job hash c c' (bytes, size) h =
      let target = hashing.difficulty_to_target channel.session_difficulty in
      let (target_bytes, target_size) =
        hashing.difficulty_to_target-Is32Bytes channel.session_difficulty in
      let (meets, e, same) = meets_target_iff hash target bytes target_bytes size target_size in
      let met : meets_target hash target ≡ ok true =
        verdict_meets (remember_submission key c) _ (meets_target hash target) _ c'
          (judge_weighed key v channel job hash c false c' h) in
      same.0 (ok-injective (sym e ∙ met))

  -- Judging a share leaves the channels as they are.
  pub judge_channels :
      (key : Key) (v : ℕ) (channel : Channel T D) (job : ChannelJob T) (hash : Bytes)
      (c : Client T D) (a : Answer) (c' : Client T D)
      → judge hashing key v channel job hash c ≡ ok (a, c')
      → c'.channels ≡ c.channels
  judge_channels key v channel job hash c a c' h =
      elim (judge_ends key v channel job hash c a c' h) [
        | inl (_, e) ↦ ap (λ x. x.channels) e
        | inr e ↦ ap (λ x. x.channels) e ∙ channels-remember key c
      ]

  verdict_elsewhere :
      (c d : Client T D) (n : Bool) (m k : Result Bool) (a : Answer) (c' : Client T D)
      → verdict hashing c n m k ≡ ok (a, c')
      → verdict hashing d n m k ≡ ok (a, d)
  unfolding verdict
  verdict_elsewhere c d n (err e) k a c' h = cc
  verdict_elsewhere c d n (ok m) (err e) a c' h = cc
  verdict_elsewhere c d n (ok m) (ok k) a c' h = ap (λ x. ok (x.0, d)) (ok-injective h)

  judge_version :
      (key : Key) (v : ℕ) (channel : Channel T D) (job : ChannelJob T) (hash : Bytes)
      (c : Client T D) (b : Bool) (c' : Client T D)
      → judge hashing key v channel job hash c ≡ ok (accepted b, c')
      → changes_consensus_bits v job.version ≡ false
  unfolding judge
  judge_version key v channel job hash c b c' h =
      elim (Bool-cases (has_key c.submission_hashes key)) [
        | inl old ↦ ground arith
        | inr new ↦ ground arith
      ]

  -- Where a share is accepted, every client that does not remember it accepts it.
  pub judge_elsewhere :
      (key : Key) (v : ℕ) (channel : Channel T D) (job : ChannelJob T) (hash : Bytes)
      (c d : Client T D) (b : Bool) (c' : Client T D)
      → judge hashing key v channel job hash c ≡ ok (accepted b, c')
      → has_key d.submission_hashes key ≡ false
      → judge hashing key v channel job hash d ≡ ok (accepted b, remember_submission key d)
  judge_elsewhere key v channel job hash c d b c' h new =
      let kept = judge_version key v channel job hash c b c' h in
      let fresh : judge hashing key v channel job hash d
          ≡ weigh hashing channel job hash (remember_submission key d) =
        unfold judge in rw (new, kept) in
      fresh
      ∙ (unfold weigh in
          verdict_elsewhere (remember_submission key c) (remember_submission key d) _ _ _
            (accepted b) c' (judge_weighed key v channel job hash c b c' h))
