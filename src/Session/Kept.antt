-- ===== src/Session/Kept.antt =====
-- The set of submissions in src/models/StratumV1Client.ts: what keeps it, and what it refuses.
use lido.Base.{
  ℕ, ◌≡◌, refl, ◌⊎◌, inr, Bool, true, false, Option, none, some, List, if◌then◌else◌, Bytes,
}
use lido.Outcome.{Result, ok, err}
use lido.Client.{Units}
use lido.Numbers.{Numbers}
use lido.Mining.{Block}
use lido.Session.{
  Session, Entity, Socket, write, written, if_written, close_socket, destroy, destroy_unless,
  is_closed, delete_session,
}
use lido.Session.Credit.{
  Turn, create_entity, ensure_client_entity, with_counts, record_rejected, record_rejected_share,
  reject, count_accepted, beat, raise_best, forward_share, credit, submit_block, credit_block,
  is_due,
}
use lido.Session.Messages.{SubscriptionMessage, AuthorizationMessage, Reply, StratumErrorCode}

-- The remembered submissions, the two messages that a session waits for, the flag that it is
-- initialised, its extranonce and its difficulty.
abbrev pub Kept : Type 0 → Type 0
Kept N =
    List Units
    × Option SubscriptionMessage
    × Option (AuthorizationMessage N)
    × Bool
    × Option Units
    × N

module _ {N T : Type 0} where
  abbrev pub kept : Session N T → Kept N
  kept s = (
    s.submission_hashes, s.subscription, s.authorization, s.stratum_initialized, s.extra_nonce,
    s.session_difficulty,
  )

  -- These are still the same, or the session is over.
  abbrev pub Keeps : Kept N → Session N T → Type 0
  Keeps keys s = (kept s ≡ keys) ⊎ (s.destroyed ≡ true)

  delete_destroyed :
      (id : Option Units) (entity : Option (Entity N)) (s : Session N T)
      → (delete_session id entity s).destroyed ≡ s.destroyed
  unfolding delete_session
  delete_destroyed none entity s = refl
  delete_destroyed (some id) none s = refl
  delete_destroyed (some id) (some entity) s = refl

  destroy_destroyed_if :
      (b : Bool) (s : Session N T) → s.destroyed ≡ b → (destroy_unless b s).destroyed ≡ true
  unfolding destroy_unless
  destroy_destroyed_if true s e = e
  destroy_destroyed_if false s e = delete_destroyed s.extra_nonce s.entity _

  pub destroy_destroyed : (s : Session N T) → (destroy s).destroyed ≡ true
  unfolding destroy
  destroy_destroyed s = destroy_destroyed_if s.destroyed s refl

  pub close_destroyed : (s : Session N T) → (close_socket s).destroyed ≡ true
  unfolding close_socket
  close_destroyed s = destroy_destroyed _

  written-Keeps :
      (closed full delivered : Bool) (keys : Kept N) (r : Reply N) (s : Session N T)
      → Keeps keys s
      → Keeps keys (written closed full delivered r s).1
  unfolding written
  written-Keeps true full delivered keys r s h = inr (destroy_destroyed s)
  written-Keeps false true delivered keys r s h = inr (close_destroyed s)
  written-Keeps false false true keys r s h = h
  written-Keeps false false false keys r s h = inr (close_destroyed _)

  pub write-Keeps :
      (socket : Socket N) (keys : Kept N) (r : Reply N) (s : Session N T)
      → Keeps keys s
      → Keeps keys (write socket r s).1
  unfolding write
  write-Keeps socket keys r s h = written-Keeps (is_closed s) _ _ keys r s h

  pub if_written-Keeps :
      (keys : Kept N) (p : Bool × Session N T) (next : Session N T → Session N T)
      → Keeps keys p.1
      → ((s : Session N T) → Keeps keys s → Keeps keys (next s))
      → Keeps keys (if_written p next)
  unfolding if_written
  if_written-Keeps keys (true, s) next h step = step s h
  if_written-Keeps keys (false, s) next h step = h

  pub if_Keeps :
      (b : Bool) (keys : Kept N) (s t : Session N T)
      → Keeps keys s
      → Keeps keys t
      → Keeps keys (if b then s else t)
  if_Keeps true keys s t hs ht = hs
  if_Keeps false keys s t hs ht = ht

module _ ⦃numbers : Numbers⦄ {T : Type 0} where
  create-Keeps :
      (keys : Kept numbers.Number) (turn : Turn numbers.Number) (entity : Option _) (a : Option _)
      (s : Session numbers.Number T)
      → Keeps keys s
      → Keeps keys (create_entity turn entity a s)
  unfolding create_entity
  create-Keeps keys turn (some e) a s h = h
  create-Keeps keys turn none none s h = h
  create-Keeps keys turn none (some a) s h = h

  ensure-Keeps :
      (keys : Kept numbers.Number) (turn : Turn numbers.Number) (s : Session numbers.Number T)
      → Keeps keys s
      → Keeps keys (ensure_client_entity turn s)
  unfolding ensure_client_entity
  ensure-Keeps keys turn s h = create-Keeps keys turn s.entity s.authorization s h

  rejected-Keeps :
      (keys : Kept numbers.Number) (turn : Turn numbers.Number) (a : Option _) (t : Option _)
      (s : Session numbers.Number T)
      → Keeps keys s
      → Keeps keys (record_rejected turn a t s)
  unfolding record_rejected with_counts
  rejected-Keeps keys turn none t s h = h
  rejected-Keeps keys turn (some a) none s h = h
  rejected-Keeps keys turn (some a) (some t) s h = ensure-Keeps keys turn s h

  pub reject-Keeps :
      (keys : Kept numbers.Number) (socket : Socket numbers.Number) (turn : Turn numbers.Number)
      (id : Units) (code : StratumErrorCode) (s : Session numbers.Number T)
      → Keeps keys s
      → Keeps keys (reject socket turn id code s)
  unfolding reject record_rejected_share
  reject-Keeps keys socket turn id code s h =
      if_written-Keeps keys _ _ (write-Keeps socket keys _ s h)
        (λ s' h'. rejected-Keeps keys turn s'.authorization s'.statistics s' h')

  accepted-Keeps :
      (keys : Kept numbers.Number) (turn : Turn numbers.Number) (t : Option _)
      (s : Session numbers.Number T)
      → Keeps keys s
      → Keeps keys (count_accepted turn t s)
  unfolding count_accepted with_counts
  accepted-Keeps keys turn none s h = h
  accepted-Keeps keys turn (some t) s h = h

  beat-Keeps :
      (keys : Kept numbers.Number) (now : ℕ) (entity : Option _) (s : Session numbers.Number T)
      → Keeps keys s
      → Keeps keys (beat now entity s)
  unfolding beat
  beat-Keeps keys now none s h = h
  beat-Keeps keys now (some entity) s h = if_Keeps (is_due now entity.updated_at) keys _ _ h h

  raise-Keeps :
      (keys : Kept numbers.Number) (turn : Turn numbers.Number) (d : numbers.Number)
      (entity : Option _) (s : Session numbers.Number T)
      → Keeps keys s
      → Keeps keys (raise_best turn d entity s)
  unfolding raise_best
  raise-Keeps keys turn d none s h = h
  raise-Keeps keys turn d (some entity) s h = if_Keeps _ keys _ _ h h

  forward-Keeps :
      (keys : Kept numbers.Number) (minimum : Option _) (d : numbers.Number) (header : Bytes)
      (s : Session numbers.Number T)
      → Keeps keys s
      → Keeps keys (forward_share minimum d header s)
  unfolding forward_share
  forward-Keeps keys none d header s h = h
  forward-Keeps keys (some minimum) d header s h = if_Keeps _ keys _ _ h h

  pub credit-Keeps :
      (keys : Kept numbers.Number) (turn : Turn numbers.Number) (d : numbers.Number)
      (header : Bytes) (s : Session numbers.Number T)
      → Keeps keys s
      → Keeps keys (credit turn d header s)
  unfolding credit
  credit-Keeps keys turn d header s h =
      let h1 = ensure-Keeps keys turn s h in
      let h2 = accepted-Keeps keys turn (ensure_client_entity turn s).statistics _ h1 in
      let h3 = beat-Keeps keys turn.later _ _ h2 in
      let h4 = raise-Keeps keys turn d _ _ h3 in
      forward-Keeps keys turn.external_minimum d header _ h4

  pub credit_block-Keeps :
      (keys : Kept numbers.Number) (turn : Turn numbers.Number) (d : numbers.Number)
      (header : Bytes) (height : ℕ) (r : Result (Block T)) (s : Session numbers.Number T)
      → Keeps keys s
      → Keeps keys (credit_block turn d header height r s)
  unfolding credit_block submit_block
  credit_block-Keeps keys turn d header height (err e) s h = inr (close_destroyed s)
  credit_block-Keeps keys turn d header height (ok block) s h = credit-Keeps keys turn d header _ h
