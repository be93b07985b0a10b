-- ===== src/Client/Fleet/Moves.antt =====
-- Every handler of src/models/StratumV2Client.ts that touches channels is fair to the other sessions.
use lido.Base.{
  ℕ, ◌+◌, ◌<◌, ◌≤◌, ◌≡◌, ◌≢◌, refl, sym, ap, ◌∙◌, subst, Option, none, some, List, [], ◌∷◌, ◌==◌,
  ==_iff, ltb, Bytes, arith, inl, inr, Bool-cases, ◌⊎◌,
}
use lido.Outcome.{Result, ok, err, exhausted, Exception}
use lido.Extranonce.{Manager, allocate, get_prefix, release}
use lido.Extranonce.Allocation.{IsManager, release-IsManager}
use lido.Extranonce.Guarantees.{allocate-IsManager, allocate_result}
use lido.Extranonce.Release.{release_result}
use lido.Client.{Client, Channel, lookup}
use lido.Client.Closing.{
  Service, get_next_channel_id, release_extranonce_prefix, handle_close_channel, close_found,
  delete_key, lookup-delete_key, lookup-delete_key_other,
}
use lido.Client.Orders.{Sent}
use lido.Client.Opening.{
  Handled, destroy, close_socket, release_all, with_manager, take_prefix, take_number, with_number,
}
use lido.Client.Fleet.{prefix_in, prefix_of, Sound, Fair, Fair-kept, Fair-trans, Fair-released}

release_all_lem :
    {A : Type 0} (channels : List (ℕ × A)) (service : Service)
    → IsManager service.extranonce_manager
    → IsManager (release_all channels service).extranonce_manager
      × ((release_all channels service).channel_id_counter ≡ service.channel_id_counter)
      × ((l : ℕ)
          → lookup channels l ≡ none
          → get_prefix l (release_all channels service).extranonce_manager
            ≡ get_prefix l service.extranonce_manager)
unfolding release_all release_extranonce_prefix lookup
release_all_lem [] service v = (v, refl, λ l e. refl)
release_all_lem ((k, a) ∷ channels) service v =
    let (v', same, kept) =
      release_all_lem channels (release_extranonce_prefix k service)
        (release-IsManager k service.extranonce_manager v) in
    (
      v',
      same,
      λ l e.
          kept l (ground arith)
          ∙ (release_result k l service.extranonce_manager v (λ q. ground arith)).1,
    )

module _ {T D : Type 0} where
  pub destroy-Fair :
      (c : Client T D) (service : Service)
      → IsManager service.extranonce_manager
      → Fair c service (destroy c service).0 (destroy c service).1
  unfolding destroy lookup
  destroy-Fair c service v =
      let (v', same, kept) = release_all_lem c.channels service v in
      record {
        manager = v';
        sound = record { owned = λ l p e. absurd (cc e); below = λ l p e. absurd (cc e) };
        grows = omega (arith, same);
        others = λ l e h. kept l (none_there (lookup c.channels l) e);
        gained = λ l p e. absurd (cc e);
      }
    where
      none_there : (o : Option (Channel T D)) → prefix_in o ≡ none → o ≡ none
      none_there none e = refl
      none_there (some channel) e = absurd (cc e)

  pub close_channel-Fair :
      (k : ℕ) (c : Client T D) (service : Service)
      → IsManager service.extranonce_manager
      → Sound c service
      → Fair c service (handle_close_channel k c service).0 (handle_close_channel k c service).1
  unfolding handle_close_channel
  close_channel-Fair k c service v y = go (lookup c.channels k) refl
    where
      go :
          (found : Option (Channel T D))
          → lookup c.channels k ≡ found
          → Fair c service (close_found k c service found).0 (close_found k c service found).1
      go none e = unfold close_found in Fair-kept c c service v y (λ l. refl)
      go (some channel) e =
          unfold close_found in
          Fair-released c (record c { channels = delete_key c.channels k }) service k v y
            (ap prefix_in (lookup-delete_key c.channels k))
            (λ l h. ap prefix_in (lookup-delete_key_other c.channels k l h))
            (channel.extranonce_prefix, ap prefix_in e)

-- The service after the channel's number and prefix are taken.
abbrev pub taken : Service → Manager → Service
taken service m =
    with_manager (record service { channel_id_counter = service.channel_id_counter + 1 }) m

next_id_cases :
    (service : Service)
    → ((x : Exception) × (get_next_channel_id service ≡ err x))
      ⊎ (get_next_channel_id service
          ≡ ok (
            service.channel_id_counter,
            record service { channel_id_counter = service.channel_id_counter + 1 },
          ))
unfolding get_next_channel_id
next_id_cases service = elim (Bool-cases (ltb 0xffffffff service.channel_id_counter)) [
  | inl full ↦ inl (exhausted, rw full)
  | inr room ↦ inr (rw room)
]

module _ {T D : Type 0} where
  pub Fair-advanced :
      (c : Client T D) (service : Service)
      → IsManager service.extranonce_manager
      → Sound c service
      → Fair c service c (record service { channel_id_counter = service.channel_id_counter + 1 })
  Fair-advanced c service v y = record {
    manager = v;
    sound = record { owned = y.owned; below = λ l p e. let h = y.below l p e in omega (arith, h) };
    grows = omega arith;
    others = λ l e h. refl;
    gained = λ l p e. inl e;
  }

  -- A prefix that is taken for the new number, and the channel that gets it.
  pub Fair-opened :
      (c c' : Client T D) (service : Service) (p : Bytes) (m : Manager)
      → IsManager service.extranonce_manager
      → Sound c service
      → allocate service.channel_id_counter service.extranonce_manager ≡ ok (p, m)
      → prefix_of c' service.channel_id_counter ≡ some p
      → ((l : ℕ) → l ≢ service.channel_id_counter → prefix_of c' l ≡ prefix_of c l)
      → Fair c service c' (taken service m)
  Fair-opened c c' service p m v y got new same = record {
    manager = allocate-IsManager k service.extranonce_manager p m v got;
    sound = record { owned = owned; below = below };
    grows = omega arith;
    others = λ l e h. kept l (omega (arith, h));
    gained = gained;
  }
    where
      k : ℕ
      k = service.channel_id_counter

      kept : (l : ℕ) → l ≢ k → get_prefix l m ≡ get_prefix l service.extranonce_manager
      kept l h = (allocate_result k l service.extranonce_manager p m got h).1

      here : get_prefix k m ≡ some p
      here = (allocate_result k (k + 1) service.extranonce_manager p m got (omega arith)).0

      owned : (l : ℕ) (q : Bytes) → prefix_of c' l ≡ some q → get_prefix l m ≡ some q
      owned l q e = elim (Bool-cases (l == k)) [
        | inl at ↦
            let at' : l ≡ k = (==_iff l k).0 at in
            ap (λ x. get_prefix x m) at' ∙ here ∙ sym new ∙ ap (prefix_of c') (sym at') ∙ e
        | inr off ↦
            let off' : l ≢ k = ground arith in kept l off' ∙ y.owned l q (sym (same l off') ∙ e)
      ]

      below : (l : ℕ) (q : Bytes) → prefix_of c' l ≡ some q → l < k + 1
      below l q e = elim (Bool-cases (l == k)) [
        | inl at ↦ let at' : l ≡ k = (==_iff l k).0 at in omega (arith, at')
        | inr off ↦
            let off' : l ≢ k = ground arith in
            let h = y.below l q (sym (same l off') ∙ e) in omega (arith, h)
      ]

      gained : (l : ℕ) (q : Bytes) → prefix_of c' l ≡ some q → (prefix_of c l ≡ some q) ⊎ (k ≤ l)
      gained l q e = elim (Bool-cases (l == k)) [
        | inl at ↦ let at' : l ≡ k = (==_iff l k).0 at in inr (omega (arith, at'))
        | inr off ↦ let off' : l ≢ k = ground arith in inl (sym (same l off') ∙ e)
      ]

  -- A prefix that is taken and given back.
  pub Fair-returned :
      (c : Client T D) (service : Service) (p : Bytes) (m : Manager)
      → IsManager service.extranonce_manager
      → Sound c service
      → allocate service.channel_id_counter service.extranonce_manager ≡ ok (p, m)
      → Fair c service c (release_extranonce_prefix service.channel_id_counter (taken service m))
  unfolding release_extranonce_prefix
  Fair-returned c service p m v y got = record {
    manager = release-IsManager k m v';
    sound = record {
      owned = λ l q e. let h = y.below l q e in kept l (omega (arith, h)) ∙ y.owned l q e;
      below = λ l q e. let h = y.below l q e in omega (arith, h);
    };
    grows = omega arith;
    others = λ l e h. kept l (omega (arith, h));
    gained = λ l q e. inl e;
  }
    where
      k : ℕ
      k = service.channel_id_counter

      v' : IsManager m
      v' = allocate-IsManager k service.extranonce_manager p m v got

      kept : (l : ℕ) → l ≢ k → get_prefix l (release k m) ≡ get_prefix l service.extranonce_manager
      kept l h =
          (release_result k l m v' h).1
          ∙ (allocate_result k l service.extranonce_manager p m got h).1

  pub close_socket-Fair :
      (frames : List Sent) (c : Client T D) (service : Service)
      → IsManager service.extranonce_manager
      → Fair c service
          (close_socket frames c service).client
          (close_socket frames c service).service
  unfolding close_socket
  close_socket-Fair frames c service v = destroy-Fair c service v

  -- What is built from the counted number and a prefix for it, or the end of the session without these.
  pub with_number-Fair :
      (c : Client T D) (service : Service) (build : ℕ → Bytes → Service → Handled T D)
      → IsManager service.extranonce_manager
      → Sound c service
      → ((p : Bytes) (m : Manager)
          → allocate service.channel_id_counter service.extranonce_manager ≡ ok (p, m)
          → let h = build service.channel_id_counter p (taken service m) in
            Fair c service h.client h.service)
      → Fair c service (with_number c service build).client (with_number c service build).service
  unfolding with_number take_number take_prefix
  with_number-Fair c service build v y good = elim (next_id_cases service) [
    | inl (x, e) ↦
        subst
          (λ r.
            Fair c service (take_number c service build r).client
              (take_number c service build r).service)
          (sym e) (close_socket-Fair [] c service v)
    | inr e ↦
        subst
          (λ r.
            Fair c service (take_number c service build r).client
              (take_number c service build r).service)
          (sym e) (go (allocate k service.extranonce_manager) refl)
  ]
    where
      k : ℕ
      k = service.channel_id_counter

      counted : Service
      counted = record service { channel_id_counter = k + 1 }

      go :
          (r : Result (Bytes × Manager))
          → allocate k service.extranonce_manager ≡ r
          → Fair c service
              (take_prefix c counted k (build k) r).client
              (take_prefix c counted k (build k) r).service
      go (err x) e =
          unfold take_prefix in
          Fair-trans c c _ service counted _ (Fair-advanced c service v y)
            (close_socket-Fair [] c counted v)
      go (ok (p, m)) e = unfold take_prefix in good p m e
