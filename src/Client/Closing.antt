-- ===== src/Client/Closing.antt =====
-- handleCloseChannel of src/models/StratumV2Client.ts, with what it uses of
-- src/services/stratum-v2.service.ts: one manager of extranonces serves every client.
use lido.Base.{
  subst, ℕ, ◌+◌, ◌≡◌, ◌≢◌, refl, sym, Bool, false, Option, none, some, List, [], ◌∷◌, ltb, ◌==◌,
  if◌then◌else◌, arith, length,
}
use lido.Outcome.{Result, ok, err, exhausted}
use lido.Extranonce.{Manager, release, get_prefix}
use lido.Extranonce.Allocation.{IsManager}
use lido.Extranonce.Release.{release_result}
use lido.Client.{Client, Channel, lookup}

-- The counter and the manager of the service, where the manager exists.
pub record Service : Type 0 where
  pub channel_id_counter : ℕ
  pub extranonce_manager : Manager

unfoldable pub get_next_channel_id : Service → Result (ℕ × Service)
get_next_channel_id service =
    if ltb 0xffffffff service.channel_id_counter
    then err exhausted
    else ok (
      service.channel_id_counter,
      record service { channel_id_counter = service.channel_id_counter + 1 },
    )

unfoldable pub release_extranonce_prefix : ℕ → Service → Service
release_extranonce_prefix channel_id service = record service {
  extranonce_manager = release channel_id service.extranonce_manager;
}

-- Map.delete; a key stands once.
unfoldable pub delete_key {ℓ} : {A : Type ℓ} → List (ℕ × A) → ℕ → List (ℕ × A)
delete_key [] k = []
delete_key ((j, a) ∷ m) k = let rest = delete_key m k in if j == k then rest else (j, a) ∷ rest

-- What is left of the client and the service, and whether the socket is closed.
module _ {T D : Type 0} where
  unfoldable pub close_found :
      ℕ → Client T D → Service → Option (Channel T D) → Client T D × Service × Bool
  close_found channel_id c service none = (c, service, false)
  close_found channel_id c service (some channel) =
      let left = delete_key c.channels channel_id in
      (record c { channels = left }, release_extranonce_prefix channel_id service, length left == 0)

  unfoldable pub handle_close_channel : ℕ → Client T D → Service → Client T D × Service × Bool
  handle_close_channel channel_id c service =
      close_found channel_id c service (lookup c.channels channel_id)

pub lookup-delete_key {ℓ} :
    {A : Type ℓ} (m : List (ℕ × A)) (k : ℕ) → lookup (delete_key m k) k ≡ none
unfolding lookup delete_key
lookup-delete_key [] k = refl
lookup-delete_key ((j, a) ∷ m) k = ground (arith, lookup-delete_key m k)

pub lookup-delete_key_other {ℓ} :
    {A : Type ℓ} (m : List (ℕ × A)) (k l : ℕ) → l ≢ k → lookup (delete_key m k) l ≡ lookup m l
unfolding lookup delete_key
lookup-delete_key_other [] k l h = refl
lookup-delete_key_other ((j, a) ∷ m) k l h = ground (arith, lookup-delete_key_other m k l h)

module _ {T D : Type 0} where
  -- Closing a channel that the client has removes it and gives its extranonce prefix back; any other
  -- channel stays with the client and keeps its prefix, and so do the submissions.
  pub handle_close_channel_lem :
      (k l : ℕ) (c : Client T D) (service : Service) (channel : Channel T D)
      → IsManager service.extranonce_manager
      → lookup c.channels k ≡ some channel
      → l ≢ k
      → let (c', service', closed) = handle_close_channel k c service in
        (lookup c'.channels k ≡ none)
        × (lookup c'.channels l ≡ lookup c.channels l)
        × (get_prefix k service'.extranonce_manager ≡ none)
        × (get_prefix l service'.extranonce_manager ≡ get_prefix l service.extranonce_manager)
        × (c'.submission_hashes ≡ c.submission_hashes)
  unfolding handle_close_channel close_found release_extranonce_prefix
  handle_close_channel_lem k l c service channel v e h =
      let (gone, kept) = release_result k l service.extranonce_manager v h in
      subst
        (λ found.
          let (c', service', closed) = close_found k c service found in
          (lookup c'.channels k ≡ none)
          × (lookup c'.channels l ≡ lookup c.channels l)
          × (get_prefix k service'.extranonce_manager ≡ none)
          × (get_prefix l service'.extranonce_manager ≡ get_prefix l service.extranonce_manager)
          × (c'.submission_hashes ≡ c.submission_hashes))
        (sym e)
        (lookup-delete_key c.channels k, lookup-delete_key_other c.channels k l h, gone, kept, refl)
