-- ===== src/Mining.antt =====
-- src/models/MiningJob.ts: the coinbase of a job, its split around the extranonce, and the header and
-- the block that a submission makes of it. bitcoinjs, with the payment scripts, is a parameter.
pub mod Hex
pub mod Construction
pub mod Submission
pub mod Merkle
pub mod Split
pub mod Agreement
pub mod Payouts
use Prim.Native.Nat.{bit_xor}
use lido.Base.{
  ℕ, zero, suc, ◌+◌, ◌-◌, ◌*◌, ◌/◌, ◌%◌, ◌^◌, ◌≤◌, ◌≡◌, Bool, true, false, not, ◌&&◌, ◌||◌, Option,
  none, some, List, [], ◌∷◌, ◌++◌, map, length, take, drop, replicate, ltb, leb, ◌==◌,
  if◌then◌else◌, Bytes, All, IsByte, le_bytes,
}
use lido.Outcome.{Result, ok, err, and_then, range_error, bad_argument}
use lido.Client.{Units}
use lido.Numbers.{Numbers}
use lido.Mining.Hex.{to_hex, of_hex, Parsed, nan, integer}

abbrev pub extranonce_size : ℕ
extranonce_size = 12

abbrev pub max_block_weight : ℕ
max_block_weight = 4000000

abbrev pub max_script_size : ℕ
max_script_size = 100

pub data AddressType : Type 0 where
  p2wpkh p2pkh p2sh p2tr p2wsh other : AddressType

pub record Output : Type 0 where
  pub script : Bytes
  pub value : ℕ

-- A coinbase transaction: the version, the input and its witness are the same in all of them.
pub record Coinbase : Type 0 where
  pub script : Bytes
  pub outs : List Output

-- The fields of bitcoinjs.Block that are read here; T is a transaction. The version is that of
-- getblocktemplate, a signed integer of 32 bits, by its residue.
pub record Block (T : Type 0) : Type 0 where
  pub version : ℕ
  pub prev_hash : Bytes
  pub merkle_root : Bytes
  pub timestamp : ℕ
  pub bits : ℕ
  pub nonce : ℕ
  pub witness_commit : Bytes
  pub transactions : List T

-- IJobTemplate; `N` is the type of fractions.
pub record Template (N T : Type 0) : Type 0 where
  pub block : Block T
  pub merkle_branch : List Units
  pub id : Units
  pub creation : ℕ
  pub coinbasevalue : ℕ
  pub network_difficulty : N
  pub height : ℕ
  pub clear_jobs : Bool

-- bitcoinjs and bitcoin-address-validation.
pub record Bitcoin (T : Type 0) : Type 1 where
  pub hash256 : Bytes → Bytes
  pub length-hash256 : (b : Bytes) → length (hash256 b) ≡ 32
  -- The transaction without witness: what stands before the script depends on its length alone.
  pub to_buffer : Coinbase → Bytes
  pub before_script : ℕ → Bytes
  pub after_script : List Output → Bytes
  pub to_buffer_lem :
      (tx : Coinbase)
      → to_buffer tx ≡ before_script (length tx.script) ++ (tx.script ++ after_script tx.outs)
  pub to_buffer-IsByte : (tx : Coinbase) → All IsByte tx.script → All IsByte (to_buffer tx)
  -- tx.getHash(false)
  pub get_hash : Coinbase → Bytes
  pub get_hash_lem : (tx : Coinbase) → get_hash tx ≡ hash256 (to_buffer tx)
  pub transaction_of : Coinbase → T
  pub weight : Coinbase → ℕ
  pub block_weight : Block T → ℕ
  -- bitcoinjs.script.number.encode, and the script of OP_RETURN with a push of the bytes.
  pub encode_number : ℕ → Bytes
  pub return_script : Bytes → Bytes
  -- The type of getAddressInfo and the script of bitcoinjs.payments, which throw on a bad address.
  pub address_type : Units → Result AddressType
  pub payment : AddressType → Units → Result Bytes

pub record MiningJob : Type 0 where
  pub job_id : Units
  pub job_template_id : Units
  pub creation : ℕ
  pub coinbase_transaction : Coinbase
  pub coinbase_part1 : Units
  pub coinbase_part2 : Units
  pub coinbase_part1_buffer : Bytes
  pub coinbase_part2_buffer : Bytes
  pub merkle_branch_buffers : List Bytes

-- buffer.set(bytes, offset)
unfoldable pub set_bytes : Bytes → Bytes → ℕ → Result Bytes
set_bytes buffer bytes offset =
    if leb (offset + length bytes) (length buffer)
    then ok (take offset buffer ++ (bytes ++ drop (offset + length bytes) buffer))
    else err range_error

module _ {T : Type 0} (bitcoin : Bitcoin T) where
  -- The rounds of calculateMerkleRootHash on its buffer of 64 bytes.
  unfoldable pub merkle_rounds : List Bytes → Bytes → Result Bytes
  merkle_rounds [] both = ok (take 32 both)
  merkle_rounds (branch ∷ branches) both =
      and_then (set_bytes both branch 32)
        (λ paired. and_then (set_bytes paired (bitcoin.hash256 paired) 0) (merkle_rounds branches))

  unfoldable pub calculate_merkle_root_hash : Bytes → List Bytes → Result Bytes
  calculate_merkle_root_hash new_root branches =
      and_then (set_bytes (replicate 64 0) new_root 0) (merkle_rounds branches)

-- The words of four bytes, each reversed; a part of a word at the end reads zeros past it.
unfoldable pub swap_endian_words : Bytes → Bytes
swap_endian_words (a ∷ b ∷ c ∷ d ∷ rest) = d ∷ c ∷ b ∷ a ∷ swap_endian_words rest
swap_endian_words [] = []
swap_endian_words (a ∷ []) = 0 ∷ []
swap_endian_words (a ∷ b ∷ []) = 0 ∷ 0 ∷ []
swap_endian_words (a ∷ b ∷ c ∷ []) = 0 ∷ c ∷ b ∷ []
