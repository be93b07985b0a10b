-- ===== src/Extranonce/BigEndian.antt =====
-- The bytes of a prefix in src/models/sv2/sv2-extranonce-manager.ts have its value.
use native.Mathlib.Nat.{pow-suc}
use lido.Base.{
  ℕ, zero, suc, ◌+◌, ◌*◌, ◌/◌, ◌%◌, ◌^◌, ◌<◌, ◌≡◌, refl, sym, ap, ◌∙◌, [], ◌∷◌, ◌++◌, arith, All,
  All-append, Bytes, IsByte, length, length-append,
}
use lido.Extranonce.{be_bytes}

-- The value of bytes whose highest comes first.
abbrev pub be_value : ℕ → Bytes → ℕ
be_value acc [] = acc
be_value acc (b ∷ bs) = be_value (acc * 256 + b) bs

be_value-snoc : (bs : Bytes) (acc b : ℕ) → be_value acc (bs ++ (b ∷ [])) ≡ be_value acc bs * 256 + b
be_value-snoc [] acc b = refl
be_value-snoc (x ∷ bs) acc b = be_value-snoc bs (acc * 256 + x) b

pub be_value-be_bytes : (n v : ℕ) → v < 256 ^ n → be_value 0 (be_bytes n v) ≡ v
unfolding be_bytes
be_value-be_bytes zero v h = omega arith
be_value-be_bytes (suc n) v h =
    let p : 256 ^ suc n ≡ 256 ^ n * 256 = pow-suc 256 n in
    omega (
      arith,
      be_value-snoc (be_bytes n (v / 256)) 0 (v % 256),
      be_value-be_bytes n (v / 256) (omega (arith, p)),
    )

pub be_bytes-injective :
    (n v u : ℕ) → v < 256 ^ n → u < 256 ^ n → be_bytes n v ≡ be_bytes n u → v ≡ u
be_bytes-injective n v u hv hu e =
    sym (be_value-be_bytes n v hv) ∙ ap (be_value 0) e ∙ be_value-be_bytes n u hu

pub length-be_bytes : (n v : ℕ) → length (be_bytes n v) ≡ n
unfolding be_bytes
length-be_bytes zero v = refl
length-be_bytes (suc n) v =
    omega (arith, length-append (be_bytes n (v / 256)) (v % 256 ∷ []), length-be_bytes n (v / 256))

pub be_bytes-IsByte : (n v : ℕ) → All IsByte (be_bytes n v)
unfolding be_bytes
be_bytes-IsByte zero v = tt
be_bytes-IsByte (suc n) v =
    All-append IsByte (be_bytes n (v / 256)) (v % 256 ∷ []) (be_bytes-IsByte n (v / 256))
      (omega arith, tt)
