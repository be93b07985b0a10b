-- ===== src/Tests/Setting.antt =====
-- A setting in which the assumptions on code outside the repository hold: texts of one-byte
-- characters, floats by their bits, and a cipher whose MAC is a counter.
use lido.Base.{
  ℕ, ◌+◌, ◌-◌, ◌%◌, ◌^◌, ◌≡◌, refl, ap, ◌∙◌, [], ◌∷◌, ◌++◌, ◌==◌, if◌then◌else◌, ==_iff, arith, map,
  length, length-append, length-replicate, take, take-append_self, get_or, replicate, All, Bytes,
  IsByte, le_bytes, le_value, le_bytes-IsByte, le_value-le_bytes,
}
use lido.Outcome.{M, ok, err, cipher_failure}
use lido.Node.{Node}
use lido.Frame.{mac_size}
use lido.Frame.Secure.{Session}

pub map-IsByte : (t : Bytes) → All IsByte (map (λ c. c % 256) t)
map-IsByte [] = tt
map-IsByte (c ∷ cs) = (omega arith, map-IsByte cs)

abbrev pub bytes_node : Node
bytes_node = record {
  Text = Bytes;
  IsWellFormed = λ t. map (λ c. c % 256) t ≡ t;
  utf8 = map (λ c. c % 256);
  of_utf8 = λ b. b;
  utf8-IsByte = map-IsByte;
  of_utf8-utf8 = λ t h. h;
  Float = ℕ;
  fround = λ x. x % 2 ^ 32;
  float_le = λ x. le_bytes 4 (x % 2 ^ 32);
  of_float_le = le_value;
  length-float_le = λ x. refl;
  float_le-IsByte = λ x. le_bytes-IsByte 4 (x % 2 ^ 32);
  of_float_le-float_le = λ x. le_value-le_bytes 4 (x % 2 ^ 32) (omega arith);
  alloc_unsafe = λ n. replicate n 0xaa;
  length-alloc_unsafe = λ n. length-replicate n 0xaa;
}

abbrev pub seal : Bytes → M ℕ Bytes
seal message s = ok (message ++ replicate 16 (s % 256), s + 1)

abbrev pub unseal : Bytes → M ℕ Bytes
unseal ciphertext t =
    if get_or ciphertext (length ciphertext - mac_size) 256 == t % 256
    then ok (take (length ciphertext - mac_size) ciphertext, t + 1)
    else err cipher_failure

get_or-append : (xs ys : Bytes) (d : ℕ) → get_or (xs ++ ys) (length xs) d ≡ get_or ys 0 d
get_or-append [] ys d = refl
get_or-append (x ∷ xs) ys d = get_or-append xs ys d

pub unseal-seal :
    (message : Bytes) (s t : ℕ)
    → s ≡ t
    → unseal (message ++ replicate 16 (s % 256)) t ≡ ok (message, t + 1)
unseal-seal message s t e =
    let tag = replicate 16 (s % 256) in
    let here : length (message ++ tag) - mac_size ≡ length message =
      omega (arith, length-append message tag) in
    let same : get_or (message ++ tag) (length message) 256 ≡ t % 256 =
      get_or-append message tag 256 ∙ ap (λ n. n % 256) e in
    rw (
      here,
      same,
      (==_iff (t % 256) (t % 256)).1 refl,
      take-append_self (length message) message tag refl,
    )

abbrev pub counting_session : Session seal unseal
counting_session = record {
  InStep = λ k s t. s ≡ t;
  weaken = λ k m s t h e. e;
  carries = λ message k s t e short. (
    message ++ replicate 16 (s % 256),
    s + 1,
    t + 1,
    refl,
    omega (arith, length-append message (replicate 16 (s % 256))),
    unseal-seal message s t e,
    ap (λ n. n + 1) e,
  );
}
