-- ===== src/Client/Identity.antt =====
-- parseUserIdentity of src/models/StratumV2Client.ts.
use lido.Base.{
  if◌then◌else◌, zero, ℕ, suc, ◌+◌, ◌≡◌, ◌≢◌, refl, sym, ap, ◌∙◌, Option, none, some, [], ◌∷◌, ◌++◌,
  ◌==◌, length, take, drop, take-append_self, drop-append_self, drop-drop, All, arith, true, false,
}
use lido.Client.{Units}
use lido.Extranonce.Namespace.{is_space, trim_start, trim_end, trim}

-- indexOf('.'), from an index on.
unfoldable pub index_of_dot : Units → Option ℕ
index_of_dot [] = none
index_of_dot (u ∷ us) =
    let rest = index_of_dot us in
    if u == 46 then some 0 else elim rest [ none ↦ none | some i ↦ some (suc i) ]

abbrev pub default_worker : Units
default_worker = 100 ∷ 101 ∷ 102 ∷ 97 ∷ 117 ∷ 108 ∷ 116 ∷ []

-- `… || 'default'`
unfoldable pub or_default : Units → Units
or_default [] = default_worker
or_default (u ∷ us) = u ∷ us

unfoldable pub split_identity : Units → Option ℕ → Units × Units
split_identity trimmed none = (trimmed, default_worker)
split_identity trimmed (some zero) = (trimmed, default_worker)
split_identity trimmed (some (suc dot)) =
    (take (suc dot) trimmed, or_default (drop (suc dot + 1) trimmed))

-- `identity || ''` is the identity, since a field of a message is never absent.
unfoldable pub parse_user_identity : Units → Units × Units
parse_user_identity identity =
    let trimmed = trim identity in split_identity trimmed (index_of_dot trimmed)

abbrev pub IsNoDot : ℕ → Type 0
IsNoDot u = u ≢ 46

abbrev bumped : Option ℕ → Option ℕ
bumped none = none
bumped (some i) = some (suc i)

index_of_dot-append : (a w : Units) → All IsNoDot a → index_of_dot (a ++ (46 ∷ w)) ≡ some (length a)
unfolding index_of_dot
index_of_dot-append [] w h = refl
index_of_dot-append (u ∷ a) w h =
    let off : (u == 46) ≡ false = ground (arith, h.0) in
    rw off (ap bumped (index_of_dot-append a w h.1))

index_of_dot-none : (a : Units) → All IsNoDot a → index_of_dot a ≡ none
unfolding index_of_dot
index_of_dot-none [] h = refl
index_of_dot-none (u ∷ a) h =
    let off : (u == 46) ≡ false = ground (arith, h.0) in
    rw off (ap bumped (index_of_dot-none a h.1))

abbrev pub IsBlank : ℕ → Type 0
IsBlank c = is_space c ≡ true

-- A text that does not end in white space.
abbrev pub IsEnded : Units → Type 0
IsEnded s = trim_end s ≡ s

trim_end-blank : (back : Units) → All IsBlank back → trim_end back ≡ []
unfolding trim_end
trim_end-blank [] h = refl
trim_end-blank (c ∷ cs) h = rw (trim_end-blank cs h.1, h.0)

trim_end-append : (s back : Units) → All IsBlank back → trim_end (s ++ back) ≡ trim_end s
unfolding trim_end
trim_end-append [] back h = trim_end-blank back h
trim_end-append (c ∷ cs) back h = rw (trim_end-append cs back h)

trim_start-append :
    (front : Units) (c : ℕ) (s : Units)
    → All IsBlank front
    → is_space c ≡ false
    → trim_start (front ++ (c ∷ s)) ≡ c ∷ s
unfolding trim_start
trim_start-append [] c s h ink = rw ink
trim_start-append (f ∷ fs) c s h ink = rw (h.0) (trim_start-append fs c s h.1 ink)

-- What stands between white space is what is left.
trim_lem :
    (front : Units) (c : ℕ) (s back : Units)
    → All IsBlank front
    → All IsBlank back
    → is_space c ≡ false
    → IsEnded (c ∷ s)
    → trim (front ++ ((c ∷ s) ++ back)) ≡ c ∷ s
unfolding trim
trim_lem front c s back h k ink ended =
    ap trim_end (trim_start-append front c (s ++ back) h ink)
    ∙ trim_end-append (c ∷ s) back k
    ∙ ended

-- A text whose end is an ended text that is not empty.
IsEnded-append : (s : Units) (c : ℕ) (t : Units) → IsEnded (c ∷ t) → IsEnded (s ++ (c ∷ t))
unfolding trim_end
IsEnded-append [] c t h = h
IsEnded-append (d ∷ []) c t h = rw h
IsEnded-append (d ∷ e ∷ s) c t h = rw (IsEnded-append (e ∷ s) c t h)

IsEnded-dot : (w : Units) → IsEnded w → IsEnded (46 ∷ w)
unfolding trim_end is_space
IsEnded-dot [] h = refl
IsEnded-dot (c ∷ w) h = rw h

with_dot :
    (u : ℕ) (a w : Units)
    → All IsNoDot (u ∷ a)
    → let s = (u ∷ a) ++ (46 ∷ w) in split_identity s (index_of_dot s) ≡ (u ∷ a, or_default w)
unfolding split_identity
with_dot u a w h =
    let s = (u ∷ a) ++ (46 ∷ w) in
    let n = length (u ∷ a) in
    let before : take n s ≡ u ∷ a = take-append_self n (u ∷ a) (46 ∷ w) refl in
    let behind : drop (n + 1) s ≡ w =
      sym (drop-drop n 1 (n + 1) s refl) ∙ ap (drop 1) (drop-append_self n (u ∷ a) (46 ∷ w) refl) in
    ap (split_identity s) (index_of_dot-append (u ∷ a) w h)
    ∙ ap (λ x. (x, or_default (drop (n + 1) s))) before
    ∙ ap (λ x. (u ∷ a, or_default x)) behind

abbrev parts : Units → Units × Units
parts t = split_identity t (index_of_dot t)

-- White space around an identity does not count. Of an address without a dot, which is not empty and
-- neither begins nor ends in white space, a dot and a name: the address is what stands before the first
-- dot and the worker is what stands behind it, or `default` if nothing does. Such an address alone has
-- the worker `default`, and so has an identity that begins with a dot, which is the address as a whole.
pub parse_user_identity_lem :
    (front back : Units) (u : ℕ) (a w : Units)
    → All IsBlank front
    → All IsBlank back
    → All IsNoDot (u ∷ a)
    → is_space u ≡ false
    → IsEnded (u ∷ a)
    → IsEnded w
    → (parse_user_identity (front ++ (((u ∷ a) ++ (46 ∷ w)) ++ back)) ≡ (u ∷ a, or_default w))
      × (parse_user_identity (front ++ ((u ∷ a) ++ back)) ≡ (u ∷ a, default_worker))
      × (parse_user_identity (front ++ ((46 ∷ w) ++ back)) ≡ (46 ∷ w, default_worker))
unfolding parse_user_identity
parse_user_identity_lem front back u a w h k dots ink ended ended' = (
  ap parts (
        trim_lem front u (a ++ (46 ∷ w)) back h k ink
          (IsEnded-append (u ∷ a) 46 w (IsEnded-dot w ended')))
      ∙ with_dot u a w dots,
  ap parts (trim_lem front u a back h k ink ended)
      ∙ (unfold split_identity in ap (split_identity (u ∷ a)) (index_of_dot-none (u ∷ a) dots)),
  ap parts (trim_lem front 46 w back h k (unfold is_space in refl) (IsEnded-dot w ended'))
      ∙ (unfold split_identity index_of_dot in refl),
)
