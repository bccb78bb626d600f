-- ===== src/Color/Hex.antt =====
-- `#RRGGBB` colours of src/color.rs. A text is the bytes of its UTF-8: a character beyond ASCII has no byte
-- that is a digit.
use domiform.Base.{
  ℕ, ◌+◌, ◌-◌, ◌*◌, ◌/◌, ◌%◌, ◌<◌, ◌≡◌, Bool, true, false, not, ◌&&◌, ◌||◌, Option, none, some, [],
  ◌∷◌, ◌++◌, ◌>>=◌, if◌then◌else◌, length, nat_beq, leb, ltb, arith, ap, refl, >>=-eq-some,
}
use domiform.Base.Text.{Text}

-- `strip_prefix('#')`, or the text itself.
abbrev pub strip_hash : Text → Text
strip_hash [] = []
strip_hash (c ∷ s) = if nat_beq c 35 then s else c ∷ s

-- `is_ascii_hexdigit`
abbrev pub is_hexdigit : ℕ → Bool
is_hexdigit c = leb 48 c && leb c 57 || leb 65 c && leb c 70 || leb 97 c && leb c 102

abbrev pub all_hex : Text → Bool
all_hex [] = true
all_hex (c ∷ s) = is_hexdigit c && all_hex s

-- A digit of `from_str_radix` in base 16.
abbrev pub digit_value : ℕ → Option ℕ
digit_value c =
    if leb 48 c && leb c 57
    then some (c - 48)
    else if leb 65 c && leb c 70
    then some (c - 55)
    else if leb 97 c && leb c 102
    then some (c - 87)
    else none

-- `u8::from_str_radix` on two digits: no overflow.
abbrev pub pair_value : ℕ → ℕ → Option ℕ
pair_value a b = digit_value a >>= λ h. digit_value b >>= λ l. some (16 * h + l)

abbrev pub channels_of : Text → Option (ℕ × ℕ × ℕ)
channels_of (a ∷ b ∷ c ∷ d ∷ e ∷ f ∷ []) =
    pair_value a b >>= λ r. pair_value c d >>= λ g. pair_value e f >>= λ b'. some (r, g, b')
channels_of _ = none

unfoldable pub hex_to_rgb : Text → Option (ℕ × ℕ × ℕ)
hex_to_rgb s =
    let hex = strip_hash s in
    let channels = channels_of hex in
    if not (nat_beq (length hex) 6) || not (all_hex hex) then none else channels

-- A digit as it is written, in upper or lower case, and the two digits of a byte.
unfoldable pub digit : Bool → ℕ → ℕ
digit upper n = if ltb n 10 then 48 + n else if upper then 55 + n else 87 + n

abbrev pub two_digits : Bool → Bool → ℕ → Text
two_digits u v n = digit u (n / 16) ∷ digit v (n % 16) ∷ []

-- Six digits, each in a case of its own.
abbrev pub six_digits : (u v w x y z : Bool) (r g b : ℕ) → Text
six_digits u v w x y z r g b = two_digits u v r ++ two_digits w x g ++ two_digits y z b

digit_value-digit : (u : Bool) (n : ℕ) → n < 16 → digit_value (digit u n) ≡ some n
unfolding digit
digit_value-digit u n h = ground arith

is_hexdigit-digit : (u : Bool) (n : ℕ) → n < 16 → is_hexdigit (digit u n) ≡ true
unfolding digit
is_hexdigit-digit u n h = ground arith

pair_value-two_digits :
    (u v : Bool) (n : ℕ) → n < 256 → pair_value (digit u (n / 16)) (digit v (n % 16)) ≡ some n
pair_value-two_digits u v n h =
    rw
      (
        digit_value-digit u (n / 16) (omega arith),
        ◌>>=◌,
        digit_value-digit v (n % 16) (omega arith),
      )
      (ap some (omega arith))

not_hash : (u : Bool) (n : ℕ) → nat_beq (digit u n) 35 ≡ false
unfolding digit
not_hash u n = ground arith

-- A colour written in two hexadecimal digits for each channel, each digit in upper or lower case, parses to
-- its channels, with a # before it and without.
pub hex_to_rgb-two_digits :
    (u v w x y z : Bool) (r g b : ℕ)
    → r < 256
    → g < 256
    → b < 256
    → (hex_to_rgb (35 ∷ six_digits u v w x y z r g b) ≡ some (r, g, b))
      × (hex_to_rgb (six_digits u v w x y z r g b) ≡ some (r, g, b))
unfolding hex_to_rgb
hex_to_rgb-two_digits u v w x y z r g b hr hg hb =
    let parsed : channels_of (six_digits u v w x y z r g b) ≡ some (r, g, b) =
      rw
        (
          pair_value-two_digits u v r hr,
          ◌>>=◌,
          pair_value-two_digits w x g hg,
          pair_value-two_digits y z b hb,
        )
        refl in
    let valid : all_hex (six_digits u v w x y z r g b) ≡ true =
      rw
        (
          is_hexdigit-digit u (r / 16) (omega arith),
          is_hexdigit-digit v (r % 16) (omega arith),
          is_hexdigit-digit w (g / 16) (omega arith),
          is_hexdigit-digit x (g % 16) (omega arith),
          is_hexdigit-digit y (b / 16) (omega arith),
          is_hexdigit-digit z (b % 16) (omega arith),
        )
        refl in
    (rw (valid, parsed) refl, rw (not_hash u (r / 16), valid, parsed) refl)

some_triple :
    {x y z r g b : ℕ}
    → ◌≡◌ {A = Option (ℕ × ℕ × ℕ)} (some (x, y, z)) (some (r, g, b))
    → (x ≡ r) × (y ≡ g) × (z ≡ b)
some_triple h = ground (arith, h)

digit_value-lt : (c v : ℕ) → digit_value c ≡ some v → v < 16
digit_value-lt c v h = ground arith

pair_value-lt : (a b v : ℕ) → pair_value a b ≡ some v → v < 256
pair_value-lt a b v h =
    let (x, hx, rest) = >>=-eq-some (digit_value a) _ h in
    let (y, hy, sum) = >>=-eq-some (digit_value b) _ rest in
    let dx = digit_value-lt a x hx in let dy = digit_value-lt b y hy in ground (arith, sum, dx, dy)

channels_of-lt :
    (hex : Text) (r g b : ℕ) → channels_of hex ≡ some (r, g, b) → (r < 256) × (g < 256) × (b < 256)
channels_of-lt (a ∷ b ∷ c ∷ d ∷ e ∷ f ∷ []) r g b' h =
    let (x, hx, h1) = >>=-eq-some (pair_value a b) _ h in
    let (y, hy, h2) = >>=-eq-some (pair_value c d) _ h1 in
    let (z, hz, h3) = >>=-eq-some (pair_value e f) _ h2 in
    let dx = pair_value-lt a b x hx in
    let dy = pair_value-lt c d y hy in
    let dz = pair_value-lt e f z hz in
    (
      omega (arith, some_triple h3, dx),
      omega (arith, some_triple h3, dy),
      omega (arith, some_triple h3, dz),
    )
channels_of-lt _ r g b h = cc

hex_to_rgb-some :
    (s : Text) (r g b : ℕ)
    → hex_to_rgb s ≡ some (r, g, b)
    → channels_of (strip_hash s) ≡ some (r, g, b)
unfolding hex_to_rgb
hex_to_rgb-some s r g b h = ground (arith, h)

pub hex_to_rgb-bytes :
    (s : Text) (r g b : ℕ) → hex_to_rgb s ≡ some (r, g, b) → (r < 256) × (g < 256) × (b < 256)
hex_to_rgb-bytes s r g b h = channels_of-lt (strip_hash s) r g b (hex_to_rgb-some s r g b h)

-- A text is the six digits of a colour, each in some case.
abbrev pub IsWritten : Text → (r g b : ℕ) → Type 0
IsWritten s r g b = (u v w x y z : Bool) × (s ≡ six_digits u v w x y z r g b)
