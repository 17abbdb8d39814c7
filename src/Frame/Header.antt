-- ===== src/Frame/Header.antt =====
-- The length header in network byte order.
use highp_mmorpg.Prelude.{ℕ, ◌/◌, ◌%◌, ◌^◌, ◌≤◌, ◌<◌, ◌≡◌, refl, List, [], ◌∷◌, ◌++◌, arith, length}
use highp_mmorpg.Frame.{encode_header, decode_header}

-- A length below 2 ^ 32 is read back as it was written, whatever bytes follow the header, and the
-- header takes four bytes, the most significant first.
pub decode-encode_header :
    (n : ℕ) (rest : List ℕ)
    → n < 2 ^ 32
    → (decode_header (encode_header n ++ rest) ≡ n)
      × (encode_header n ≡ n / 2 ^ 24 ∷ n / 2 ^ 16 % 256 ∷ n / 2 ^ 8 % 256 ∷ n % 256 ∷ [])
unfolding encode_header decode_header
decode-encode_header n rest h = ground arith

-- Only the first four bytes count.
pub decode_header-append :
    (xs ys : List ℕ) → 4 ≤ length xs → decode_header (xs ++ ys) ≡ decode_header xs
unfolding decode_header
decode_header-append [] ys h = absurd (omega arith)
decode_header-append (a ∷ []) ys h = absurd (omega arith)
decode_header-append (a ∷ b ∷ []) ys h = absurd (omega arith)
decode_header-append (a ∷ b ∷ c ∷ []) ys h = absurd (omega arith)
decode_header-append (a ∷ b ∷ c ∷ d ∷ xs) ys h = refl

pub length-encode_header : (n : ℕ) → length (encode_header n) ≡ 4
unfolding encode_header
length-encode_header n = refl
