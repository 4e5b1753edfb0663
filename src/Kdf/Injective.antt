-- ===== src/Kdf/Injective.antt =====
-- The message of the HMAC determines what it was made of.
use central_unit.Base.{
  ℕ, ◌%◌, ◌^◌, ◌<◌, ◌≡◌, ◌∙◌, sym, ap, refl, List, [], ◌∷◌, ◌++◌, length, length-append, take, drop,
  take-append, drop-append, All, some, arith,
}
use central_unit.Bytes.{Bytes, be}
use central_unit.Bytes.Hex.{decode_string}
use central_unit.Bytes.Laws.{be-put_be}
use central_unit.Kdf.{kdf_len, append_params, kdf_input}

-- The length of the parameter fits its two bytes.
abbrev pub IsShort : Bytes → Type 0
IsShort p = length p < 2 ^ 16

append_cancel :
    (xs ys zs ws : Bytes) → length zs ≡ length ws → xs ++ zs ≡ ys ++ ws → (xs ≡ ys) × (zs ≡ ws)
append_cancel xs ys zs ws h e =
    let measured = ap (λ (l : Bytes). length l) e in
    let same : length xs ≡ length ys =
      omega (arith, measured, length-append xs zs, length-append ys ws) in
    (
      sym (take-append xs zs)
          ∙ ap (λ (l : Bytes). take (length xs) l) e
          ∙ ap (λ (n : ℕ). take n (ys ++ ws)) same
          ∙ take-append ys ws,
      sym (drop-append xs zs)
          ∙ ap (λ (l : Bytes). drop (length xs) l) e
          ∙ ap (λ (n : ℕ). drop n (ys ++ ws)) same
          ∙ drop-append ys ws,
    )

length-kdf_len : (p : Bytes) → length (kdf_len p) ≡ 2
unfolding kdf_len
length-kdf_len p = refl

kdf_len-length : (p q : Bytes) → IsShort p → IsShort q → kdf_len p ≡ kdf_len q → length p ≡ length q
unfolding kdf_len
kdf_len-length p q hp hq e = omega (
  arith,
  ap be e,
  be-put_be 2 (length p % 2 ^ 16) (omega arith),
  be-put_be 2 (length q % 2 ^ 16) (omega arith),
)

pub append_params_injective :
    (ps qs : List Bytes) (s t : Bytes)
    → length ps ≡ length qs
    → All IsShort ps
    → All IsShort qs
    → append_params s ps ≡ append_params t qs
    → (s ≡ t) × (ps ≡ qs)
unfolding append_params
append_params_injective [] [] s t n hp hq e = (e, refl)
append_params_injective [] (q ∷ qs) s t n hp hq e = absurd (omega arith)
append_params_injective (p ∷ ps) [] s t n hp hq e = absurd (omega arith)
append_params_injective (p ∷ ps) (q ∷ qs) s t n hp hq e =
    let (front, rest) =
      append_params_injective ps qs ((s ++ p) ++ kdf_len p) ((t ++ q) ++ kdf_len q) (omega arith)
        hp.1 hq.1 e in
    let (heads, lens) =
      append_cancel (s ++ p) (t ++ q) (kdf_len p) (kdf_len q)
        (length-kdf_len p ∙ sym (length-kdf_len q)) front in
    let (starts, firsts) = append_cancel s t p q (kdf_len-length p q hp.0 hq.0 lens) heads in
    (starts, cc)

-- Two calls with as many parameters, each shorter than 2^16 bytes, have the same HMAC message only
-- if their parameters are the same and their function codes stand for the same bytes.
pub kdf_input_injective :
    (fc gc s : Bytes) (ps qs : List Bytes)
    → length ps ≡ length qs
    → All IsShort ps
    → All IsShort qs
    → kdf_input fc ps ≡ some s
    → kdf_input gc qs ≡ some s
    → ((decode_string fc).0 ≡ (decode_string gc).0) × (ps ≡ qs)
unfolding kdf_input
kdf_input_injective fc gc s ps qs n hp hq e f =
    append_params_injective ps qs (decode_string fc).0 (decode_string gc).0 n hp hq (ground arith)
