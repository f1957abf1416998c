-- ===== src/Keys/Framing.antt =====
-- keys.py: the length framing is unambiguous, so that a key stands for its parts.
use activegraph_surrealdb.Prelude.{
  ℕ, zero, suc, String, ◌/◌, ◌%◌, ◌^◌, ◌<◌, ◌≡◌, refl, ap, ap₂, sym, ◌∙◌, List, [], ◌∷◌, ◌++◌,
  length, arith, length-append, All, ◌⊎◌, inl, inr, ◌≢◌,
}
use mathlib.Core.List.{append_assoc, List-discrete}
use native.Mathlib.Decide.{ℕ_discrete}
use native.Mathlib.Nat.{pow-suc}
use activegraph_surrealdb.Platform.{Platform}
use activegraph_surrealdb.Keys.{to_bytes, frame, frames, encoded_parts, record_key}

length-to_bytes : (w n : ℕ) → length (to_bytes w n) ≡ w
unfolding to_bytes
length-to_bytes zero n = refl
length-to_bytes (suc w) n =
    omega
      (arith, length-append (to_bytes w (n / 256)) ((n % 256) ∷ []), length-to_bytes w (n / 256))

-- Two appends of parts of one length are equal part by part.
append_inj {ℓ} :
    {A : Type ℓ} (a b c d : List A) → length a ≡ length b → a ++ c ≡ b ++ d → (a ≡ b) × (c ≡ d)
append_inj [] [] c d n e = (refl, e)
append_inj [] (y ∷ b) c d n e = absurd (omega arith)
append_inj (x ∷ a) [] c d n e = absurd (omega arith)
append_inj (x ∷ a) (y ∷ b) c d n e = let (p, q) = append_inj a b c d (omega arith) (cc) in (cc p, q)

div-lt_pow : (w n : ℕ) → n < 256 ^ suc w → n / 256 < 256 ^ w
div-lt_pow w n h = omega (arith, pow-suc 256 w)

-- A frame is not empty.
frame-pos : (a r : List ℕ) → 0 < length (frame a ++ r)
unfolding frame
frame-pos a r = omega (
  arith,
  length-append (to_bytes 8 (length a) ++ a) r,
  length-append (to_bytes 8 (length a)) a,
  length-to_bytes 8 (length a),
)

to_bytes_inj : (w n m : ℕ) → n < 256 ^ w → m < 256 ^ w → to_bytes w n ≡ to_bytes w m → n ≡ m
unfolding to_bytes
to_bytes_inj zero n m hn hm e = omega arith
to_bytes_inj (suc w) n m hn hm e =
    let (p, q) =
      append_inj (to_bytes w (n / 256)) (to_bytes w (m / 256)) _ _
        (length-to_bytes w (n / 256) ∙ sym (length-to_bytes w (m / 256))) e in
    let r : n % 256 ≡ m % 256 = cc q in
    let s : n / 256 ≡ m / 256 =
      to_bytes_inj w (n / 256) (m / 256) (div-lt_pow w n hn) (div-lt_pow w m hm) p in
    omega arith

-- Every part is shorter than 2 ^ 64 bytes, the range of `to_bytes(8, "big")`.
abbrev pub Fits : List ℕ → Type 0
Fits part = length part < 256 ^ 8

frame_inj : (a b r s : List ℕ) → Fits a → Fits b → frame a ++ r ≡ frame b ++ s → (a ≡ b) × (r ≡ s)
unfolding frame
frame_inj a b r s fa fb e =
    let (p, q) =
      append_inj (to_bytes 8 (length a)) (to_bytes 8 (length b)) (a ++ r) (b ++ s)
        (length-to_bytes 8 (length a) ∙ sym (length-to_bytes 8 (length b)))
        (sym (append_assoc (to_bytes 8 (length a)) a r)
          ∙ e
          ∙ append_assoc (to_bytes 8 (length b)) b s) in
    append_inj a b r s (to_bytes_inj 8 (length a) (length b) fa fb p) q

-- Different lists of byte strings have different framed concatenations.
pub frames_inj :
    (xs ys : List (List ℕ)) → All Fits xs → All Fits ys → frames xs ≡ frames ys → xs ≡ ys
unfolding frames
frames_inj [] [] hx hy e = refl
frames_inj [] (y ∷ ys) hx hy e = absurd (omega (arith, ap length e, frame-pos y (frames ys)))
frames_inj (x ∷ xs) [] hx hy e = absurd (omega (arith, ap length e, frame-pos x (frames xs)))
frames_inj (x ∷ xs) (y ∷ ys) hx hy e =
    let (p, q) = frame_inj x y (frames xs) (frames ys) hx.0 hy.0 e in
    ap₂ (λ h t. h ∷ t) p (frames_inj xs ys hx.1 hy.1 q)

module _ ⦃p : Platform⦄ where
  encoded_parts_inj :
      (xs ys : List String)
      → ((a b : String) → p.utf8 a ≡ p.utf8 b → a ≡ b)
      → encoded_parts xs ≡ encoded_parts ys
      → xs ≡ ys
  unfolding encoded_parts
  encoded_parts_inj [] [] utf8_inj e = refl
  encoded_parts_inj [] (y ∷ ys) utf8_inj e = absurd (cc)
  encoded_parts_inj (x ∷ xs) [] utf8_inj e = absurd (cc)
  encoded_parts_inj (x ∷ xs) (y ∷ ys) utf8_inj e =
      ap₂ (λ h t. h ∷ t) (utf8_inj x y (cc)) (encoded_parts_inj xs ys utf8_inj (cc))

  -- With UTF-8 injective, two lists of parts, each part shorter than 2 ^ 64 bytes, have one key only
  -- if they are the same parts, or if their framed bytes are a collision of SHA-256: no part runs
  -- into the next.
  pub record_key_inj :
      (xs ys : List String)
      → ((a b : String) → p.utf8 a ≡ p.utf8 b → a ≡ b)
      → All Fits (encoded_parts xs)
      → All Fits (encoded_parts ys)
      → record_key xs ≡ record_key ys
      → (xs ≡ ys)
        ⊎ ((frames (encoded_parts xs) ≢ frames (encoded_parts ys))
            × (p.sha256 (frames (encoded_parts xs)) ≡ p.sha256 (frames (encoded_parts ys))))
  unfolding record_key
  record_key_inj xs ys utf8_inj fx fy e =
      elim (List-discrete ℕ_discrete (frames (encoded_parts xs)) (frames (encoded_parts ys))) [
        | yes same ↦ inl (
            encoded_parts_inj xs ys utf8_inj
              (frames_inj (encoded_parts xs) (encoded_parts ys) fx fy same))
        | no differ ↦ inr (differ, e)
      ]
