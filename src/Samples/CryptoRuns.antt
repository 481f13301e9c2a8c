-- ===== src/Samples/CryptoRuns.antt =====
-- The encryption of a credential, with a small cipher.
use fleetlift.Prelude.{ℕ, zero, suc, ◌≡◌, refl, ap, subst, sym, ◌∙◌, [], ◌∷◌, length}
use fleetlift.Activities.Box.{Answer, done, fails}
use fleetlift.Crypto.{
  Bytes, Gcm, Library, Trusted, encrypt_aes_gcm, decrypt_aes_gcm, decrypt_aes_gcm-encrypt,
}

-- A cipher that puts a tag in front.
abbrev open_tagged : Bytes → Bytes → Answer Bytes
open_tagged nonce [] = fails "no tag"
open_tagged nonce (tag ∷ rest) = done rest

abbrev tagged : Gcm
tagged = record { nonce_size = 2; seal = λ nonce p. 7 ∷ p; open_sealed = open_tagged }

abbrev tagging : Library
tagging = record {
  decode_hex = λ s. done (1 ∷ []);
  new_cipher = λ key. done key;
  new_gcm = λ block. done tagged;
}

abbrev repeated : ℕ → Bytes
repeated zero = []
repeated (suc n) = 4 ∷ repeated n

length-repeated : (n : ℕ) → length (repeated n) ≡ n
length-repeated zero = refl
length-repeated (suc n) = ap suc (length-repeated n)

tagging-Trusted : Trusted tagging (λ n. done (repeated n))
tagging-Trusted = record {
  opens = λ block gcm made nonce p size.
      subst (λ g. g.open_sealed nonce (g.seal nonce p) ≡ done p) (gcm_injective made) refl;
  fills = λ n nonce read. ap length (sym (bytes_injective read)) ∙ length-repeated n;
}
  where
    gcm_injective : {g h : Gcm} → done g ≡ done h → g ≡ h
    gcm_injective e = cc

    bytes_injective : {a b : Bytes} → done a ≡ done b → a ≡ b
    bytes_injective e = cc

sealed :
    encrypt_aes_gcm tagging (λ n. done (repeated n)) "00" (1 ∷ 2 ∷ [])
    ≡ done (4 ∷ 4 ∷ 7 ∷ 1 ∷ 2 ∷ [])
unfolding encrypt_aes_gcm
sealed = refl

decrypt_aes_gcm-encrypt_example :
    decrypt_aes_gcm tagging "00" (4 ∷ 4 ∷ 7 ∷ 1 ∷ 2 ∷ []) ≡ done (1 ∷ 2 ∷ [])
decrypt_aes_gcm-encrypt_example =
    decrypt_aes_gcm-encrypt tagging (λ n. done (repeated n)) tagging-Trusted "00" (1 ∷ 2 ∷ [])
      (4 ∷ 4 ∷ 7 ∷ 1 ∷ 2 ∷ []) sealed
