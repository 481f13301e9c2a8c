-- ===== src/Crypto.antt =====
-- internal/crypto/aes.go: the encryption of credentials.
use fleetlift.Prelude.{
  ℕ, zero, suc, String, ◌≡◌, refl, sym, ap, subst, false, List, [], ◌∷◌, ◌++◌, length, ltb,
  if◌then◌else◌, arith, length-append,
}
use fleetlift.Prelude.Text.{◌+++◌}
use fleetlift.Activities.Box.{Answer, done, fails}

-- A sequence of bytes, as a Go string is too.
abbrev pub Bytes : Type 0
Bytes = List ℕ

-- A block cipher in Galois counter mode, without additional data.
pub record Gcm : Type 0 where
  pub nonce_size : ℕ
  pub seal : (nonce plaintext : Bytes) → Bytes
  pub open_sealed : (nonce ciphertext : Bytes) → Answer Bytes

-- hex.DecodeString, aes.NewCipher and cipher.NewGCM.
pub record Library : Type 0 where
  pub decode_hex : String → Answer Bytes
  pub new_cipher : Bytes → Answer Bytes
  pub new_gcm : Bytes → Answer Gcm

abbrev pub and_then : {A B : Type 0} → String → Answer A → (A → Answer B) → Answer B
and_then label (done a) f = f a
and_then label (fails text) f = fails (label +++ ": " +++ text)

-- `ciphertext[:n]` and `ciphertext[n:]`
unfoldable pub take_bytes : ℕ → Bytes → Bytes
take_bytes zero bs = []
take_bytes (suc n) [] = []
take_bytes (suc n) (b ∷ bs) = b ∷ take_bytes n bs

unfoldable pub drop_bytes : ℕ → Bytes → Bytes
drop_bytes zero bs = bs
drop_bytes (suc n) [] = []
drop_bytes (suc n) (b ∷ bs) = drop_bytes n bs

module _ (library : Library) where
  -- The cipher of a key.
  abbrev pub gcm_of : String → (Gcm → Answer Bytes) → Answer Bytes
  gcm_of key_hex f = and_then "decode key" (library.decode_hex key_hex) λ key.
      and_then "create cipher" (library.new_cipher key)
        λ block. and_then "create GCM" (library.new_gcm block) f

  abbrev pub open_with : Bytes → Gcm → Answer Bytes
  open_with ciphertext gcm =
      if ltb (length ciphertext) gcm.nonce_size
      then fails "ciphertext too short"
      else and_then "decrypt"
          (gcm.open_sealed (take_bytes gcm.nonce_size ciphertext)
            (drop_bytes gcm.nonce_size ciphertext))
          done

  -- `DecryptAESGCM`
  unfoldable pub decrypt_aes_gcm : (key_hex : String) (ciphertext : Bytes) → Answer Bytes
  unfolding take_bytes drop_bytes
  decrypt_aes_gcm key_hex ciphertext = gcm_of key_hex (open_with ciphertext)

  -- What `io.ReadFull` reads for a size.
  abbrev pub seal_with : (ℕ → Answer Bytes) → Bytes → Gcm → Answer Bytes
  seal_with random plaintext gcm =
      and_then "generate nonce" (random gcm.nonce_size)
        λ nonce. done (nonce ++ gcm.seal nonce plaintext)

  -- `EncryptAESGCM`
  unfoldable pub encrypt_aes_gcm :
      (random : ℕ → Answer Bytes) (key_hex : String) (plaintext : Bytes) → Answer Bytes
  encrypt_aes_gcm random key_hex plaintext = gcm_of key_hex (seal_with random plaintext)

take-append : (xs ys : Bytes) → take_bytes (length xs) (xs ++ ys) ≡ xs
unfolding take_bytes
take-append [] ys = refl
take-append (x ∷ xs) ys = ap (λ l. x ∷ l) (take-append xs ys)

drop-append : (xs ys : Bytes) → drop_bytes (length xs) (xs ++ ys) ≡ ys
unfolding drop_bytes
drop-append [] ys = refl
drop-append (x ∷ xs) ys = drop-append xs ys

-- What the code relies on: a cipher opens what it has sealed with a nonce of its size, and as many
-- random bytes are read as are asked for.
pub record Trusted (library : Library) (random : ℕ → Answer Bytes) : Type 0 where
  pub opens :
      (block : Bytes) (gcm : Gcm)
      → library.new_gcm block ≡ done gcm
      → (nonce plaintext : Bytes) → length nonce ≡ gcm.nonce_size
      → gcm.open_sealed nonce (gcm.seal nonce plaintext) ≡ done plaintext
  pub fills : (n : ℕ) (nonce : Bytes) → random n ≡ done nonce → length nonce ≡ n

module _ (library : Library) (random : ℕ → Answer Bytes) (trusted : Trusted library random)
    (key_hex : String) (plaintext sealed : Bytes) where
  done_injective : {a b : Bytes} → done a ≡ done b → a ≡ b
  done_injective e = cc

  sealed-opens :
      (block : Bytes) (gcm : Gcm) (nonce : Bytes)
      → library.new_gcm block ≡ done gcm
      → length nonce ≡ gcm.nonce_size
      → open_with library (nonce ++ gcm.seal nonce plaintext) gcm ≡ done plaintext
  sealed-opens block gcm nonce made size =
      let body = gcm.seal nonce plaintext in
      let enough : ltb (length (nonce ++ body)) gcm.nonce_size ≡ false =
        ground (arith, size, length-append nonce body) in
      rw
        (
          enough,
          sym size,
          take-append,
          drop-append,
          trusted.opens block gcm made nonce plaintext size,
        )
        refl

  from_nonce :
      (block : Bytes) (gcm : Gcm) (r : Answer Bytes)
      → library.new_gcm block ≡ done gcm
      → random gcm.nonce_size ≡ r
      → and_then "generate nonce" r (λ nonce. done (nonce ++ gcm.seal nonce plaintext))
        ≡ done sealed
      → open_with library sealed gcm ≡ done plaintext
  from_nonce block gcm (fails text) made read e = cc
  from_nonce block gcm (done nonce) made read e =
      subst (λ c. open_with library c gcm ≡ done plaintext) (done_injective e)
        (sealed-opens block gcm nonce made (trusted.fills gcm.nonce_size nonce read))

  from_gcm :
      (block : Bytes) (g : Answer Gcm)
      → library.new_gcm block ≡ g
      → and_then "create GCM" g (seal_with library random plaintext) ≡ done sealed
      → and_then "create GCM" g (open_with library sealed) ≡ done plaintext
  from_gcm block (fails text) made e = cc
  from_gcm block (done gcm) made e = from_nonce block gcm (random gcm.nonce_size) made refl e

  from_key :
      (k : Answer Bytes) (f g : Bytes → Answer Bytes)
      → ((key : Bytes) → f key ≡ done sealed → g key ≡ done plaintext)
      → (label : String) → and_then label k f ≡ done sealed
      → and_then label k g ≡ done plaintext
  from_key (done key) f g both label e = both key e
  from_key (fails text) f g both label e = cc

  -- What `EncryptAESGCM` returns, `DecryptAESGCM` turns back into the text, under the same key, if the
  -- cipher opens what it seals and the nonce is read in full.
  pub decrypt_aes_gcm-encrypt :
      encrypt_aes_gcm library random key_hex plaintext ≡ done sealed
      → decrypt_aes_gcm library key_hex sealed ≡ done plaintext
  unfolding decrypt_aes_gcm encrypt_aes_gcm
  decrypt_aes_gcm-encrypt e =
      from_key (library.decode_hex key_hex) _ _
        (λ key.
          from_key (library.new_cipher key) _ _
            (λ block. from_gcm block (library.new_gcm block) refl) "create cipher")
        "decode key" e
