-- ===== src/Utils/Aes/RoundTrip.antt =====
-- EncryptAESCBC and DecryptAESCBC of pkg/utils/aes.go undo each other.
use huaweicloud_csi_driver.Prelude.{
  ℕ, zero, suc, ◌+◌, ◌-◌, ◌%◌, ◌≤◌, ◌≡◌, refl, ap, ◌∙◌, arith, true, false, some, List, [], ◌∷◌,
  ◌++◌, length, last?, take, drop, replicate, eqb, ltb, length-append,
}
use huaweicloud_csi_driver.Status.{ok}
use huaweicloud_csi_driver.Effect.{attempt}
use huaweicloud_csi_driver.Utils.Sha256.{Bytes}
use huaweicloud_csi_driver.Utils.Aes.{
  Library, block_size, new_cipher, crypt_blocks, padded, unpadded, encrypt_aes_cbc, decrypt_bytes,
  decrypt_aes_cbc,
}

-- What the packages document: a decrypter undoes the encrypter of the same key and vector, which keeps the
-- length of the blocks, and base64 decodes what it encodes.
pub record IsLibrary {S : Type 0} (L : Library S) : Type 0 where
  pub inverse :
      (key iv blocks : Bytes)
      → length iv ≡ block_size
      → length blocks % block_size ≡ 0
      → L.decrypt_blocks key iv (L.encrypt_blocks key iv blocks) ≡ blocks
  pub same_length :
      (key iv blocks : Bytes) → length (L.encrypt_blocks key iv blocks) ≡ length blocks
  pub decodes : (bytes : Bytes) → L.decode_base64 (L.encode_base64 bytes) ≡ ok bytes

module _ {A : Type 0} where
  length-replicate : (n : ℕ) (a : A) → length (replicate n a) ≡ n
  length-replicate zero a = refl
  length-replicate (suc n) a = ap suc (length-replicate n a)

  take-append : (xs ys : List A) (n : ℕ) → length xs ≡ n → take n (xs ++ ys) ≡ xs
  take-append [] [] zero h = refl
  take-append [] (y ∷ ys) zero h = refl
  take-append [] ys (suc n) h = absurd (omega arith)
  take-append (x ∷ xs) ys zero h = absurd (omega arith)
  take-append (x ∷ xs) ys (suc n) h = ap (◌∷◌ x) (take-append xs ys n (omega arith))

  drop-append : (xs ys : List A) (n : ℕ) → length xs ≡ n → drop n (xs ++ ys) ≡ ys
  drop-append [] ys zero h = refl
  drop-append [] ys (suc n) h = absurd (omega arith)
  drop-append (x ∷ xs) ys zero h = absurd (omega arith)
  drop-append (x ∷ xs) ys (suc n) h = drop-append xs ys n (omega arith)

  last?-replicate : (n : ℕ) (a : A) → last? (replicate (suc n) a) ≡ some a
  last?-replicate zero a = refl
  last?-replicate (suc n) a = last?-replicate n a

  last?-append : (xs : List A) (n : ℕ) (a : A) → last? (xs ++ replicate (suc n) a) ≡ some a
  last?-append [] n a = last?-replicate n a
  last?-append (x ∷ []) n a = last?-replicate n a
  last?-append (x ∷ y ∷ xs) n a = last?-append (y ∷ xs) n a

padding_of : (original : Bytes) → (p : ℕ) × (16 - length original % 16 ≡ suc p) × (suc p ≤ 16)
padding_of original = (15 - length original % 16, omega arith, omega arith)

length-padded : (original : Bytes) → length (padded original) % block_size ≡ 0
unfolding padded
length-padded original =
    let sum =
      length-append original (replicate (16 - length original % 16) (16 - length original % 16)) in
    let count = length-replicate (16 - length original % 16) (16 - length original % 16) in
    omega (arith, sum, count)

unpadded-padded :
    (original : Bytes) → unpadded (padded original) (last? (padded original)) ≡ ok original
unfolding padded
unpadded-padded original =
    let (p, padding, small) = padding_of original in
    let count : length (original ++ replicate (suc p) (suc p)) ≡ length original + suc p =
      length-append original (replicate (suc p) (suc p))
      ∙ ap (λ (n : ℕ). length original + n) (length-replicate (suc p) (suc p)) in
    let enough : ltb (length original + suc p) (suc p) ≡ false = ground arith in
    let rest : length original + suc p - suc p ≡ length original = omega arith in
    rw (padding, last?-append original p (suc p), count, enough, rest)
      (ap ok (take-append original (replicate (suc p) (suc p)) (length original) refl))

tests_equal : (n m : ℕ) → n ≡ m → eqb n m ≡ true
tests_equal n m h = ground arith

module _ {S : Type 0} (L : Library S) (lawful : IsLibrary L) where
  decrypt_bytes-encrypted :
      (key original iv : Bytes) (s : S)
      → length iv ≡ block_size
      → decrypt_bytes L key (iv ++ L.encrypt_blocks key iv (padded original)) s ≡ (ok original, s)
  unfolding decrypt_bytes crypt_blocks attempt
  decrypt_bytes-encrypted key original iv s whole =
      let blocks : Bytes = L.encrypt_blocks key iv (padded original) in
      let count = length-append iv blocks in
      let long : ltb (length (iv ++ blocks)) block_size ≡ false = ground (arith, count, whole) in
      let even : eqb (length blocks % block_size) 0 ≡ true = tests_equal _ 0 (
        ap (λ (n : ℕ). n % block_size) (lawful.same_length key iv (padded original))
        ∙ length-padded original) in
      rw
        (
          long,
          take-append iv blocks block_size whole,
          drop-append iv blocks block_size whole,
          even,
          lawful.inverse key iv (padded original) whole (length-padded original),
          unpadded-padded original,
        )
        refl

  -- With a key that is sixteen, twenty-four or thirty-two bytes long, EncryptAESCBC encrypts every text, of any
  -- length, without a panic where the random bytes are read, and DecryptAESCBC with that key gives the text
  -- back.
  pub decrypt_aes_cbc-encrypt_aes_cbc :
      (key original iv : Bytes) (s s' : S)
      → new_cipher key ≡ ok tt
      → L.read_random block_size s ≡ (ok iv, s')
      → length iv ≡ block_size
      → (token : Bytes) × (encrypt_aes_cbc L key original s ≡ (ok token, s'))
        × ((t : S) → decrypt_aes_cbc L key token t ≡ (ok original, t))
  unfolding encrypt_aes_cbc decrypt_aes_cbc crypt_blocks attempt
  decrypt_aes_cbc-encrypt_aes_cbc key original iv s s' valid read whole =
      let even = tests_equal _ 0 (length-padded original) in
      (
        L.encode_base64 (iv ++ L.encrypt_blocks key iv (padded original)),
        rw (valid, read, even) refl,
        λ t.
            rw
              (
                lawful.decodes (iv ++ L.encrypt_blocks key iv (padded original)),
                valid,
                decrypt_bytes-encrypted key original iv t whole,
              )
              refl,
      )
