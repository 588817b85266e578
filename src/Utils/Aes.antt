-- ===== src/Utils/Aes.antt =====
-- pkg/utils/aes.go. The library is a parameter: the block modes of crypto/aes and crypto/cipher, base64, and
-- the source of random bytes.
pub mod RoundTrip
use huaweicloud_csi_driver.Prelude.{
  ℕ, ◌+◌, ◌-◌, ◌%◌, ◌≡◌, Bool, ◌||◌, Option, none, some, List, ◌++◌, length, last?, take, drop,
  replicate, eqb, ltb, if◌then◌else◌,
}
use huaweicloud_csi_driver.Status.{Error, Result, ok, err, plain, wrapping, panic, internal}
use huaweicloud_csi_driver.Effect.{M, pure, fail, lift, attempt, ◌>>=◌, ◌>>◌, map_error}
use huaweicloud_csi_driver.Utils.Sha256.{Bytes}

pub record Library (S : Type 0) : Type 0 where
  -- CryptBlocks of a CBC encrypter and decrypter, for a key, an initialisation vector and whole blocks
  pub encrypt_blocks : Bytes → Bytes → Bytes → Bytes
  pub decrypt_blocks : Bytes → Bytes → Bytes → Bytes
  -- base64.StdEncoding
  pub encode_base64 : Bytes → Bytes
  pub decode_base64 : Bytes → Result Bytes
  -- io.ReadFull(rand.Reader, …) of so many bytes
  pub read_random : ℕ → M S Bytes

-- aes.BlockSize
abbrev pub block_size : ℕ
block_size = 16

-- aes.NewCipher refuses a key whose length is not one of three.
unfoldable pub new_cipher : Bytes → Result (Unit {0})
new_cipher key =
    if eqb (length key) 16 || (eqb (length key) 24 || eqb (length key) 32)
    then ok tt
    else err (plain "crypto/aes: invalid key size")

-- CryptBlocks panics unless the blocks are whole.
unfoldable pub crypt_blocks : (Bytes → Bytes) → Bytes → Result Bytes
crypt_blocks mode blocks =
    if eqb (length blocks % block_size) 0 then ok (mode blocks) else err panic

-- The text with its padding: as many bytes as are missing to whole blocks, or a block, each that number.
unfoldable pub padded : Bytes → Bytes
padded original =
    let padding = block_size - length original % block_size in original ++ replicate padding padding

-- The text without its padding: an index out of range, or a slice of it, panics.
abbrev pub unpadded : Bytes → Option ℕ → Result Bytes
unpadded bytes none = err panic
unpadded bytes (some padding) =
    if ltb (length bytes) padding then err panic else ok (take (length bytes - padding) bytes)

module _ {S : Type 0} (L : Library S) where
  -- EncryptAESCBC
  unfoldable pub encrypt_aes_cbc : Bytes → Bytes → M S Bytes
  unfolding new_cipher crypt_blocks padded
  encrypt_aes_cbc key original = do
    map_error (wrapping internal) (lift (new_cipher key))
    iv ← L.read_random block_size
    blocks ← lift (crypt_blocks (L.encrypt_blocks key iv) (padded original))
    pure (L.encode_base64 (iv ++ blocks))

  -- The part of DecryptAESCBC behind the cipher.
  unfoldable pub decrypt_bytes : Bytes → Bytes → M S Bytes
  unfolding crypt_blocks
  decrypt_bytes key cipher_bytes = if ltb (length cipher_bytes) block_size then fail panic else (do
    bytes ← lift (
        crypt_blocks (L.decrypt_blocks key (take block_size cipher_bytes))
          (drop block_size cipher_bytes))
    lift (unpadded bytes (last? bytes)))

  -- DecryptAESCBC
  unfoldable pub decrypt_aes_cbc : Bytes → Bytes → M S Bytes
  unfolding new_cipher
  decrypt_aes_cbc key ciphertext = do
    cipher_bytes ← map_error (wrapping internal) (lift (L.decode_base64 ciphertext))
    map_error (wrapping internal) (lift (new_cipher key))
    decrypt_bytes key cipher_bytes
