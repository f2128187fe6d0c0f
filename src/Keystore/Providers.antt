-- ===== src/Keystore/Providers.antt =====
-- keystore/providers.py: where the data-encryption key comes from. Base64 text of the standard
-- library's `b64encode` is kept as the bytes that it encodes.
use gmail_b1_gateway.Prelude.{ℕ, String, Option, none, some, List, length, beq, if◌then◌else◌}
use gmail_b1_gateway.Errors.{
  Result, ok, err, key_unavailable, key_backend_unavailable, key_material, Action,
}

abbrev pub Bytes : Type 0
Bytes = List ℕ

-- A text that should be base64: the bytes that it decodes to, or no valid base64.
pub data Encoded : Type 0 where
  base64 : Bytes → Encoded
  invalid : String → Encoded

-- `_DEK_LEN`
abbrev pub dek_len : ℕ
dek_len = 32

-- `InMemoryKeyProvider.get_dek`
unfoldable pub in_memory_dek : Option Bytes → Result Bytes
in_memory_dek none = err key_unavailable
in_memory_dek (some dek) = ok dek

-- What the keychain backend answers to `get_password`: an exception, no entry, or an entry.
pub data Keychain : Type 0 where
  down : Keychain
  absent : Keychain
  entry : Encoded → Keychain

-- `KeyringKeyProvider.get_dek`
unfoldable pub keyring_dek : Keychain → Result Bytes
keyring_dek down = err key_backend_unavailable
keyring_dek absent = err key_unavailable
keyring_dek (entry (invalid text)) = err key_material
keyring_dek (entry (base64 dek)) = if beq (length dek) dek_len then ok dek else err key_material

-- `KeyringKeyProvider.provision`, with the fresh random key that it draws. A backend that raises
-- does so through it, with an exception that is not one of the keystore's.
unfoldable pub provision : Bytes → Action Keychain (Unit {0})
provision fresh down = (err key_backend_unavailable, down)
provision fresh absent = (ok tt, entry (base64 fresh))
provision fresh (entry e) = (err key_material, entry e)
