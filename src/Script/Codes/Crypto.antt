-- ===== src/Script/Codes/Crypto.antt =====
-- packages/jellyfish-transaction/src/script/crypto.ts: hashes and signatures, with the byte of each class.
use Prim.Native.Nat.{ℕ}

pub data CryptoCode : Type 0 where
  op_ripemd160 op_sha1 op_sha3 op_sha256 op_hash160 op_hash256 op_codeseparator op_checksig :
      CryptoCode
  op_checksigverify op_checkmultisig op_checkmultisigverify : CryptoCode

unfoldable pub crypto_code : CryptoCode → ℕ
crypto_code op_ripemd160 = 0xa6
crypto_code op_sha1 = 0xa7
crypto_code op_sha3 = 0xc0
crypto_code op_sha256 = 0xa8
crypto_code op_hash160 = 0xa9
crypto_code op_hash256 = 0xaa
crypto_code op_codeseparator = 0xab
crypto_code op_checksig = 0xac
crypto_code op_checksigverify = 0xad
crypto_code op_checkmultisig = 0xae
crypto_code op_checkmultisigverify = 0xaf
