-- ===== src/Secrets/KeyPair.antt =====
-- internal/secrets/credentials.go: a fresh key pair. Key generation and the encodings of the
-- standard library are parameters.
use yukimi.Effects.{Action, rename_error, ◌>>=◌, pure, lift}
use yukimi.Errors.{Error, Result, ok, err, wrap}
use yukimi.Base.{Str, text, ℕ}

-- What `GenerateKeyPair` uses of crypto/rsa, crypto/x509, encoding/pem and encoding/base64, on keys
-- of type `K`.
pub record KeyCrypto (S K : Type 0) : Type 0 where
  -- `rsa.GenerateKey(rand.Reader, bits)`
  pub generate_key : ℕ → Action S K
  pub marshal_public : K → Result Str
  pub marshal_pkcs8 : K → Result Str
  pub base64 : Str → Str
  -- `pem.EncodeToMemory`, of a block with its type
  pub pem_encode : Str → Str → Str

abbrev pub min_rsa_bits : ℕ
min_rsa_bits = 2048

pub generation_failed : Error → Error
generation_failed = wrap (text "failed to generate RSA key pair: ")

module _ {S K : Type 0} (c : KeyCrypto S K) where
  unfoldable pub encode_pair : Str → Str → Str × Str
  encode_pair public_der private_der =
      (c.base64 public_der, c.pem_encode (text "PRIVATE KEY") private_der)

  -- Both halves of a key, if both can be encoded.
  unfoldable pub encode_key : Result Str → Result Str → Action S (Str × Str)
  unfolding encode_pair
  encode_key public_half private_half = do
    public_der ← lift (rename_error generation_failed public_half)
    private_der ← lift (rename_error generation_failed private_half)
    pure (encode_pair public_der private_der)

  unfoldable pub encode_generated : Result K × S → Result (Str × Str) × S
  unfolding encode_key
  encode_generated (err e, s) = (err (generation_failed e), s)
  encode_generated (ok key, s) = encode_key (c.marshal_public key) (c.marshal_pkcs8 key) s

  -- `GenerateKeyPair`
  unfoldable pub generate_key_pair : Action S (Str × Str)
  unfolding encode_generated
  generate_key_pair s = encode_generated (c.generate_key min_rsa_bits s)
