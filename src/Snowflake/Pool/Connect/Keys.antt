-- ===== src/Snowflake/Pool/Connect/Keys.antt =====
-- The keys that internal/secrets/credentials.go makes, in the hands of internal/snowflake/pool.
use yukimi.Snowflake.Pool.Connect.{Crypto, parse_private_key, public_key_fingerprint}
use yukimi.Secrets.KeyPair.{
  KeyCrypto, min_rsa_bits, encode_pair, encode_key, encode_generated, generate_key_pair,
}
use yukimi.Results.{ok_inj, err-not-ok}
use yukimi.Errors.{Result, ok, err}
use yukimi.Base.{Str, text, ◌≡◌, refl, sym, ap, ◌∙◌, some, ◌++◌}

-- The documented behaviour of the encodings: what is written is read back, and both sides write a
-- public key alike.
pub record IsPaired {S K : Type 0} (k : KeyCrypto S K) (c : Crypto K) : Type 0 where
  pub reads_block : (kind der : Str) → c.pem_decode (k.pem_encode kind der) ≡ some der
  pub reads_key :
      (key : K) (der : Str)
      → k.marshal_pkcs8 key ≡ ok der
      → (any : c.AnyKey) × (c.parse_pkcs8 der ≡ ok any) × (c.rsa_key any ≡ some key)
  pub same_public : (key : K) → k.marshal_public key ≡ c.marshal_public key

module _ {S K : Type 0} (k : KeyCrypto S K) (c : Crypto K) (law : IsPaired k c) where
  parse_encoded :
      (key : K) (der : Str)
      → k.marshal_pkcs8 key ≡ ok der
      → parse_private_key c (k.pem_encode (text "PRIVATE KEY") der) ≡ ok key
  unfolding parse_private_key
  parse_encoded key der h =
      let (any, parsed, rsa) = law.reads_key key der h in
      rw (law.reads_block (text "PRIVATE KEY") der, parsed, rsa) refl

  -- That a private half is read back as a key with the public half.
  abbrev Paired : Str → Str → Type 0
  Paired public_key private_key =
      (key : K) × (der : Str) × (parse_private_key c private_key ≡ ok key)
      × (public_key ≡ k.base64 der)
      × (public_key_fingerprint c key ≡ text "SHA256:" ++ c.base64 (c.sha256 der))

  encoded_pair :
      (key : K) (p q : Result Str) (s : S) (public_key private_key : Str)
      → k.marshal_public key ≡ p
      → k.marshal_pkcs8 key ≡ q
      → (encode_key k p q s).0 ≡ ok (public_key, private_key)
      → Paired public_key private_key
  unfolding generate_key_pair public_key_fingerprint
  encoded_pair key (err e) q s public_key private_key made kept h = err-not-ok h
  encoded_pair key (ok der) (err e) s public_key private_key made kept h = err-not-ok h
  encoded_pair key (ok der) (ok private_der) s public_key private_key made kept h =
      let e = ok_inj (encode_pair k der private_der) (public_key, private_key) h in
      (
        key,
        der,
        ap (parse_private_key c) (sym (ap (λ (t : Str × Str). t.1) e))
            ∙ parse_encoded key private_der kept,
        sym (ap (λ (t : Str × Str). t.0) e),
        rw (sym (law.same_public key) ∙ made) refl,
      )

  generated_pair :
      (r : Result K × S) (public_key private_key : Str)
      → (encode_generated k r).0 ≡ ok (public_key, private_key)
      → Paired public_key private_key
  unfolding generate_key_pair
  generated_pair (err e, s) public_key private_key h = err-not-ok h
  generated_pair (ok key, s) public_key private_key h =
      encoded_pair key (k.marshal_public key) (k.marshal_pkcs8 key) s public_key private_key refl
        refl h

  -- The private half of a generated key pair is read back by parsePrivateKey, as a key whose
  -- fingerprint is that of the public half: the text that Snowflake is given and the key that the
  -- pool signs with belong together.
  pub generate_key_pair-parse_private_key :
      (s : S) (public_key private_key : Str)
      → (generate_key_pair k s).0 ≡ ok (public_key, private_key)
      → (key : K) × (der : Str) × (parse_private_key c private_key ≡ ok key)
        × (public_key ≡ k.base64 der)
        × (public_key_fingerprint c key ≡ text "SHA256:" ++ c.base64 (c.sha256 der))
  unfolding generate_key_pair public_key_fingerprint
  generate_key_pair-parse_private_key s public_key private_key h =
      generated_pair (k.generate_key min_rsa_bits s) public_key private_key h
