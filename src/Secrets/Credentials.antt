-- ===== src/Secrets/Credentials.antt =====
-- internal/secrets/credentials.go. The key generator and the JSON encoding of the three stored
-- fields belong to Go's standard library and are parameters.
use yukimi.Errors.{Error, plain, Result, ok, err, wrap}
use yukimi.Base.{if◌then◌else◌, Str, text, is_empty, ℕ, ◌≡◌, ◌||◌}
use yukimi.Effects.{Action, ◌>>=◌, pure}

pub record Credentials : Type 0 where
  pub username : Str
  pub public_key : Str
  pub private_key : Str
  pub rotated_at : ℕ

-- `json.Marshal` and `json.Unmarshal` on the fields `username`, `public_key`, `private_key`.
pub record Codec : Type 0 where
  pub encode : Str → Str → Str → Str
  pub decode : Str → Result (Str × Str × Str)

-- The documented behaviour that the program relies on.
abbrev pub IsCodec : Codec → Type 0
IsCodec codec =
    (username public_key private_key : Str)
    → codec.decode (codec.encode username public_key private_key)
      ≡ ok (username, public_key, private_key)

-- `marshalCredentials`
unfoldable pub marshal_credentials : Codec → Credentials → Str
marshal_credentials codec c = codec.encode c.username c.public_key c.private_key

empty_field : Error
empty_field = plain (
    text
      "failed to unmarshal credentials: username, public_key, and private_key must all be non-empty")

checked : ℕ → Result (Str × Str × Str) → Result Credentials
checked rotated_at (err e) = err (wrap (text "failed to unmarshal credentials: ") e)
checked rotated_at (ok (username, public_key, private_key)) =
    if is_empty username || is_empty public_key || is_empty private_key
    then err empty_field
    else ok (record {
      username = username;
      public_key = public_key;
      private_key = private_key;
      rotated_at = rotated_at;
    })

-- `unmarshalCredentials`
unfoldable pub unmarshal_credentials : Codec → Str → ℕ → Result Credentials
unfolding checked empty_field text
unmarshal_credentials codec value rotated_at = checked rotated_at (codec.decode value)

-- `NewCredentials` over `GenerateKeyPair`; the clock is read after the keys are made.
unfoldable pub new_credentials :
    {S : Type 0} → (S → ℕ) → Action S (Str × Str) → Str → Action S Credentials
new_credentials clock generate username = do
  pair ← generate
  now ← λ s. (ok (clock s), s)
  pure (record { username = username; public_key = pair.0; private_key = pair.1; rotated_at = now })
