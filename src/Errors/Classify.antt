-- ===== src/Errors/Classify.antt =====
-- What internal/errors/errors.go promises of the two classes of errors.
use yukimi.Base.{
  Str, text, length, take, length-append, length-take, is_empty, ℕ, suc, ◌+◌, ◌≤◌, ◌≡◌, refl, true,
  false, [], ◌∷◌, arith,
}
use yukimi.Errors.{
  wrapped, max_msg_len, default_empty_msg, truncation_mark, truncate, new_user_error, message,
  is_user_error,
}

length-truncate : (n : ℕ) (msg : Str) → length (truncate n msg) ≤ n + 3
unfolding truncate truncation_mark text
length-truncate n msg =
    ground (arith, length-append {0} (take n msg) truncation_mark, length-take {0} n msg)

truncate_short : (n : ℕ) (msg : Str) → length msg ≤ n → truncate n msg ≡ msg
unfolding truncate
truncate_short n msg h = ground arith

truncate_ne_empty :
    (n : ℕ) (msg : Str) → is_empty msg ≡ false → is_empty (truncate (suc n) msg) ≡ false
unfolding truncate
truncate_ne_empty n [] h = cc
truncate_ne_empty n (c ∷ msg) h = ground arith

-- A new user error is classified as a user error under any one wrapping, and its own message is
-- not empty and at most three bytes longer than the limit.
pub is_user_error-new_user_error :
    (msg before after : Str)
    → (is_user_error (wrapped before (new_user_error msg) after) ≡ true)
      × (is_empty (message (new_user_error msg)) ≡ false)
      × (length (message (new_user_error msg)) ≤ max_msg_len + 3)
unfolding new_user_error is_user_error message default_empty_msg text
is_user_error-new_user_error [] before after = (refl, refl, omega arith)
is_user_error-new_user_error (c ∷ msg) before after =
    (refl, truncate_ne_empty 255 (c ∷ msg) refl, length-truncate max_msg_len (c ∷ msg))

-- A message that is not empty and within the limit is kept as it is.
pub message-new_user_error :
    (msg : Str)
    → is_empty msg ≡ false
    → length msg ≤ max_msg_len
    → message (new_user_error msg) ≡ msg
unfolding new_user_error message
message-new_user_error [] h k = cc
message-new_user_error (c ∷ msg) h k = truncate_short max_msg_len (c ∷ msg) k
