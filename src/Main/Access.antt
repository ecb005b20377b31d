-- ===== src/Main/Access.antt =====
-- brain-python/main.py: who may use the outbox.
use test_bot.Base.{list_eq, nat_eq, ◌++◌, ◌==◌}
use test_bot.Text.{Free, NoLead, NoTrail, is_space, lower, partition, strip_by_fixed}
use test_bot.Base.{Option, [], refl, some, true, ◌↔◌, ◌∷◌, ◌≡◌, ◌≢◌}
use test_bot.Text.{Text, codes}
use test_bot.Env.{Env}
use test_bot.Base.{arith}
use test_bot.Main.{
  bearer_token, body, check_token, compare_digest, expected_token, is_ascii, provided_token,
  require_outbox_token,
}

-- The outbox has a token, in ASCII, and the headers present it.
pub record Authorized (env : Env) (authorization x_outbox_token : Option Text) : Type 0 where
  pub configured : expected_token env ≢ []
  pub ascii : is_ascii (expected_token env) ≡ true
  pub presented : provided_token authorization x_outbox_token ≡ expected_token env

check_token_accepts :
    (expected provided : Text)
    → check_token expected provided ≡ body tt
    → (expected ≢ []) × (is_ascii expected ≡ true) × (provided ≡ expected)
unfolding check_token compare_digest
check_token_accepts [] provided h = cc
check_token_accepts (c ∷ cs) [] h = cc
check_token_accepts (c ∷ cs) (d ∷ ds) h = ground arith

accepted_token :
    (token : Text) → token ≢ [] → is_ascii token ≡ true → check_token token token ≡ body tt
unfolding check_token compare_digest
accepted_token [] h ascii = absurd (h refl)
accepted_token (c ∷ cs) h ascii = ground arith

-- The check of the token passes exactly when a token in ASCII is configured and the headers
-- present it.
pub require_outbox_token_iff :
    (env : Env) (authorization x_outbox_token : Option Text)
    → require_outbox_token env authorization x_outbox_token ≡ body tt
      ↔ Authorized env authorization x_outbox_token
unfolding require_outbox_token
require_outbox_token_iff env authorization x_outbox_token = (accepted, passes)
  where
    accepted :
        require_outbox_token env authorization x_outbox_token ≡ body tt
        → Authorized env authorization x_outbox_token
    accepted h =
        let (configured, ascii, presented) = check_token_accepts _ _ h in
        record { configured = configured; ascii = ascii; presented = presented }

    passes :
        Authorized env authorization x_outbox_token
        → require_outbox_token env authorization x_outbox_token ≡ body tt
    passes a = rw a.presented (accepted_token (expected_token env) a.configured a.ascii)

partition_written :
    (scheme token : Text)
    → Free (λ c. c == b' ') scheme
    → partition b' ' (scheme ++ (b' ' ∷ token))
      ≡ record { before = scheme; found = true; after = token }
unfolding partition nat_eq
partition_written [] token free = refl
partition_written (c ∷ cs) token free = ground (arith, partition_written cs token free.1)

-- A bearer header with the scheme in any case gives the token it was written with, if it and the
-- header have no blanks at their ends.
pub bearer_token-written :
    (scheme token : Text)
    → Free (λ c. c == b' ') scheme
    → lower scheme ≡ codes "bearer"
    → NoLead is_space (scheme ++ (b' ' ∷ token))
    → NoTrail is_space (scheme ++ (b' ' ∷ token))
    → NoLead is_space token
    → NoTrail is_space token
    → bearer_token (some (scheme ++ (b' ' ∷ token))) ≡ token
unfolding bearer_token
bearer_token-written scheme token free bearer lead trail token_lead token_trail =
    let header = scheme ++ (b' ' ∷ token) in
    rw (strip_by_fixed is_space header lead trail, partition_written scheme token free, bearer)
      (strip_by_fixed is_space token token_lead token_trail)
