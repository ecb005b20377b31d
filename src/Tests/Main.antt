-- ===== src/Tests/Main.antt =====
-- brain-python/main.py at concrete inputs.
use test_bot.Main.{check_token}
use test_bot.Base.{[], if◌then◌else◌, list_eq, nat_eq, none, refl, some, ◌==◌, ◌↔◌, ◌∷◌, ◌≡◌, ◌≢◌}
use test_bot.Text.{codes, is_space, lower, strip_by}
use test_bot.Env.{Env}
use test_bot.Services.Outbox.{Call, Table}
use test_bot.Main.{Reply, bearer_token, body, invalid_token, crashed, require_outbox_token}
use test_bot.Main.Access.{Authorized, bearer_token-written, require_outbox_token_iff}

abbrev secured : Env
secured key = if key == codes "OUTBOX_TOKEN" then some (codes "s3cret") else none

abbrev call : Call
call = record { database_url = some (codes "postgresql://db"); fault = none; now = 5 }

abbrev table : Table
table = record { rows = []; next_id = 1 }

-- A token outside ASCII is no refusal but an exception.
crash : require_outbox_token secured none (some (233 ∷ [])) ≡ crashed
unfolding require_outbox_token list_eq nat_eq strip_by is_space test_bot.Main.check_token
    bearer_token
crash = refl

wrong_refused : require_outbox_token secured none (some (codes "other")) ≡ invalid_token
unfolding require_outbox_token list_eq nat_eq strip_by is_space test_bot.Main.check_token
    bearer_token
wrong_refused = refl

refused_no_body : (r : Reply (Unit {0})) → r ≡ invalid_token → r ≢ body tt
refused_no_body r e h = cc

wrong : require_outbox_token secured none (some (codes "other")) ≢ body tt
wrong = refused_no_body _ wrong_refused

require_outbox_token_iff_example :
    require_outbox_token secured (some (codes "Bearer s3cret")) none ≡ body tt
    ↔ Authorized secured (some (codes "Bearer s3cret")) none
require_outbox_token_iff_example =
    require_outbox_token_iff secured (some (codes "Bearer s3cret")) none

bearer_token-written_example : bearer_token (some (codes "Bearer s3cret")) ≡ codes "s3cret"
unfolding nat_eq lower is_space
bearer_token-written_example =
    bearer_token-written (codes "Bearer") (codes "s3cret")
      (refl, (refl, (refl, (refl, (refl, (refl, tt)))))) refl refl refl refl refl
