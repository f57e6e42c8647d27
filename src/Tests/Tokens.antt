-- ===== src/Tests/Tokens.antt =====
-- Loading a configuration, and its token from a file.
use rcvd.Prelude.{◌≡◌, refl, true, some, [], ◌∷◌}
use rcvd.Prelude.Result.{ok}
use rcvd.Text.{Text, codes, text_eq, has, to_lower}
use rcvd.Text.Affix.{has_prefix}
use rcvd.Text.Fields.{trim_space, trim_left, trim_right, is_space}
use rcvd.Text.Split.{split}
use rcvd.Config.{
  with_listen, is_listen_addr, exposes_53, listen_port_is_53, is_upstream, advertise_ok, autogen_ok,
}
use rcvd.Config.Validate.{
  validate, check_fields, tls_automation_ok, allowlist_ok, resolve_cache_type, with_defaults,
  finish, logging_ok,
}
use rcvd.Config.Accepted.{IsSafe}
use rcvd.Config.Token.{Env, token_in_line, token_from_dotenv, resolve_dns_api_token, materialize}
use rcvd.Config.Token.Dotenv.{token_from_dotenv-assignment}
use rcvd.Config.Load.{Decoded, cache_conflicts, validated, check_decoded, load}
use rcvd.Config.Load.Guards.{HasToken, IsClean, load-IsSafe}
use rcvd.Tests.Settings.{host, router, running}

-- A comment, and an exported assignment with a space and an equals sign in the value.
abbrev dotenv : Text
dotenv = codes "# secret\nexport TOKEN=\"a =b\"\n"

abbrev env : Env
env = record {
  getenv = λ name. [];
  read_file = λ path. some dotenv;
  is_abs = λ path. true;
  join_path = λ dir path. path;
}

token_from_dotenv-assignment_example :
    token_from_dotenv env (codes "f") (codes "TOKEN") ≡ ok (codes "a =b")
unfolding token_in_line has_prefix trim_space trim_left trim_right is_space split
token_from_dotenv-assignment_example =
    token_from_dotenv-assignment env (codes "f") dotenv (codes "TOKEN") (codes "a =b") true
      (codes "# secret" ∷ []) ([] ∷ []) refl refl (refl, refl) refl (refl, tt)

abbrev decoded : Decoded
decoded = record { config = router; undecoded = []; cache_keys = codes "type" ∷ [] }

load-IsSafe_example :
    (content : Text) × (d : Decoded) × (env.read_file (codes "c") ≡ some content)
    × (some decoded ≡ some d)
    × IsClean d
    × IsSafe host running
    × (true ≡ true → HasToken running)
unfolding load check_decoded cache_conflicts validated resolve_dns_api_token materialize validate
    check_fields with_listen is_listen_addr exposes_53 listen_port_is_53 is_upstream advertise_ok
    autogen_ok tls_automation_ok allowlist_ok resolve_cache_type with_defaults finish logging_ok
    text_eq has to_lower trim_space trim_left trim_right
load-IsSafe_example =
    load-IsSafe host env (λ s. some decoded) (codes "c") (codes "/etc") true running refl
