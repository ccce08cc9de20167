-- ===== src/Tests/Sessions.antt =====
-- The theorems on the servers at a server with a password and the sample cache.
use ant_cache.Base.{pos, ◌≡◌, refl, true, false, List, [], ◌∷◌, some, codes, text_eq}
use ant_cache.Server.{
  Answer, answer, auth_enabled, handle_auth, process_parts, parse_ttl_from_parts,
  process_command_direct,
}
use ant_cache.Server.Commands.{verb_of, to_upper, line, run, del_command}
use ant_cache.Server.Safety.{Answers, process_total}
use ant_cache.Server.Access.{Accepts, authenticated_by_auth}
use ant_cache.Server.Errors.{is_error, error_changes_nothing}
use ant_cache.Server.Session.{
  Received, Serves, handle_text_connection, handle_text_connection-Serves,
}
use ant_cache.Utils.Quotes.{parse_command_with_quotes}
use ant_cache.Tests.{plain_compression, stocked, stocked-IsValid, locked}

locked_on : auth_enabled locked.auth_manager ≡ true
unfolding auth_enabled
locked_on = refl

process_total_example :
    Answers (process_command_direct locked stocked (pos 20) true (codes "DEL list"))
process_total_example =
    process_total locked stocked (pos 20) true (codes "DEL list") stocked-IsValid

abbrev lines : List Received
lines =
    record { text = codes "GET name"; now = pos 20; writable = true }
    ∷ record { text = []; now = pos 21; writable = true }
    ∷ record { text = codes "FLUSHALL"; now = pos 22; writable = false }
    ∷ []

handle_text_connection-Serves_example : Serves (handle_text_connection locked lines stocked)
handle_text_connection-Serves_example =
    handle_text_connection-Serves locked lines stocked stocked-IsValid

-- The answer to AUTH with the password.
abbrev let_in : Answer plain_compression
let_in = answer stocked true (line (codes "OK authenticated"))

auth_answer :
    process_command_direct locked stocked (pos 20) false (codes "auth secret") ≡ some let_in
unfolding process_command_direct process_parts parse_command_with_quotes verb_of to_upper text_eq
    handle_auth
auth_answer = refl

authenticated_by_auth_example :
    Accepts locked stocked (pos 20) locked_on (parse_command_with_quotes (codes "auth secret"))
authenticated_by_auth_example =
    authenticated_by_auth locked stocked (pos 20) locked_on (codes "auth secret") let_in auth_answer
      refl

del_refused :
    process_command_direct locked stocked (pos 20) true (codes "DEL")
    ≡ some (answer stocked true (line (codes "ERROR DEL requires key")))
unfolding process_command_direct process_parts parse_command_with_quotes verb_of to_upper text_eq
    auth_enabled run del_command parse_ttl_from_parts
del_refused = refl

error_changes_nothing_example :
    (answer stocked true (line (codes "ERROR DEL requires key"))).reply.cache ≡ stocked
unfolding is_error
error_changes_nothing_example =
    error_changes_nothing locked stocked (pos 20) true (codes "DEL")
      (answer stocked true (line (codes "ERROR DEL requires key"))) del_refused refl
